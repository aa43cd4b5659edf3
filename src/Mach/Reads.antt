-- ===== src/Mach/Reads.antt =====
-- What the reads of the traced process return, and that they leak no memory of the tracer.
use tiny_binary_debugger.Base.{
  ℕ, ◌*◌, ◌≡◌, refl, ap, true, false, List, [], ◌∷◌, ◌++◌, ok, length, take, Bool-cases, inl, inr,
}
use tiny_binary_debugger.Mach.{read_memory, get_threads}
use tiny_binary_debugger.Os.{Arch, Os, is_success}

take-append {ℓ} : {A : Type ℓ} (xs ys : List A) → take (length xs) (xs ++ ys) ≡ xs
take-append [] ys = refl
take-append (x ∷ xs) ys = ap (λ l. x ∷ l) (take-append xs ys)

module _ {arch : Arch} (os : Os arch) where
  open os use {World, mach_vm_read_overwrite, task_threads, mach_vm_deallocate}

  -- Where the kernel reports as many bytes as it wrote, `read_memory` returns exactly those: none
  -- of the zeros that the buffer began with.
  pub read_memory_exact :
      (w : World) (task addr size : ℕ)
      → is_success (mach_vm_read_overwrite w task addr size).0 ≡ true
      → (mach_vm_read_overwrite w task addr size).2
        ≡ length (mach_vm_read_overwrite w task addr size).1
      → read_memory os w task addr size ≡ ok (mach_vm_read_overwrite w task addr size).1
  unfolding read_memory
  read_memory_exact w task addr size h n =
      rw (h, n) (ap ok (take-append (mach_vm_read_overwrite w task addr size).1 _))

  -- Of the blocks of memory that `task_threads` allocates in the tracer, each with its address and
  -- its size, four bytes to a thread, `get_threads` leaves none allocated, and it frees no other,
  -- whether it succeeds or not. A deallocation at the address and of the size of the last block is to
  -- free that block.
  pub get_threads-frees :
      (allocated : World → List (ℕ × ℕ))
      → ((w : World) (task : ℕ)
          → is_success (task_threads w task).1 ≡ true
          → allocated (task_threads w task).0
            ≡ ((task_threads w task).2, length (task_threads w task).3 * 4) ∷ allocated w)
      → ((w : World) (task : ℕ)
          → is_success (task_threads w task).1 ≡ false
          → allocated (task_threads w task).0 ≡ allocated w)
      → ((w : World) (addr size : ℕ) (others : List (ℕ × ℕ))
          → allocated w ≡ (addr, size) ∷ others
          → allocated (mach_vm_deallocate w addr size) ≡ others)
      → (w : World) (task : ℕ) → allocated (get_threads os w task).0 ≡ allocated w
  unfolding get_threads
  get_threads-frees allocated on_success on_failure on_free w task =
      elim (Bool-cases (is_success (task_threads w task).1)) [
        | inl e ↦ rw e (on_free _ _ _ (allocated w) (on_success w task e))
        | inr e ↦ rw e (on_failure w task e)
      ]
