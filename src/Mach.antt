-- ===== src/Mach.antt =====
-- src/tracer/mach.rs: `MachTask`, the reads of the traced process.
pub mod Reads
use tiny_binary_debugger.Base.{
  ◌+◌, ℕ, ◌*◌, ◌/◌, List, ◌++◌, Result, ok, err, length, take, drop, replicate, if◌then◌else◌,
}
use tiny_binary_debugger.Base.Int.{ℤ}
use tiny_binary_debugger.Text.{codes}
use tiny_binary_debugger.Text.Number.{hex_lower}
use tiny_binary_debugger.Os.{Arch, x86_64, aarch64, Os, ThreadState, display_i32, is_success}

-- `size_of::<mach_port_t>()`
abbrev pub port_size : ℕ
port_size = 4

-- `X86_THREAD_STATE64` and `ARM_THREAD_STATE64`
unfoldable pub flavor : Arch → ℕ
flavor x86_64 = 4
flavor aarch64 = 6

-- `size_of` of the thread state: 21 fields of 8 bytes, or 33 of 8 and two of 4.
unfoldable pub state_size : Arch → ℕ
state_size x86_64 = 21 * 8
state_size aarch64 = 33 * 8 + 2 * 4

module _ {arch : Arch} (os : Os arch) where
  open os use {
    World, task_for_pid, mach_vm_read_overwrite, task_threads, mach_vm_deallocate, thread_get_state,
  }

  unfoldable pub attach : World → ℤ → Result ℕ
  unfolding is_success
  attach w pid =
      let (kr, task) = task_for_pid w pid in
      if is_success kr
      then ok task
      else err (
          codes "task_for_pid failed: "
          ++ display_i32 kr
          ++ codes " (need sudo + code signing with entitlements)")

  -- The buffer starts as `size` zeros; what the kernel writes replaces its front.
  unfoldable pub read_memory : World → ℕ → ℕ → ℕ → Result (List ℕ)
  unfolding is_success
  read_memory w task addr size =
      let (kr, written, out_size) = mach_vm_read_overwrite w task addr size in
      let buf = written ++ drop (length written) (replicate size 0) in
      if is_success kr
      then ok (take out_size buf)
      else err (codes "mach_vm_read failed at 0x" ++ hex_lower addr ++ codes ": " ++ display_i32 kr)

  unfoldable pub get_threads : World → ℕ → World × Result (List ℕ)
  unfolding is_success
  get_threads w task =
      let (w', kr, threads, thread_vec) = task_threads w task in
      let alloc_size = length thread_vec * port_size in
      if is_success kr
      then (mach_vm_deallocate w' threads alloc_size, ok thread_vec)
      else (w', err (codes "task_threads failed: " ++ display_i32 kr))

  unfoldable pub get_thread_state : World → ℕ → Result (ThreadState arch)
  unfolding is_success flavor state_size
  get_thread_state w thread =
      let (kr, state) = thread_get_state w thread (flavor arch) (state_size arch / 4) in
      if is_success kr then ok state else err (codes "thread_get_state failed: " ++ display_i32 kr)
