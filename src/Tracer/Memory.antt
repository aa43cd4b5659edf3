-- ===== src/Tracer/Memory.antt =====
-- The detection of memory changes in the window around the stack pointer.
use tiny_binary_debugger.Base.{
  ℕ, ◌+◌, ◌-◌, ◌%◌, ◌^◌, Bool, ◌||◌, Option, none, some, List, [], ◌∷◌, ◌==◌, if◌then◌else◌, Result,
  ok, err,
}
use tiny_binary_debugger.Storage.{MemChange}
use tiny_binary_debugger.Text.{Text, codes, one_of, starts_with}

unfoldable pub is_store_mnemonic : Text → Bool
unfolding one_of starts_with
is_store_mnemonic m =
    one_of m (
      codes "str"
      ∷ codes "stp"
      ∷ codes "stur"
      ∷ codes "stlr"
      ∷ codes "stxr"
      ∷ codes "strb"
      ∷ codes "strh"
      ∷ codes "push"
      ∷ codes "pushq"
      ∷ [])
    || starts_with m (codes "st")

-- `memory_cache: HashMap<u64, Vec<u8>>`, which the program only reads and writes at a key.
abbrev pub Cache : Type 0
Cache = ℕ → Option (List ℕ)

unfoldable pub cache_insert : Cache → ℕ → List ℕ → Cache
cache_insert cache k v j = if j == k then some v else cache j

-- `for i in 0..len`, from `i` on, over what is left of the two buffers. `stack_base + i as u64`
-- wraps in a release build.
unfoldable pub diff_from : ℕ → ℕ → List ℕ → List ℕ → List MemChange
diff_from stack_base i [] new_data = []
diff_from stack_base i (o ∷ old_data) [] = []
diff_from stack_base i (o ∷ old_data) (n ∷ new_data) =
    let rest = diff_from stack_base (i + 1) old_data new_data in
    if n == o
    then rest
    else record { addr = (stack_base + i) % 2 ^ 64; old_val = o; new_val = n } ∷ rest

-- The changes against the buffer that the cache holds for the same base, if it holds one.
unfoldable pub changes_since : ℕ → Option (List ℕ) → List ℕ → List MemChange
changes_since stack_base none new_data = []
changes_since stack_base (some old_data) new_data = diff_from stack_base 0 old_data new_data

-- `sp.saturating_sub(128)`
unfoldable pub window_base : ℕ → ℕ
window_base sp = sp - 128

-- Step 4 of `single_step`, on what `read_memory` returned: the changes and the new cache.
unfoldable pub note_changes : Cache → ℕ → Result (List ℕ) → List MemChange × Cache
note_changes cache stack_base (err e) = ([], cache)
note_changes cache stack_base (ok new_data) =
    (changes_since stack_base (cache stack_base) new_data, cache_insert cache stack_base new_data)
