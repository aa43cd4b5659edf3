-- ===== src/Tracer/Diff.antt =====
-- The recorded memory changes are exactly the bytes in which the two buffers differ.
use tiny_binary_debugger.Base.{
  ◌∙◌, ℕ, zero, suc, ◌+◌, ◌%◌, ◌^◌, ◌≤◌, ◌<◌, ◌≡◌, refl, Option, none, some, List, [], ◌∷◌, ◌==◌,
  if◌then◌else◌, length, get_elem?, arith, ok,
}
use tiny_binary_debugger.Storage.{MemChange}
use tiny_binary_debugger.Tracer.Memory.{Cache, cache_insert, diff_from, changes_since, note_changes}

-- The change that is recorded at an address.
unfoldable pub find_change : ℕ → List MemChange → Option MemChange
find_change a [] = none
find_change a (c ∷ cs) = if a == c.addr then some c else find_change a cs

-- What a change from one byte to another at an address should be: nothing if a buffer does not
-- reach so far, or if the byte is the same.
abbrev pub change_at : ℕ → Option ℕ → Option ℕ → Option MemChange
change_at a none n = none
change_at a (some o) none = none
change_at a (some o) (some n) =
    if n == o then none else some (record { addr = a; old_val = o; new_val = n })

find_change-below :
    (base i a : ℕ) (old new : List ℕ)
    → base + i + length new ≤ 2 ^ 64
    → a < base + i
    → find_change a (diff_from base i old new) ≡ none
unfolding find_change diff_from
find_change-below base i a [] new fits h = refl
find_change-below base i a (o ∷ old) [] fits h = refl
find_change-below base i a (o ∷ old) (n ∷ new) fits h =
    ground (arith, find_change-below base (i + 1) a old new (omega arith) (omega arith))

change_at-none : (a : ℕ) (o : Option ℕ) → none ≡ change_at a o none
change_at-none a none = refl
change_at-none a (some o) = refl

-- What is recorded for one byte is not what is found at another address.
later :
    (a base i o n : ℕ)
    → (base + i) % 2 ^ 64 < a
    → (rest : List MemChange)
    → find_change a (
        if n == o
        then rest
        else record { addr = (base + i) % 2 ^ 64; old_val = o; new_val = n } ∷ rest)
      ≡ find_change a rest
unfolding find_change
later a base i o n h rest = ground arith

find_change-diff_from :
    (base i j : ℕ) (old new : List ℕ)
    → base + i + length new ≤ 2 ^ 64
    → find_change (base + i + j) (diff_from base i old new)
      ≡ change_at (base + i + j) (get_elem? old j) (get_elem? new j)
unfolding find_change diff_from
find_change-diff_from base i j [] new fits = refl
find_change-diff_from base i zero (o ∷ old) [] fits = refl
find_change-diff_from base i (suc j) (o ∷ old) [] fits = change_at-none _ (get_elem? old j)
find_change-diff_from base i zero (o ∷ old) (n ∷ new) fits =
    ground
      (arith, find_change-below base (i + 1) (base + i + 0) old new (omega arith) (omega arith))
find_change-diff_from base i (suc j) (o ∷ old) (n ∷ new) fits =
    let shift : base + i + suc j ≡ base + (i + 1) + j = omega arith in
    later (base + i + suc j) base i o n (omega arith) (diff_from base (i + 1) old new)
    ∙ rw shift (find_change-diff_from base (i + 1) j old new (omega arith))

-- With a buffer in the cache for the window, the change that is recorded at each offset of the
-- window is the change from the cached byte to the byte that was read, none where they agree or
-- where a buffer does not reach; and the cache holds what was read. The window is not to wrap
-- around the end of the address space.
pub note_changes_exact :
    (cache : Cache) (base j : ℕ) (old new : List ℕ)
    → cache base ≡ some old
    → base + length new ≤ 2 ^ 64
    → (find_change (base + j) (note_changes cache base (ok new)).0
        ≡ change_at (base + j) (get_elem? old j) (get_elem? new j))
      × ((note_changes cache base (ok new)).1 base ≡ some new)
unfolding note_changes changes_since cache_insert
note_changes_exact cache base j old new held fits =
    (rw held (rw (← start) (find_change-diff_from base 0 j old new (omega arith))), ground arith)
  where
    start : base + 0 + j ≡ base + j
    start = omega arith
