-- ===== src/BTreeMap/Laws.antt =====
-- Lookup, length and order after an insertion, and lookup in a range.
use native.Mathlib.Decide.{dec_lt}
use tiny_binary_debugger.Base.{
  ◌++◌, ◌∙◌, ==_iff, inr, inl, Bool-cases, ℕ, ◌+◌, ◌<◌, ◌≤◌, ◌≡◌, refl, ◌&&◌, none, some, [], ◌∷◌,
  length, leb, ◌==◌, if◌then◌else◌, arith,
}
use tiny_binary_debugger.BTreeMap.{BTreeMap, insert, get, between, IsAbove, IsOrdered}

module _ {ℓ} {V : Type ℓ} where
  -- Whatever the order, a lookup sees the last value that was inserted.
  pub get-insert :
      (k j : ℕ) (v : V) (m : BTreeMap V)
      → IsOrdered m
      → get (insert k v m) j ≡ (if j == k then some v else get m j)
  unfolding get insert
  get-insert k j v [] o = refl
  get-insert k j v ((i, w) ∷ []) o = ground arith
  get-insert k j v ((i, w) ∷ (i', w') ∷ m) o = ground (arith, get-insert k j v ((i', w') ∷ m) o.1)

  pub insert-IsAbove :
      (l k : ℕ) (v : V) (m : BTreeMap V) → l < k → IsAbove l m → IsAbove l (insert k v m)
  unfolding insert
  insert-IsAbove l k v [] h o = omega arith
  insert-IsAbove l k v ((j, w) ∷ m) h o = ground (arith, insert-IsAbove j k v m)

  pub insert-IsOrdered : (k : ℕ) (v : V) (m : BTreeMap V) → IsOrdered m → IsOrdered (insert k v m)
  unfolding insert
  insert-IsOrdered k v [] o = tt
  insert-IsOrdered k v ((j, w) ∷ m) o = ground (arith, insert-IsAbove j k v m)

  pub get_of_above : (l k : ℕ) (m : BTreeMap V) → IsAbove l m → k ≤ l → get m k ≡ none
  unfolding get
  get_of_above l k [] o h = refl
  get_of_above l k ((j, w) ∷ m) o h = ground (arith, get_of_above j k m)

  -- A new key adds one entry, an old one none.
  pub length-insert :
      (k : ℕ) (v : V) (m : BTreeMap V)
      → IsOrdered m
      → length (insert k v m) ≡ length m + (elim (get m k) [ none ↦ 1 | some _ ↦ 0 ])
  unfolding insert get
  length-insert k v [] o = refl
  length-insert k v ((i, w) ∷ []) o = ground arith
  length-insert k v ((i, w) ∷ (j, w') ∷ m) o =
      ground (arith, length-insert k v ((j, w') ∷ m) o.1, get_of_above i k ((j, w') ∷ m) o)

  IsAbove-mono : (l j : ℕ) (m : BTreeMap V) → l < j → IsAbove j m → IsAbove l m
  IsAbove-mono l j [] h o = tt
  IsAbove-mono l j ((i, w) ∷ m) h o = (omega arith, o.1)

  pub between-IsAbove :
      (l start stop : ℕ) (m : BTreeMap V) → IsAbove l m → IsAbove l (between start stop m)
  unfolding between
  between-IsAbove l start stop [] o = tt
  between-IsAbove l start stop ((j, w) ∷ m) o = elim (Bool-cases (leb start j && leb j stop)) [
    | inl e ↦ rw e (o.0, between-IsAbove j start stop m o.1)
    | inr e ↦ rw e (between-IsAbove l start stop m (IsAbove-mono l j m o.0 o.1))
  ]

  pub between-IsOrdered :
      (start stop : ℕ) (m : BTreeMap V) → IsOrdered m → IsOrdered (between start stop m)
  unfolding between
  between-IsOrdered start stop [] o = tt
  between-IsOrdered start stop ((j, w) ∷ m) o = elim (Bool-cases (leb start j && leb j stop)) [
    | inl e ↦ rw e (between-IsAbove j start stop m o)
    | inr e ↦ rw e (IsOrdered_of_above j (between start stop m) (between-IsAbove j start stop m o))
  ]
    where
      IsOrdered_of_above : (j : ℕ) (n : BTreeMap V) → IsAbove j n → IsOrdered n
      IsOrdered_of_above j [] a = tt
      IsOrdered_of_above j (e ∷ n) a = a.1

  -- Within a range a lookup sees what it sees in the map, and outside nothing.
  pub get-between :
      (start stop k : ℕ) (m : BTreeMap V)
      → get (between start stop m) k ≡ (if leb start k && leb k stop then get m k else none)
  unfolding get between
  get-between start stop k [] = elim (Bool-cases (leb start k && leb k stop)) [
    | inl e ↦ rw e
    | inr e ↦ rw e
  ]
  get-between start stop k ((j, w) ∷ m) = elim (Bool-cases (k == j)) [
    | inl e ↦ elim (Bool-cases (leb start j && leb j stop)) [
      | inl b ↦ rw (b, e, (==_iff k j).0 e, b)
      | inr b ↦ rw b (get-between start stop k m ∙ rw ((==_iff k j).0 e, b))
    ]
    | inr e ↦ elim (Bool-cases (leb start j && leb j stop)) [
      | inl b ↦ rw (b, e) (get-between start stop k m)
      | inr b ↦ rw (b, e) (get-between start stop k m)
    ]
  ]

  above_head :
      (k i : ℕ) (w : V) (m : BTreeMap V) → ((j : ℕ) → k ≤ j → get ((i, w) ∷ m) j ≡ none) → i < k
  unfolding get
  above_head k i w m h = elim (dec_lt i k) [
    | yes lt ↦ lt
    | no ge ↦ absurd (ground (arith, h i (omega arith)))
  ]

  later_free :
      (k i : ℕ) (w : V) (m : BTreeMap V)
      → ((j : ℕ) → k ≤ j → get ((i, w) ∷ m) j ≡ none)
      → (j : ℕ) → k ≤ j
      → get m j ≡ none
  unfolding get
  later_free k i w m h j le = ground (arith, h j le)

  -- A key above all others goes to the end.
  pub insert-last :
      (k : ℕ) (v : V) (m : BTreeMap V)
      → ((j : ℕ) → k ≤ j → get m j ≡ none)
      → insert k v m ≡ m ++ (k, v) ∷ []
  unfolding insert
  insert-last k v [] h = refl
  insert-last k v ((i, w) ∷ m) h =
      let lt = above_head k i w m h in ground (arith, insert-last k v m (later_free k i w m h))
