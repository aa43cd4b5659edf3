-- ===== src/Stats/Counter.antt =====
-- What the counting maps hold: each key once, with the number of its occurrences.
use mathlib.Core.List.{foldl, Mem, mem-cons, mem-cons_self, mem-cons_of_mem, not-mem-nil}
use mathlib.Core.Logic.Or
use mathlib.Core.HLevel.{×_prop}
use mathlib.Core.Path.{subst}
use native.Mathlib.Bridge.{le_prop}
use native.Mathlib.Nat.{ℕ_set}
use tiny_binary_debugger.Base.{
  ℕ, ◌+◌, ◌≤◌, ◌<◌, ◌≡◌, refl, ap, ◌∙◌, Bool, true, List, [], ◌∷◌, ◌++◌, length, if◌then◌else◌,
  arith, Bool-cases, inl, inr,
}
use tiny_binary_debugger.Eq.{Eq}
use tiny_binary_debugger.Stats.{bump}

-- The number of items that pass a test.
unfoldable pub count_if {ℓ} : {A : Type ℓ} → (A → Bool) → List A → ℕ
count_if p [] = 0
count_if p (x ∷ xs) = if p x then count_if p xs + 1 else count_if p xs

pub count_if-snoc {ℓ} :
    {A : Type ℓ} (p : A → Bool) (xs : List A) (x : A)
    → count_if p (xs ++ x ∷ []) ≡ (if p x then count_if p xs + 1 else count_if p xs)
unfolding count_if
count_if-snoc p [] x = refl
count_if-snoc p (y ∷ ys) x = ground (arith, count_if-snoc p ys x)

module _ {K : Type 0} ⦃e : Eq K⦄ where
  -- The occurrences of a key.
  unfoldable pub occurrences : K → List K → ℕ
  unfolding count_if
  occurrences k = count_if (e.beq k)

  -- The count of a key, 0 if it is not there.
  unfoldable pub count_of : K → List (K × ℕ) → ℕ
  count_of k [] = 0
  count_of k ((j, c) ∷ m) = if e.beq k j then c else count_of k m

  -- The sum of all counts.
  unfoldable pub total : List (K × ℕ) → ℕ
  total [] = 0
  total ((j, c) ∷ m) = c + total m

  -- No key twice, and no count 0.
  abbrev pub IsCounter : List (K × ℕ) → Type 0
  IsCounter [] = Unit
  IsCounter ((j, c) ∷ m) = (0 < c) × (count_of j m ≡ 0) × IsCounter m

  beq_self : (k : K) → e.beq k k ≡ true
  beq_self k = (e.beq_iff k k).1 refl

  pub count_of-bump :
      (k j : K) (m : List (K × ℕ))
      → count_of j (bump k m) ≡ (if e.beq j k then count_of j m + 1 else count_of j m)
  unfolding count_of bump
  count_of-bump k j [] = ground arith
  count_of-bump k j ((i, c) ∷ m) =
      ground (arith, count_of-bump k j m, e.beq_iff k i, e.beq_iff j k, e.beq_iff j i)

  pub bump-IsCounter : (k : K) (m : List (K × ℕ)) → IsCounter m → IsCounter (bump k m)
  unfolding bump
  bump-IsCounter k [] h = (omega arith, unfold count_of in refl, tt)
  bump-IsCounter k ((j, c) ∷ m) h = elim (Bool-cases (e.beq k j)) [
    | inl same ↦ rw same (omega arith, h.1, h.2)
    | inr other ↦ rw other (
      h.0,
      count_of-bump k j m ∙ ground (arith, e.beq_iff k j, e.beq_iff j k, h.1),
      bump-IsCounter k m h.2,
    )
  ]

  pub total-bump : (k : K) (m : List (K × ℕ)) → total (bump k m) ≡ total m + 1
  unfolding total bump
  total-bump k [] = refl
  total-bump k ((j, c) ∷ m) = ground (arith, total-bump k m)

  pub length-le-total : (m : List (K × ℕ)) → IsCounter m → length m ≤ total m
  unfolding total
  length-le-total [] h = omega arith
  length-le-total ((j, c) ∷ m) h = omega (arith, length-le-total m h.2, h.0)

  head_count :
      (k j : K) (n c : ℕ) (m : List (K × ℕ))
      → ◌≡◌ {A = K × ℕ} (k, n) (j, c)
      → 0 < c
      → (n ≡ count_of k ((j, c) ∷ m)) × (0 < n)
  unfolding count_of
  head_count k j n c m p pos =
      let keys : k ≡ j = ap (λ x. x.0) p in
      let counts : n ≡ c = ap (λ x. x.1) p in (rw ((e.beq_iff k j).1 keys) counts, rw counts pos)

  tail_count :
      (k j : K) (n c : ℕ) (m : List (K × ℕ))
      → count_of j m ≡ 0
      → (n ≡ count_of k m) × (0 < n)
      → (n ≡ count_of k ((j, c) ∷ m)) × (0 < n)
  unfolding count_of
  tail_count k j n c m none (count, pos) = elim (Bool-cases (e.beq k j)) [
    | inl same ↦ absurd (let z : count_of k m ≡ 0 = rw ((e.beq_iff k j).0 same) none in omega arith)
    | inr other ↦ (rw other count, pos)
  ]

  -- An item of a counter has the count of its key.
  pub mem-count_of :
      (k : K) (n : ℕ) (m : List (K × ℕ)) → IsCounter m → Mem (k, n) m → (n ≡ count_of k m) × (0 < n)
  mem-count_of k n [] h i = absurd (not-mem-nil i)
  mem-count_of k n ((j, c) ∷ m) h i =
      Or.elim (×_prop (ℕ_set _ _) le_prop) (mem-cons.0 i) (λ p. head_count k j n c m p h.0)
        (λ later. tail_count k j n c m h.1 (mem-count_of k n m h.2 later))

  -- A key with a count is an item.
  pub count_of-mem : (k : K) (m : List (K × ℕ)) → 0 < count_of k m → Mem (k, count_of k m) m
  unfolding count_of
  count_of-mem k [] h = elim h [ ]
  count_of-mem k ((j, c) ∷ m) h = elim (Bool-cases (e.beq k j)) [
    | inl same ↦
        rw same (subst (λ i. Mem (k, c) ((i, c) ∷ m)) ((e.beq_iff k j).0 same) mem-cons_self)
    | inr other ↦ rw other (mem-cons_of_mem (j, c) (count_of-mem k m (rw other at h)))
  ]

  -- Counting the keys of a list one by one.
  unfoldable pub count_all : List (K × ℕ) → List K → List (K × ℕ)
  count_all = foldl (λ m k. bump k m)

  pub count_of-count_all :
      (k : K) (m : List (K × ℕ)) (ks : List K)
      → count_of k (count_all m ks) ≡ count_of k m + occurrences k ks
  unfolding count_all occurrences
  count_of-count_all k m [] = omega arith
  count_of-count_all k m (j ∷ ks) =
      ground (arith, count_of-count_all k (bump j m) ks, count_of-bump j k m)

  pub count_all-IsCounter :
      (m : List (K × ℕ)) (ks : List K) → IsCounter m → IsCounter (count_all m ks)
  unfolding count_all
  count_all-IsCounter m [] h = h
  count_all-IsCounter m (j ∷ ks) h = count_all-IsCounter (bump j m) ks (bump-IsCounter j m h)

  pub total-count_all :
      (m : List (K × ℕ)) (ks : List K) → total (count_all m ks) ≡ total m + length ks
  unfolding count_all
  total-count_all m [] = omega arith
  total-count_all m (j ∷ ks) = omega (arith, total-count_all (bump j m) ks, total-bump j m)
