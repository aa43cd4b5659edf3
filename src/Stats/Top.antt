-- ===== src/Stats/Top.antt =====
-- The greatest item, and the sorted list cut off.
use mathlib.Core.List.{Mem, mem-cons, mem-cons_self, mem-cons_of_mem, not-mem-nil, Mem-prop, Perm}
use mathlib.Core.List.Perm
use mathlib.Core.Logic.Or
use mathlib.Core.Path.{subst}
use native.Mathlib.Bridge.{le_prop}
use native.Mathlib.Nat.{le_trans}
use tiny_binary_debugger.Base.{
  ℕ, zero, suc, ◌≤◌, ◌≡◌, sym, Bool, List, [], ◌∷◌, take, leb, if◌then◌else◌, arith, Bool-cases,
  inl, inr, some, leb→le,
}
use tiny_binary_debugger.Stats.{max_from, max_by_count, insert_sorted, sort_by_count}

module _ {K : Type 0} where
  -- No item of the list has a count above `n`.
  pub record IsBound (n : ℕ) (xs : List (K × ℕ)) : Type 0 where
    pub at : (x : K × ℕ) → Mem x xs → x.1 ≤ n

  IsBound-cons :
      (n : ℕ) (x : K × ℕ) (xs : List (K × ℕ)) → x.1 ≤ n → IsBound n xs → IsBound n (x ∷ xs)
  IsBound-cons n x xs h b = record {
    at = λ y i. Or.elim le_prop (mem-cons.0 i) (λ p. rw p h) (b.at y);
  }

  max_from_lem :
      (best : K × ℕ) (xs : List (K × ℕ))
      → Mem (max_from best xs) (best ∷ xs)
        × (best.1 ≤ (max_from best xs).1)
        × IsBound (max_from best xs).1 xs
  unfolding max_from
  max_from_lem best [] = (mem-cons_self, omega arith, record { at = λ x i. absurd (not-mem-nil i) })
  max_from_lem best (x ∷ xs) = elim (Bool-cases (leb best.1 x.1)) [
    | inl up ↦
        let (m, ge, b) = max_from_lem x xs in
        let le = leb→le best.1 x.1 up in
        stepped up (mem-cons_of_mem best m, le_trans le ge, IsBound-cons _ x xs ge b)
    | inr stay ↦
        let (m, ge, b) = max_from_lem best xs in
        let le : x.1 ≤ best.1 = ground arith in
        stepped stay (
          Or.elim Mem-prop (mem-cons.0 m)
              (λ p. subst (λ y. Mem y (best ∷ x ∷ xs)) (sym p) mem-cons_self)
              (λ i. mem-cons_of_mem best (mem-cons_of_mem x i)),
          ge,
          IsBound-cons _ x xs (le_trans le ge) b,
        )
  ]
    where
      Greatest : K × ℕ → Type 0
      Greatest z =
          Mem (max_from z xs) (best ∷ x ∷ xs)
          × (best.1 ≤ (max_from z xs).1)
          × IsBound (max_from z xs).1 (x ∷ xs)

      stepped :
          {c : Bool}
          → leb best.1 x.1 ≡ c
          → Greatest (if c then x else best)
          → Greatest (if leb best.1 x.1 then x else best)
      stepped p g = subst (λ c. Greatest (if c then x else best)) (sym p) g

  -- The greatest item is an item, and no count is above its own.
  pub max_by_count_lem :
      (xs : List (K × ℕ)) (best : K × ℕ)
      → max_by_count xs ≡ some best
      → Mem best xs × IsBound best.1 xs
  unfolding max_by_count
  max_by_count_lem [] best h = cc
  max_by_count_lem (x ∷ xs) best h =
      let (m, ge, b) = max_from_lem x xs in
      let found : max_from x xs ≡ best = cc in
      subst (λ y. Mem y (x ∷ xs) × IsBound y.1 (x ∷ xs)) found (m, IsBound-cons _ x xs ge b)

  -- Counts that do not ascend.
  abbrev pub IsDescending : List (K × ℕ) → Type 0
  IsDescending [] = Unit
  IsDescending (x ∷ xs) = IsBound x.1 xs × IsDescending xs

  insert_sorted-perm : (x : K × ℕ) (ys : List (K × ℕ)) → Perm (insert_sorted x ys) (x ∷ ys)
  unfolding insert_sorted
  insert_sorted-perm x [] = Perm.refl (x ∷ [])
  insert_sorted-perm x (y ∷ ys) = elim (Bool-cases (leb y.1 x.1)) [
    | inl here ↦ rw here (Perm.refl (x ∷ y ∷ ys))
    | inr on ↦ rw on (Perm.trans (Perm.cons y (insert_sorted-perm x ys)) (Perm.swap x y ys))
  ]

  pub sort_by_count-perm : (xs : List (K × ℕ)) → Perm (sort_by_count xs) xs
  unfolding sort_by_count
  sort_by_count-perm [] = Perm.refl []
  sort_by_count-perm (x ∷ xs) =
      Perm.trans (insert_sorted-perm x (sort_by_count xs)) (Perm.cons x (sort_by_count-perm xs))

  IsBound-perm : (n : ℕ) {xs ys : List (K × ℕ)} → Perm xs ys → IsBound n ys → IsBound n xs
  IsBound-perm n p b = record { at = λ x i. b.at x ((Perm.mem_iff p).0 i) }

  IsBound-mono : (m n : ℕ) (xs : List (K × ℕ)) → m ≤ n → IsBound m xs → IsBound n xs
  IsBound-mono m n xs h b = record { at = λ x i. le_trans (b.at x i) h }

  insert_sorted-IsDescending :
      (x : K × ℕ) (ys : List (K × ℕ)) → IsDescending ys → IsDescending (insert_sorted x ys)
  unfolding insert_sorted
  insert_sorted-IsDescending x [] d = (record { at = λ y i. absurd (not-mem-nil i) }, tt)
  insert_sorted-IsDescending x (y ∷ ys) d = elim (Bool-cases (leb y.1 x.1)) [
    | inl here ↦
        let le = leb→le y.1 x.1 here in
        rw here (IsBound-cons x.1 y ys le (IsBound-mono y.1 x.1 ys le d.0), d)
    | inr on ↦
        let le : x.1 ≤ y.1 = ground arith in
        rw on (
          IsBound-perm y.1 (insert_sorted-perm x ys) (IsBound-cons y.1 x ys le d.0),
          insert_sorted-IsDescending x ys d.1,
        )
  ]

  pub sort_by_count-IsDescending : (xs : List (K × ℕ)) → IsDescending (sort_by_count xs)
  unfolding sort_by_count
  sort_by_count-IsDescending [] = tt
  sort_by_count-IsDescending (x ∷ xs) =
      insert_sorted-IsDescending x (sort_by_count xs) (sort_by_count-IsDescending xs)

  pub mem_of_mem-take : (n : ℕ) (x : K × ℕ) (xs : List (K × ℕ)) → Mem x (take n xs) → Mem x xs
  mem_of_mem-take zero x xs i = absurd (not-mem-nil i)
  mem_of_mem-take (suc n) x [] i = absurd (not-mem-nil i)
  mem_of_mem-take (suc n) x (y ∷ ys) i =
      Or.elim Mem-prop (mem-cons.0 i) (λ p. rw p mem-cons_self)
        (λ j. mem-cons_of_mem y (mem_of_mem-take n x ys j))

  pub take-IsDescending : (n : ℕ) (xs : List (K × ℕ)) → IsDescending xs → IsDescending (take n xs)
  take-IsDescending zero xs d = tt
  take-IsDescending (suc n) [] d = tt
  take-IsDescending (suc n) (x ∷ xs) d =
      (record { at = λ y i. d.0.at y (mem_of_mem-take n y xs i) }, take-IsDescending n xs d.1)

  -- What a cut leaves out has no greater count than anything that it keeps.
  pub take-greatest :
      (n : ℕ) (xs : List (K × ℕ)) (x y : K × ℕ)
      → IsDescending xs
      → Mem x xs
      → ¬ Mem x (take n xs)
      → Mem y (take n xs)
      → x.1 ≤ y.1
  take-greatest zero xs x y d i out j = absurd (not-mem-nil j)
  take-greatest (suc n) [] x y d i out j = absurd (not-mem-nil j)
  take-greatest (suc n) (z ∷ zs) x y d i out j =
      Or.elim le_prop (mem-cons.0 i) (λ p. absurd (out (rw p mem-cons_self)))
        (λ i'.
          Or.elim le_prop (mem-cons.0 j) (λ p. rw p (d.0.at x i'))
            (λ j'. take-greatest n zs x y d.1 i' (λ k. out (mem-cons_of_mem z k)) j'))
