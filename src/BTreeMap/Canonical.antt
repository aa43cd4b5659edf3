-- ===== src/BTreeMap/Canonical.antt =====
-- An ordered map is determined by its lookups.
use mathlib.Core.Path.{sym, subst}
use native.Mathlib.Decide.{ℕ_discrete}
use tiny_binary_debugger.Base.{
  refl, inr, inl, ◌∙◌, ◌≢◌, ◌⊎◌, [], ℕ, ◌<◌, ◌≡◌, none, some, ◌∷◌, arith,
}
use tiny_binary_debugger.BTreeMap.{IsOrdered, BTreeMap, get, IsAbove}
use tiny_binary_debugger.BTreeMap.Laws.{get_of_above}

lt_cases : (k j : ℕ) → (k < j) ⊎ ((j < k) ⊎ (k ≡ j))
lt_cases k j = omega arith

module _ {ℓ} {V : Type ℓ} where
  get_nil : (k : ℕ) → get {V = V} [] k ≡ none
  unfolding get
  get_nil k = refl

  above-IsOrdered : (k : ℕ) (m : BTreeMap V) → IsAbove k m → IsOrdered m
  above-IsOrdered k [] o = tt
  above-IsOrdered k (e ∷ m) o = o.1

  get_head : (k : ℕ) (v : V) (m : BTreeMap V) → get ((k, v) ∷ m) k ≡ some v
  unfolding get
  get_head k v m = ground arith

  get_tail : (k j : ℕ) (v : V) (m : BTreeMap V) → j ≢ k → get ((k, v) ∷ m) j ≡ get m j
  unfolding get
  get_tail k j v m h = ground arith

  -- A map whose keys all come after `k` has nothing at `k`.
  get_before : (k j : ℕ) (w : V) (m : BTreeMap V) → IsAbove j m → k < j → get ((j, w) ∷ m) k ≡ none
  unfolding get
  get_before k j w m o h = get_of_above k k ((j, w) ∷ m) (h, o) (omega arith)

  tails_agree :
      (k : ℕ) (v w : V) (m n : BTreeMap V)
      → IsAbove k m
      → IsAbove k n
      → ((i : ℕ) → get ((k, v) ∷ m) i ≡ get ((k, w) ∷ n) i)
      → (i : ℕ) → get m i ≡ get n i
  tails_agree k v w m n o p h i = elim (ℕ_discrete i k) [
    | yes e ↦ get_of_above k i m o (omega arith) ∙ sym (get_of_above k i n p (omega arith))
    | no e ↦ sym (get_tail k i v m e) ∙ h i ∙ get_tail k i w n e
  ]

  -- Two ordered maps with the same lookups are the same map.
  pub eq_of_get :
      (m n : BTreeMap V) → IsOrdered m → IsOrdered n → ((i : ℕ) → get m i ≡ get n i) → m ≡ n
  eq_of_get [] [] o p h = refl
  eq_of_get [] ((j, w) ∷ n) o p h = cc (h j, get_head j w n, get_nil j)
  eq_of_get ((k, v) ∷ m) [] o p h = cc (h k, get_head k v m, get_nil k)
  eq_of_get ((k, v) ∷ m) ((j, w) ∷ n) o p h = elim (lt_cases k j) [
    | inl b ↦ cc (h k, get_head k v m, get_before k j w n p b)
    | inr (inl b) ↦ cc (h j, get_head j w n, get_before j k v m o b)
    | inr (inr e) ↦
        let p' = subst (λ t. IsAbove t n) (sym e) p in
        let h' = subst (λ t. (i : ℕ) → get ((k, v) ∷ m) i ≡ get ((t, w) ∷ n) i) (sym e) h in
        let tails =
          eq_of_get m n (above-IsOrdered k m o) (above-IsOrdered k n p')
            (tails_agree k v w m n o p' h') in
        let heads : v ≡ w = cc (h' k, get_head k v m, get_head k w n) in cc
  ]
