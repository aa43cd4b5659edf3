-- ===== src/Tui/Find.antt =====
-- The jumps to the next and to the last call, return or memory change.
use tiny_binary_debugger.Base.{
  ℕ, zero, suc, ◌+◌, ◌<◌, ◌≡◌, refl, ap, sym, ◌∙◌, Bool, true, false, Option, none, some, List, [],
  ◌∷◌, length, arith, Bool-cases, inl, inr, ◌⊎◌, drop, take, All, get_elem?,
}
use tiny_binary_debugger.Storage.{TraceEntry}
use tiny_binary_debugger.Text.{Text}
use tiny_binary_debugger.Tui.{
  Host, App, select_found, find_next, find_prev, first_match, last_match, matches_filter,
}
use tiny_binary_debugger.Tui.Sync.{select_lem}

get_elem?-length {ℓ} :
    {A : Type ℓ} (xs : List A) (i : ℕ) {a : A} → get_elem? xs i ≡ some a → i < length xs
get_elem?-length [] i h = cc
get_elem?-length (x ∷ xs) zero h = omega arith
get_elem?-length (x ∷ xs) (suc i) h = omega (arith, get_elem?-length xs i h)

get_elem?-drop {ℓ} :
    {A : Type ℓ} (n i : ℕ) (xs : List A) → get_elem? (drop n xs) i ≡ get_elem? xs (n + i)
get_elem?-drop zero i xs = let e : i ≡ 0 + i = omega arith in ap (get_elem? xs) e
get_elem?-drop (suc n) i [] = refl
get_elem?-drop (suc n) i (x ∷ xs) =
    let e : suc (n + i) ≡ suc n + i = omega arith in
    get_elem?-drop n i xs ∙ ap (get_elem? (x ∷ xs)) e

get_elem?-take {ℓ} :
    {A : Type ℓ} (n i : ℕ) (xs : List A) {a : A}
    → get_elem? (take n xs) i ≡ some a
    → (get_elem? xs i ≡ some a) × (i < n)
get_elem?-take zero i xs h = absurd (cc)
get_elem?-take (suc n) i [] h = absurd (cc)
get_elem?-take (suc n) zero (x ∷ xs) h = (h, omega arith)
get_elem?-take (suc n) (suc i) (x ∷ xs) h =
    let (e, lt) = get_elem?-take n i xs h in (e, omega arith)

-- The entries that a test passes over.
abbrev pub AllFail : (TraceEntry → Bool) → List TraceEntry → Type 0
AllFail p = All (λ e. p e ≡ false)

-- The entry at an index passes the test.
abbrev pub PassesAt : (TraceEntry → Bool) → List TraceEntry → ℕ → Type 0
PassesAt p es i = (e : TraceEntry) × (get_elem? es i ≡ some e) × (p e ≡ true)

module _ (p : TraceEntry → Bool) where
  first_match_lem :
      (i : ℕ) (es : List TraceEntry)
      → ((first_match p i es ≡ none) × AllFail p es)
        ⊎ ((j : ℕ) × (first_match p i es ≡ some (i + j)) × PassesAt p es j × AllFail p (take j es))
  unfolding first_match
  first_match_lem i [] = inl (refl, tt)
  first_match_lem i (e ∷ es) = elim (Bool-cases (p e)) [
    | inl hit ↦ inr (0, rw hit (ap some (omega arith)), (e, refl, hit), tt)
    | inr miss ↦ elim (first_match_lem (i + 1) es) [
      | inl (q, fail) ↦ inl (rw miss q, (miss, fail))
      | inr (j, q, at, fail) ↦ inr (suc j, rw miss (q ∙ ap some (omega arith)), at, (miss, fail))
    ]
  ]

  last_match_lem :
      (i : ℕ) (es : List TraceEntry)
      → ((last_match p i es ≡ none) × AllFail p es)
        ⊎ ((j : ℕ) × (last_match p i es ≡ some (i + j))
            × PassesAt p es j
            × AllFail p (drop (suc j) es))
  unfolding last_match
  last_match_lem i [] = inl (refl, tt)
  last_match_lem i (e ∷ es) = elim (last_match_lem (i + 1) es) [
    | inr (j, q, at, fail) ↦ inr (suc j, rw q (ap some (omega arith)), at, fail)
    | inl (q, fail) ↦ elim (Bool-cases (p e)) [
      | inl hit ↦ inr (0, rw (q, hit) (ap some (omega arith)), (e, refl, hit), fail)
      | inr miss ↦ inl (rw (q, miss) refl, (miss, fail))
    ]
  ]

module _ (host : Host) (app : App host) (what : Text) where
  found :
      (i : ℕ) (o : Option ℕ)
      → o ≡ some i
      → i < length app.trace
      → (select_found host app o).current ≡ i
  unfolding select_found
  found i none e lt = absurd (cc)
  found i (some j) e lt =
      let same : j ≡ i = cc in
      elim (select_lem host app j) [
        | inl (out, _) ↦ absurd (omega arith)
        | inr (_, here, _) ↦ here ∙ same
      ]

  not_found : (o : Option ℕ) → o ≡ none → select_found host app o ≡ app
  unfolding select_found
  not_found none e = refl
  not_found (some j) e = absurd (cc)

  -- The jump forward leads to the nearest entry after the current one that passes the filter, and
  -- changes nothing if there is none.
  abbrev pub FindsNext : Type 0
  FindsNext =
      ((find_next host app what ≡ app)
        × AllFail (λ e. matches_filter e what) (drop (app.current + 1) app.trace))
      ⊎ ((j : ℕ) × ((find_next host app what).current ≡ app.current + 1 + j)
          × PassesAt (λ e. matches_filter e what) app.trace (app.current + 1 + j)
          × AllFail (λ e. matches_filter e what) (take j (drop (app.current + 1) app.trace)))

  -- The same of the jump back and the entries before the current one.
  abbrev pub FindsPrev : Type 0
  FindsPrev =
      ((find_prev host app what ≡ app)
        × AllFail (λ e. matches_filter e what) (take app.current app.trace))
      ⊎ ((j : ℕ) × ((find_prev host app what).current ≡ j)
          × (j < app.current)
          × PassesAt (λ e. matches_filter e what) app.trace j
          × AllFail (λ e. matches_filter e what) (drop (suc j) (take app.current app.trace)))

  find_next_lem : FindsNext
  unfolding find_next
  find_next_lem =
      elim (first_match_lem (λ e. matches_filter e what) (app.current + 1)
        (drop (app.current + 1) app.trace)) [
          | inl (q, fail) ↦ inl (not_found _ q, fail)
          | inr (j, q, (e, at, hit), fail) ↦
              let at' = sym (get_elem?-drop (app.current + 1) j app.trace) ∙ at in
              inr (j, found _ _ q (get_elem?-length app.trace _ at'), (e, at', hit), fail)
        ]

  find_prev_lem : FindsPrev
  unfolding find_prev
  find_prev_lem =
      elim (last_match_lem (λ e. matches_filter e what) 0 (take app.current app.trace)) [
        | inl (q, fail) ↦ inl (not_found _ q, fail)
        | inr (j, q, (e, at, hit), fail) ↦
            let z : 0 + j ≡ j = omega arith in
            let (at', lt) = get_elem?-take app.current j app.trace at in
            inr (
              j,
              found j _ (q ∙ ap some z) (get_elem?-length app.trace _ at'),
              lt,
              (e, at', hit),
              fail,
            )
      ]

  -- The jumps forward and back lead to the nearest entry after the current one, and before it, that
  -- passes the filter, and change nothing if there is none.
  pub find_lem : FindsNext × FindsPrev
  find_lem = (find_next_lem, find_prev_lem)
