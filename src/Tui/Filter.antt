-- ===== src/Tui/Filter.antt =====
-- The list that a search shows.
use tiny_binary_debugger.Base.{
  ℕ, zero, suc, ◌+◌, ◌≤◌, ◌<◌, ◌≡◌, refl, ap, sym, ◌∙◌, Bool, true, false, ◌||◌, Option, none, some,
  List, [], ◌∷◌, length, is_empty, ◌==◌, arith, Bool-cases, inl, inr, get_elem?,
}
use tiny_binary_debugger.Storage.{TraceEntry}
use tiny_binary_debugger.Text.{Text, contains, starts_with}
use tiny_binary_debugger.Tui.{
  Host, App, indices, matching, filter_by, first_of, select_found, apply_search,
}
use tiny_binary_debugger.Tui.Sync.{select_rows, select_lem}
use tiny_binary_debugger.Tui.Valid.{Below, filter_by-Below}

-- The list has a row for the index.
unfoldable pub has_row : ℕ → List ℕ → Bool
has_row i [] = false
has_row i (j ∷ js) = i == j || has_row i js

-- The indices ascend strictly, the first being `i` at least.
abbrev pub Ascends : ℕ → List ℕ → Type 0
Ascends i [] = Unit
Ascends i (j ∷ js) = (i ≤ j) × Ascends (j + 1) js

-- The first row, or `old` if there is none.
abbrev pub first_or : ℕ → List ℕ → ℕ
first_or old [] = old
first_or old (i ∷ rows) = i

abbrev pub passing : (TraceEntry → Bool) → Option TraceEntry → Bool
passing p none = false
passing p (some e) = p e

Ascends-le : (i j : ℕ) (js : List ℕ) → i ≤ j → Ascends j js → Ascends i js
Ascends-le i j [] le a = tt
Ascends-le i j (k ∷ js) le a = (omega arith, a.1)

no_row_below : (k i : ℕ) (js : List ℕ) → k < i → Ascends i js → has_row k js ≡ false
unfolding has_row
no_row_below k i [] lt a = refl
no_row_below k i (j ∷ js) lt a = ground (arith, no_row_below k (j + 1) js (omega arith) a.1, a.0)

matching-Ascends :
    (p : TraceEntry → Bool) (i : ℕ) (es : List TraceEntry) → Ascends i (matching p i es)
unfolding matching
matching-Ascends p i [] = tt
matching-Ascends p i (e ∷ es) = elim (Bool-cases (p e)) [
  | inl hit ↦ rw hit (omega arith, matching-Ascends p (i + 1) es)
  | inr miss ↦ rw miss (Ascends-le i (i + 1) _ (omega arith) (matching-Ascends p (i + 1) es))
]

has_row-matching :
    (p : TraceEntry → Bool) (i k : ℕ) (es : List TraceEntry)
    → has_row (i + k) (matching p i es) ≡ passing p (get_elem? es k)
unfolding has_row matching
has_row-matching p i k [] = refl
has_row-matching p i zero (e ∷ es) =
    let none_later =
      no_row_below (i + 0) (i + 1) (matching p (i + 1) es) (omega arith)
        (matching-Ascends p (i + 1) es) in
    elim (Bool-cases (p e)) [ inl hit ↦ rw hit (ground arith) | inr miss ↦ rw miss none_later ]
has_row-matching p i (suc k) (e ∷ es) =
    let shift : i + 1 + k ≡ i + suc k = omega arith in
    let later =
      ap (λ j. has_row j (matching p (i + 1) es)) (sym shift) ∙ has_row-matching p (i + 1) k es in
    elim (Bool-cases (p e)) [ inl hit ↦ rw hit (ground arith) | inr miss ↦ rw miss later ]

matching-all :
    (p : TraceEntry → Bool) (i : ℕ) (es : List TraceEntry)
    → ((e : TraceEntry) → p e ≡ true)
    → indices i (length es) ≡ matching p i es
unfolding indices matching
matching-all p i [] h = refl
matching-all p i (e ∷ es) h = rw (h e) (ap (λ js. i ∷ js) (matching-all p (i + 1) es h))

starts_with-empty : (s : Text) → starts_with s [] ≡ true
unfolding starts_with
starts_with-empty [] = refl
starts_with-empty (c ∷ s) = refl

contains-empty : (s q : Text) → is_empty q ≡ true → contains s q ≡ true
unfolding contains starts_with
contains-empty [] [] h = refl
contains-empty (c ∷ s) [] h = refl
contains-empty s (d ∷ q) h = absurd (cc)

module _ (host : Host) where
  open host use {to_lowercase}

  -- The search is for the query in the text of the instruction, in lower case both.
  abbrev pub is_hit : Text → TraceEntry → Bool
  is_hit query e = contains (to_lowercase e.insn_text) (to_lowercase query)

  filter_by-matching :
      (query : Text) (es : List TraceEntry) → filter_by host query es ≡ matching (is_hit query) 0 es
  unfolding filter_by
  filter_by-matching query es = elim (Bool-cases (is_empty (to_lowercase query))) [
    | inl e ↦ rw e (
        matching-all (is_hit query) 0 es
          (λ x. contains-empty (to_lowercase x.insn_text) (to_lowercase query) e))
    | inr e ↦ rw e refl
  ]

  found_rows :
      (app : App host) (o : Option ℕ)
      → (select_found host app o).filtered_indices ≡ app.filtered_indices
  unfolding select_found
  found_rows app none = refl
  found_rows app (some i) = select_rows host app i

  first_row :
      (app : App host) (rows : List ℕ)
      → Below (length app.trace) rows
      → (select_found host app (first_of rows)).current ≡ first_or app.current rows
  unfolding select_found first_of
  first_row app [] below = refl
  first_row app (i ∷ rows) below = elim (select_lem host app i) [
    | inl (out, same) ↦ absurd (omega (arith, below.0))
    | inr (lt, here, sync) ↦ here
  ]

  -- After a search the list has its rows in the order of the trace, one for every entry whose text
  -- contains the query, both in lower case, and for no other; the current entry is that of the first
  -- row, or the same as before if there is no row.
  pub apply_search_lem :
      (app : App host) (query : Text)
      → Ascends 0 (apply_search host app query).filtered_indices
        × ((k : ℕ)
            → has_row k (apply_search host app query).filtered_indices
              ≡ passing (is_hit query) (get_elem? app.trace k))
        × ((apply_search host app query).current
            ≡ first_or app.current (apply_search host app query).filtered_indices)
  unfolding apply_search
  apply_search_lem app query =
      let rows = filter_by host query app.trace in
      let searched : App host = record app { filtered_indices = rows } in
      let kept = found_rows searched (first_of rows) in
      let hits = filter_by-matching query app.trace in
      (
        rw (kept, hits) (matching-Ascends (is_hit query) 0 app.trace),
        λ k. rw (kept, hits) (row_at k),
        rw kept (first_row searched rows (filter_by-Below host app.trace query)),
      )
    where
      row_at :
          (k : ℕ)
          → has_row k (matching (is_hit query) 0 app.trace)
            ≡ passing (is_hit query) (get_elem? app.trace k)
      row_at k =
          let z : k ≡ 0 + k = omega arith in
          ap (λ j. has_row j (matching (is_hit query) 0 app.trace)) z
          ∙ has_row-matching (is_hit query) 0 k app.trace
