-- ===== src/Tui/Sync.antt =====
-- The list and the selected entry.
use tiny_binary_debugger.Base.{
  none, Option, ℕ, zero, suc, ◌+◌, ◌-◌, ◌≤◌, ◌<◌, ◌≡◌, ◌≢◌, refl, ap, sym, ◌∙◌, some, length, leb,
  ◌==◌, arith, Bool-cases, inl, inr, ◌⊎◌,
}
use tiny_binary_debugger.Tui.{sync, Host, App, indices, position, select}
use tiny_binary_debugger.Tui.Keys.{cancel_search}

position-indices :
    (idx p i n : ℕ) → i ≤ idx → idx < i + n → position idx p (indices i n) ≡ some (p + (idx - i))
unfolding position indices
position-indices idx p i zero le lt = absurd (omega arith)
position-indices idx p i (suc n) le lt = elim (Bool-cases (i == idx)) [
  | inl e ↦ rw e (ap some (ground arith))
  | inr e ↦ rw e (
      position-indices idx (p + 1) (i + 1) n (ground arith) (ground arith) ∙ ap some (ground arith))
]

sync-sync : (old new : Option ℕ) → sync old new ≡ sync (sync old new) new
unfolding sync
sync-sync old none = refl
sync-sync old (some p) = refl

module _ (host : Host) where
  -- The highlighted row is the row of the current entry, if that entry has a row.
  pub record InSync (app : App host) : Type 0 where
    pub row : app.selected ≡ sync app.selected (position app.current 0 app.filtered_indices)

  -- A selected entry that is in the trace becomes the current one, and its row, if it has one, the
  -- highlighted row; an index beyond the trace changes nothing.
  pub select_lem :
      (app : App host) (idx : ℕ)
      → ((length app.trace ≤ idx) × (select host app idx ≡ app))
        ⊎ ((idx < length app.trace)
            × ((select host app idx).current ≡ idx)
            × InSync (select host app idx))
  unfolding select
  select_lem app idx = elim (Bool-cases (leb (length app.trace) idx)) [
    | inl out ↦ inl (ground arith, rw out refl)
    | inr within ↦ inr (
      ground arith,
      rw within refl,
      rw within (record { row = sync-sync app.selected (position idx 0 app.filtered_indices) }),
    )
  ]

  -- Leaving a search with Esc shows the whole list again but keeps the row that was highlighted: if
  -- that was not the row that the current entry has in the whole list, the highlighted row is now
  -- another entry's.
  pub cancel_search-out_of_sync :
      (app : App host) (row : ℕ)
      → app.current < length app.trace
      → app.selected ≡ some row
      → row ≢ app.current
      → ¬ InSync (cancel_search host app)
  unfolding cancel_search sync
  cancel_search-out_of_sync app row lt h ne in_sync =
      let at = position-indices app.current 0 0 (length app.trace) (omega arith) (omega arith) in
      let p = sym h ∙ in_sync.row ∙ ap (λ o. sync app.selected o) at in absurd (ne (ground arith))

  -- Selecting an entry leaves the rows as they are.
  pub select_rows :
      (app : App host) (idx : ℕ) → (select host app idx).filtered_indices ≡ app.filtered_indices
  unfolding select
  select_rows app idx = ground arith
