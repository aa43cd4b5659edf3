-- ===== src/Tui/Panes/Rows.antt =====
-- Which rows of the timeline are highlighted.
use tiny_binary_debugger.Base.{
  Yields->>=, Yields-after, Yields-done, Yields, ℕ, ◌≡◌, refl, ap₂, Bool, true, false, Option, none,
  some, List, [], ◌∷◌, map, ◌==◌, done, arith,
}
use tiny_binary_debugger.Storage.{TraceEntry}
use tiny_binary_debugger.Text.{Text}
use tiny_binary_debugger.Tui.{Host, App}
use tiny_binary_debugger.Tui.Panes.Timeline.{row_style, row_line, insn_short, row, rows}
use tiny_binary_debugger.Tui.Screen.{Line, index}

is_set {ℓ} : {A : Type ℓ} → Option A → Bool
is_set none = false
is_set (some a) = true

-- The line begins on a background of its own.
unfoldable pub on_background : Line → Bool
unfolding is_set
on_background [] = false
on_background (s ∷ spans) = is_set s.style.bg

row_line-highlight :
    (current : Bool) (e : TraceEntry) (t : Text) → on_background (row_line current e t) ≡ current
unfolding on_background row_line row_style
row_line-highlight true e t = refl
row_line-highlight false e t = ground arith

module _ (host : Host) (app : App host) where
  row-highlight :
      (i : ℕ) → Yields (λ line. on_background line ≡ (i == app.current)) (row host app i)
  unfolding row
  row-highlight i = Yields-after (index app.trace i) (λ e.
      Yields-after (insn_short e.insn_text)
        (λ t. Yields-done _ _ (row_line-highlight (i == app.current) e t)))

  rows-highlight :
      (is : List ℕ)
      → Yields
          (λ lines. map on_background lines ≡ map (λ i. i == app.current) is)
          (rows host app is)
  unfolding rows
  rows-highlight [] = Yields-done _ _ refl
  rows-highlight (i ∷ is) = Yields->>= _ (row host app i) _ (row-highlight i) (λ line p.
      Yields->>= _ (rows host app is) _ (rows-highlight is)
        (λ lines q. Yields-done _ _ (ap₂ ◌∷◌ p q)))

  -- The timeline has a row for every entry that the list shows, in the order of the list, and
  -- exactly the rows of the current entry stand on a background.
  pub rows-highlighted :
      (lines : List Line)
      → rows host app app.filtered_indices ≡ done lines
      → map on_background lines ≡ map (λ i. i == app.current) app.filtered_indices
  rows-highlighted lines h = (rows-highlight app.filtered_indices).at lines h
