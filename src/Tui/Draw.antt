-- ===== src/Tui/Draw.antt =====
-- `ui` of src/tui.rs: a frame, from the layout and the panes. Drawing the list sets the selected row.
use tiny_binary_debugger.Base.{ℕ, ◌-◌, ◌/◌, List, [], ◌∷◌, ◌++◌, length, Outcome, done, ◌>>=◌}
use tiny_binary_debugger.Tui.{Host, App, Mode, normal, search, help}
use tiny_binary_debugger.Tui.Panes.{render_header, render_memory, render_footer, help_widget}
use tiny_binary_debugger.Tui.Panes.Detail.{render_detail}
use tiny_binary_debugger.Tui.Panes.Registers.{render_registers}
use tiny_binary_debugger.Tui.Panes.Timeline.{render_timeline}
use tiny_binary_debugger.Tui.Screen
use tiny_binary_debugger.Tui.Screen.{
  vertical, horizontal, at_least, percentage, Constraint, Rect, Widget, clear, Drawn, Ratatui,
  index,
}

module _ (r : Ratatui) where
  open r use {split, list_selected}

  -- The three shares of a centred strip.
  unfoldable pub centered : ℕ → List Constraint
  centered pct = percentage ((100 - pct) / 2) ∷ percentage pct ∷ percentage ((100 - pct) / 2) ∷ []

  unfoldable pub centered_rect : ℕ → ℕ → Rect → Outcome Rect
  unfolding centered index
  centered_rect pct_x pct_y area = do
    strip ← index (split vertical (centered pct_y) area) 1
    index (split horizontal (centered pct_x) strip) 1

  module _ (host : Host) where
    unfoldable pub render_right : App host → Rect → Outcome (List Drawn)
    unfolding index render_registers render_memory
    render_right app area = do
      let chunks = split vertical (percentage 65 ∷ percentage 35 ∷ []) area
      upper ← index chunks 0
      lower ← index chunks 1
      done ((render_registers host app, upper) ∷ (render_memory host app, lower) ∷ [])

    unfoldable pub render_main : App host → Rect → Outcome (List Drawn)
    unfolding index render_timeline render_detail render_right
    render_main app area = do
      let cols = split horizontal (percentage 30 ∷ percentage 35 ∷ percentage 35 ∷ []) area
      left ← index cols 0
      timeline ← render_timeline host app
      middle ← index cols 1
      right ← index cols 2
      panes ← render_right app right
      done ((timeline, left) ∷ (render_detail host app, middle) ∷ panes)

    unfoldable pub render_help : Rect → Outcome (List Drawn)
    unfolding centered_rect help_widget
    render_help area = do
      popup ← centered_rect 55 75 area
      done ((clear, popup) ∷ (help_widget, popup) ∷ [])

    unfoldable pub popup_of : Mode → Rect → Outcome (List Drawn)
    unfolding render_help
    popup_of normal area = done []
    popup_of (search q) area = done []
    popup_of help area = render_help area

    unfoldable pub ui : App host → Rect → Outcome (App host × List Drawn)
    unfolding index render_header render_main render_footer popup_of
    ui app area = do
      let outer = split vertical (Screen.length 3 ∷ at_least 10 ∷ Screen.length 3 ∷ []) area
      top ← index outer 0
      middle ← index outer 1
      main ← render_main app middle
      bottom ← index outer 2
      popup ← popup_of app.mode area
      done (
        record app { selected = list_selected (length app.filtered_indices) app.selected },
        (render_header host app, top) ∷ main ++ (render_footer host app, bottom) ∷ popup,
      )
