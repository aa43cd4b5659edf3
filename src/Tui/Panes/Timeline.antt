-- ===== src/Tui/Panes/Timeline.antt =====
-- `render_timeline` of src/tui.rs: a row for each entry that the list shows.
use tiny_binary_debugger.Base.{
  ℕ, Bool, true, false, not, Option, none, some, List, [], ◌∷◌, ◌++◌, length, is_empty, ltb, ◌==◌,
  if◌then◌else◌, Outcome, done, panicked, ◌>>=◌,
}
use tiny_binary_debugger.Storage.{TraceEntry}
use tiny_binary_debugger.Text.{Text, codes, byte_len, slice_to}
use tiny_binary_debugger.Text.Number.{decimal, hex_lower, pad_left}
use tiny_binary_debugger.Stats.{is_call_text, is_return_text}
use tiny_binary_debugger.TraceLoop.{marker}
use tiny_binary_debugger.Tui.{Host, App}
use tiny_binary_debugger.Tui.Screen.{
  white, gray, dark_gray, red, yellow, blue, Style, plain, colored, styled, Line, framed, Widget,
  list, index,
}

-- The style of a row; `current` says whether it is the row of the current entry.
unfoldable pub row_style : Bool → TraceEntry → Style
row_style current entry =
    if current
    then record plain { fg = some white; bg = some dark_gray }
    else if is_call_text entry
    then colored blue
    else if is_return_text entry
    then colored red
    else if not (is_empty entry.mem_changes)
    then colored yellow
    else colored gray

cut : Option Text → Outcome Text
cut none = panicked
cut (some t) = done (t ++ codes "..")

-- The instruction cut off at 20 bytes; a cut inside a character panics.
unfoldable pub insn_short : Text → Outcome Text
unfolding cut byte_len slice_to
insn_short text = if ltb 22 (byte_len text) then cut (slice_to text 20) else done text

unfoldable pub row_line : Bool → TraceEntry → Text → Line
unfolding row_style marker decimal hex_lower pad_left
row_line current entry insn =
    let style = row_style current entry in
    let dim : Style = record style { fg = some dark_gray } in
    styled (marker entry ++ codes " ") style
    ∷ styled (pad_left b' ' 6 (decimal entry.step) ++ codes " ") dim
    ∷ styled (pad_left b' ' 12 (hex_lower entry.pc) ++ codes " ") dim
    ∷ styled insn style
    ∷ []

module _ (host : Host) where
  unfoldable pub row : App host → ℕ → Outcome Line
  unfolding index insn_short row_line
  row app i = do
    entry ← index app.trace i
    insn ← insn_short entry.insn_text
    done (row_line (i == app.current) entry insn)

  unfoldable pub rows : App host → List ℕ → Outcome (List Line)
  unfolding row
  rows app [] = done []
  rows app (i ∷ is) = do line ← row app i; lines ← rows app is; done (line ∷ lines)

  -- The number of rows, and that of all entries if it is another.
  unfoldable pub timeline_title : App host → Text
  unfolding decimal
  timeline_title app =
      let shown = length app.filtered_indices in
      codes " Timeline ("
      ++ decimal shown
      ++ (if shown == length app.trace then [] else codes "/" ++ decimal (length app.trace))
      ++ codes ") "

  unfoldable pub render_timeline : App host → Outcome Widget
  unfolding rows timeline_title
  render_timeline app = do
    items ← rows app app.filtered_indices
    done (
        list items (framed (timeline_title app))
          (record { fg = some white; bg = some dark_gray; bold = true; slow_blink = false })
          (codes "> ") app.selected)
