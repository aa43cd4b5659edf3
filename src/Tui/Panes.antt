-- ===== src/Tui/Panes.antt =====
-- The panes of src/tui.rs that are the same for every state of the program they show: header,
-- memory, footer and help; each is the lines that it shows.
pub mod Timeline
pub mod Detail
pub mod Registers
pub mod Order
pub mod Shown
pub mod Labels
pub mod Delta
pub mod Changes
pub mod Rows
use tiny_binary_debugger.Base.{
  suc, ℕ, ◌+◌, ◌*◌, ◌/◌, ◌%◌, ◌^◌, Bool, true, false, ◌&&◌, Option, none, some, List, [], ◌∷◌, ◌++◌,
  map, length, is_empty, leb, if◌then◌else◌,
}
use tiny_binary_debugger.Storage.{MemChange, TraceEntry}
use tiny_binary_debugger.Text.{Text, codes}
use tiny_binary_debugger.Text.Number.{decimal, hex_upper, pad_left}
use tiny_binary_debugger.Tui.{Host, App, Mode, normal, search, help, current_entry}
use tiny_binary_debugger.Tui.Screen.{
  Color, black, white, gray, dark_gray, red, green, yellow, blue, cyan, Style, plain, colored, Span,
  styled, raw, Line, Block, framed, Widget, paragraph,
}

-- The share of the trace that lies before the current entry, in percent.
unfoldable pub percent : ℕ → ℕ → ℕ
percent current ℕ.zero = 0
percent current (ℕ.suc n) = (current * 100) % 2 ^ 64 / ℕ.suc n

unfoldable pub render_header : (host : Host) → App host → Widget
unfolding percent decimal
render_header host app =
    paragraph
      ((styled (codes " TDB ") (record plain { fg = some black; bg = some white; bold = true })
          ∷ raw (codes "  ")
          ∷ styled app.trace_file (colored dark_gray)
          ∷ raw (codes "  ")
          ∷ styled (decimal (length app.trace) ++ codes " steps") (colored white)
          ∷ styled (codes "  |  ") (colored dark_gray)
          ∷ styled (host.to_uppercase app.arch) (colored cyan)
          ∷ styled (codes "  |  ") (colored dark_gray)
          ∷ styled (codes "Step " ++ decimal app.current ++ codes "/" ++ decimal (length app.trace))
              (colored white)
          ∷ styled (codes "  (" ++ decimal (percent app.current (length app.trace)) ++ codes "%)")
              (colored dark_gray)
          ∷ styled (codes "  |  ") (colored dark_gray)
          ∷ styled (decimal app.stats.call_count ++ codes " calls") (colored blue)
          ∷ raw (codes "  ")
          ∷ styled (decimal app.stats.mem_change_count ++ codes " mem") (colored yellow)
          ∷ [])
        ∷ [])
      plain (framed [])

-- The character of a byte, a dot for one that ASCII does not print.
unfoldable pub shown_char : ℕ → ℕ
shown_char v = if leb 0x20 v && leb v 0x7e then v else b'.'

unfoldable pub change_line : MemChange → Line
unfolding shown_char hex_upper pad_left
change_line c =
    styled (codes " 0x" ++ pad_left b'0' 12 (hex_upper c.addr) ++ codes " ") (colored dark_gray)
    ∷ styled (pad_left b'0' 2 (hex_upper c.old_val)) (colored red)
    ∷ styled (codes " -> ") (colored dark_gray)
    ∷ styled (pad_left b'0' 2 (hex_upper c.new_val)) (colored green)
    ∷ styled (codes " '" ++ shown_char c.new_val ∷ codes "'") (colored dark_gray)
    ∷ []

changes_of : Option TraceEntry → List MemChange
changes_of none = []
changes_of (some e) = e.mem_changes

unfoldable pub memory_lines : Option TraceEntry → List Line
unfolding change_line
memory_lines none = (styled (codes "  no data") (colored dark_gray) ∷ []) ∷ []
memory_lines (some e) =
    if is_empty e.mem_changes
    then (styled (codes "  no changes") (colored dark_gray) ∷ []) ∷ []
    else map change_line e.mem_changes

unfoldable pub render_memory : (host : Host) → App host → Widget
unfolding memory_lines changes_of current_entry decimal
render_memory host app =
    let entry = current_entry host app in
    paragraph (memory_lines entry) plain
      (framed (codes " Memory (" ++ decimal (length (changes_of entry)) ++ codes ") "))

-- Keys in cyan, the words between them in dark gray.
key : Text → Span
key text = styled text (colored cyan)

word : Text → Span
word text = styled text (colored dark_gray)

unfoldable pub footer_line : Mode → Line
unfolding key word
footer_line normal =
    key (codes " h")
    ∷ word (codes "/")
    ∷ key (codes "l")
    ∷ word (codes " step  ")
    ∷ key (codes "g")
    ∷ word (codes "/")
    ∷ key (codes "G")
    ∷ word (codes " first/last  ")
    ∷ key (codes "c")
    ∷ word (codes "/")
    ∷ key (codes "C")
    ∷ word (codes " call  ")
    ∷ key (codes "r")
    ∷ word (codes "/")
    ∷ key (codes "R")
    ∷ word (codes " ret  ")
    ∷ key (codes "m")
    ∷ word (codes "/")
    ∷ key (codes "M")
    ∷ word (codes " mem  ")
    ∷ key (codes "/")
    ∷ word (codes " search  ")
    ∷ key (codes "?")
    ∷ word (codes " help  ")
    ∷ key (codes "q")
    ∷ word (codes " quit")
    ∷ []
footer_line (search query) =
    styled (codes " Search: ") (colored yellow)
    ∷ styled query (colored white)
    ∷ styled (codes "_") (record plain { fg = some white; slow_blink = true })
    ∷ word (codes "  [Enter] confirm  [Esc] cancel")
    ∷ []
footer_line help = word (codes " Press any key to close") ∷ []

unfoldable pub render_footer : (host : Host) → App host → Widget
unfolding footer_line
render_footer host app = paragraph (footer_line app.mode ∷ []) plain (framed [])

help_row : Color → Text → Text → Line
help_row color keys what = styled keys (colored color) ∷ raw what ∷ []

unfoldable pub help_lines : List Line
unfolding help_row
help_lines =
    (styled (codes " TDB Keyboard Shortcuts") (record plain { fg = some white; bold = true }) ∷ [])
    ∷ []
    ∷ help_row cyan (codes "  h / Left       ") (codes "Previous step")
    ∷ help_row cyan (codes "  l / Right      ") (codes "Next step")
    ∷ help_row cyan (codes "  j / Down       ") (codes "Next step")
    ∷ help_row cyan (codes "  k / Up         ") (codes "Previous step")
    ∷ help_row cyan (codes "  g / Home       ") (codes "First step")
    ∷ help_row cyan (codes "  G / End        ") (codes "Last step")
    ∷ help_row cyan (codes "  PgUp / PgDn    ") (codes "Jump 50 steps")
    ∷ []
    ∷ help_row blue (codes "  c / C          ") (codes "Next / prev function call")
    ∷ help_row red (codes "  r / R          ") (codes "Next / prev return")
    ∷ help_row yellow (codes "  m / M          ") (codes "Next / prev memory change")
    ∷ []
    ∷ help_row cyan (codes "  /              ") (codes "Search / filter instructions")
    ∷ help_row cyan (codes "  ?              ") (codes "Show this help")
    ∷ help_row cyan (codes "  q / Esc        ") (codes "Quit")
    ∷ []

unfoldable pub help_widget : Widget
unfolding help_lines
help_widget = paragraph help_lines plain (record {
  title = codes " Help ";
  border_style = colored cyan;
  style = record plain { bg = some black };
})
