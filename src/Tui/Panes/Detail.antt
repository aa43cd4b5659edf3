-- ===== src/Tui/Panes/Detail.antt =====
-- `render_detail` of src/tui.rs: the current instruction.
use tiny_binary_debugger.Base.{
  ℕ, ◌+◌, ◌-◌, ◌%◌, ◌^◌, true, ◌||◌, Option, none, some, List, [], ◌∷◌, ◌++◌, map, length, ltb,
  if◌then◌else◌,
}
use tiny_binary_debugger.Base.Int.{ℤ, pos, negsuc}
use tiny_binary_debugger.Os.{display_i32}
use tiny_binary_debugger.Stats.{is_call_text, is_return_text, mnemonic_of}
use tiny_binary_debugger.Storage.{TraceEntry}
use tiny_binary_debugger.Text.{join_blank, Text, codes, contains, starts_with, text_eq}
use tiny_binary_debugger.Text.Number.{decimal, hex_upper, pad_left}
use tiny_binary_debugger.Tui.{Host, App, value_of, recorded_sp, current_entry}
use tiny_binary_debugger.Tui.Screen.{
  Color, white, gray, dark_gray, red, green, yellow, blue, magenta, cyan, plain, colored, styled,
  Line, framed, Widget, paragraph,
}

-- The kind of an instruction by its mnemonic.
unfoldable pub mnemonic_type : Text → Text × Color
unfolding starts_with contains text_eq
mnemonic_type m =
    if starts_with m (codes "b") || starts_with m (codes "j")
    then (codes "BRANCH", magenta)
    else if contains m (codes "str") || contains m (codes "st") || text_eq m (codes "push")
    then (codes "STORE", yellow)
    else if contains m (codes "ldr") || contains m (codes "ld") || text_eq m (codes "pop")
    then (codes "LOAD", cyan)
    else ([], dark_gray)

unfoldable pub insn_type : TraceEntry → Text × Color
unfolding mnemonic_type mnemonic_of
insn_type entry =
    if is_call_text entry
    then (codes "CALL", blue)
    else if is_return_text entry
    then (codes "RETURN", red)
    else mnemonic_type (mnemonic_of entry)

-- `as i64`
unfoldable pub as_i64 : ℕ → ℤ
as_i64 w = if ltb w (2 ^ 63) then pos w else negsuc (2 ^ 64 - w - 1)

-- `sp as i64 - b as i64`, which wraps; 0 without a base.
unfoldable pub sp_delta : ℕ → Option ℕ → ℤ
unfolding as_i64
sp_delta sp none = pos 0
sp_delta sp (some b) = as_i64 ((sp + 2 ^ 64 - b) % 2 ^ 64)

unfoldable pub delta_color : ℤ → Color
delta_color (pos ℕ.zero) = dark_gray
delta_color (pos (ℕ.suc n)) = green
delta_color (negsuc n) = red

unfoldable pub delta_sign : ℤ → Text
delta_sign (pos n) = codes "+"
delta_sign (negsuc n) = []

unfoldable pub bytes_str : List ℕ → Text
unfolding join_blank hex_upper pad_left
bytes_str bytes = join_blank (map (λ b. pad_left b'0' 2 (hex_upper b)) bytes)

or_0 : Option ℕ → ℕ
or_0 none = 0
or_0 (some n) = n

module _ (host : Host) where
  open host use {from_str}

  unfoldable pub detail_lines : App host → TraceEntry → List Line
  unfolding or_0 value_of recorded_sp sp_delta insn_type delta_color delta_sign bytes_str
      display_i32
  detail_lines app entry =
      let sp = or_0 (recorded_sp host (value_of host (from_str entry.regs))) in
      let delta = sp_delta sp app.base_sp in
      []
      ∷ (styled (codes "  PC   ") (colored dark_gray)
          ∷ styled (codes "0x" ++ pad_left b'0' 16 (hex_upper entry.pc)) (colored cyan)
          ∷ [])
      ∷ []
      ∷ (styled (codes "  " ++ entry.insn_text) (record plain { fg = some white; bold = true })
          ∷ [])
      ∷ []
      ∷ (styled (codes "  Bytes  ") (colored dark_gray)
          ∷ styled (bytes_str entry.insn_bytes) (colored gray)
          ∷ [])
      ∷ []
      ∷ (styled (codes "  Step   ") (colored dark_gray)
          ∷ styled (decimal entry.step) (colored white)
          ∷ styled
              (codes "  ("
                ++ decimal (app.current + 1)
                ++ codes "/"
                ++ decimal (length app.trace)
                ++ codes ")")
              (colored dark_gray)
          ∷ [])
      ∷ (styled (codes "  SP     ") (colored dark_gray)
          ∷ styled (codes "0x" ++ hex_upper sp) (colored white)
          ∷ styled (codes "  (" ++ delta_sign delta ++ display_i32 delta ++ codes ")")
              (colored (delta_color delta))
          ∷ [])
      ∷ (styled (codes "  Type   ") (colored dark_gray)
          ∷ styled (insn_type entry).0 (colored (insn_type entry).1)
          ∷ [])
      ∷ []

  detail_of : App host → Option TraceEntry → Widget
  unfolding detail_lines
  detail_of app none =
      paragraph ((styled (codes "  No trace data loaded") plain ∷ []) ∷ []) (colored dark_gray)
        (framed (codes " Instruction "))
  detail_of app (some entry) =
      paragraph (detail_lines app entry) plain (framed (codes " Instruction "))

  unfoldable pub render_detail : App host → Widget
  unfolding detail_of current_entry
  render_detail app = detail_of app (current_entry host app)
