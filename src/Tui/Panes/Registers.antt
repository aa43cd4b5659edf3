-- ===== src/Tui/Panes/Registers.antt =====
-- `render_registers` of src/tui.rs, with the order of the registers.
use tiny_binary_debugger.Base.{
  ℕ, Bool, true, false, not, ◌&&◌, ◌||◌, Option, none, some, List, [], ◌∷◌, ◌++◌, map, length, ltb,
  leb, ◌==◌, if◌then◌else◌,
}
use tiny_binary_debugger.Text.{Text, codes, text_eq, one_of}
use tiny_binary_debugger.Text.Number.{decimal, hex_upper, pad_left}
use tiny_binary_debugger.Text.Parse.{parse_u32}
use tiny_binary_debugger.Tui.{Host, App, current_regs}
use tiny_binary_debugger.Tui.Screen.{
  gray, dark_gray, green, plain, colored, styled, Line, framed, Widget, paragraph,
}

-- The order of tuples.
unfoldable pub key_leb : ℕ × ℕ → ℕ × ℕ → Bool
key_leb a b = ltb a.0 b.0 || a.0 == b.0 && leb a.1 b.1

-- `strip_prefix` of a character, then `parse::<u32>`
unfoldable pub numbered : ℕ → Text → Option ℕ
unfolding parse_u32
numbered c [] = none
numbered c (d ∷ rest) = let n = parse_u32 rest in if c == d then n else none

unfoldable pub named_key : Text → ℕ × ℕ
unfolding text_eq one_of
named_key name =
    if text_eq name (codes "rax")
    then (0, 0)
    else if text_eq name (codes "rbx")
    then (0, 1)
    else if text_eq name (codes "rcx")
    then (0, 2)
    else if text_eq name (codes "rdx")
    then (0, 3)
    else if text_eq name (codes "rdi")
    then (0, 4)
    else if text_eq name (codes "rsi")
    then (0, 5)
    else if text_eq name (codes "rbp")
    then (0, 6)
    else if text_eq name (codes "rsp")
    then (0, 7)
    else if one_of name (codes "rip" ∷ codes "pc" ∷ [])
    then (1, 0)
    else if text_eq name (codes "fp")
    then (1, 1)
    else if text_eq name (codes "lr")
    then (1, 2)
    else if text_eq name (codes "sp")
    then (1, 3)
    else if one_of name (codes "rflags" ∷ codes "cpsr" ∷ [])
    then (2, 0)
    else (1, 99)

key_of : Option ℕ → ℕ × ℕ → ℕ × ℕ
key_of none other = other
key_of (some n) other = (0, n)

-- The group of a register, 0 general, 1 special, 2 flags, and its place in the group.
unfoldable pub reg_sort_key : Text → ℕ × ℕ
unfolding key_of numbered named_key
reg_sort_key name = key_of (numbered b'x' name) (key_of (numbered b'r' name) (named_key name))

unfoldable pub insert_by_key : Text → List Text → List Text
unfolding key_leb reg_sort_key
insert_by_key name [] = name ∷ []
insert_by_key name (other ∷ names) =
    if key_leb (reg_sort_key name) (reg_sort_key other)
    then name ∷ other ∷ names
    else other ∷ insert_by_key name names

-- `sort_by_key`, a stable sort.
unfoldable pub sort_names : List Text → List Text
unfolding insert_by_key
sort_names [] = []
sort_names (name ∷ names) = insert_by_key name (sort_names names)

module _ (host : Host) where
  open host use {Value, as_u64, value_eq, walk_regs}

  unfoldable pub lookup : Text → List (Text × Value) → Option Value
  unfolding text_eq
  lookup name [] = none
  lookup name ((k, v) ∷ m) = if text_eq name k then some v else lookup name m

  -- The names in the order in which they are shown.
  unfoldable pub register_names : App host → List Text
  unfolding sort_names current_regs
  register_names app = sort_names (map (λ r. r.0) (walk_regs (current_regs host app)))

  differs : Value → Option Value → Bool
  differs v none = false
  differs v (some old) = not (value_eq old v)

  -- A register that had another value at the entry that was current before.
  unfoldable pub changed : Option (List (Text × Value)) → Text → Value → Bool
  unfolding differs lookup
  changed none name v = false
  changed (some prev) name v = differs v (lookup name prev)

  unsigned : Option ℕ → ℕ
  unsigned none = 0
  unsigned (some n) = n

  unfoldable pub register_line : Option (List (Text × Value)) → Text → Value → Line
  unfolding changed unsigned hex_upper pad_left
  register_line prev name v =
      styled (codes " " ++ pad_left b' ' 4 name ++ codes " ") (colored dark_gray)
      ∷ styled (codes "0x" ++ pad_left b'0' 16 (hex_upper (unsigned (as_u64 v)))) (
          if changed prev name v
          then record plain { fg = some green; bold = true }
          else colored gray)
      ∷ []

  line_of : Option (List (Text × Value)) → Text → Option Value → List Line
  line_of prev name none = []
  line_of prev name (some v) = register_line prev name v ∷ []

  unfoldable pub register_lines :
      Option (List (Text × Value)) → List (Text × Value) → List Text → List Line
  unfolding line_of lookup register_line
  register_lines prev regs [] = []
  register_lines prev regs (name ∷ names) =
      line_of prev name (lookup name regs) ++ register_lines prev regs names

  unfoldable pub render_registers : App host → Widget
  unfolding register_lines register_names current_regs decimal
  render_registers app =
      let regs = current_regs host app in
      paragraph (register_lines app.prev_regs regs (register_names app)) plain
        (framed (codes " Registers (" ++ decimal (length regs) ++ codes ") "))
