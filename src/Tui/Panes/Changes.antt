-- ===== src/Tui/Panes/Changes.antt =====
-- The registers that `render_registers` of src/tui.rs shows as changed, after a selection.
use mathlib.Core.List.{Mem, mem-cons, mem-cons_self, not-mem-nil, mem-cons_of_mem, Perm}
use mathlib.Core.List.Perm
use mathlib.Core.Logic.Or
use mathlib.Core.HLevel.{⊥_prop}
use mathlib.Core.Path.{subst}
use tiny_binary_debugger.Base.{
  ℕ, ◌<◌, ◌≡◌, refl, Bool, true, false, not, Option, none, some, List, [], ◌∷◌, map, length,
  get_elem?, leb, if◌then◌else◌, arith, Bool-cases, inl, inr, Option-cases, ap₂, sym,
}
use tiny_binary_debugger.Storage.{TraceEntry}
use tiny_binary_debugger.Text.{Text, text_eq}
use tiny_binary_debugger.Tui.{Host, App, select, current_regs, current_entry}
use tiny_binary_debugger.Text.Laws.{text_eq_refl}
use tiny_binary_debugger.Tui.Panes.Order.{sort_names-perm}
use tiny_binary_debugger.Tui.Panes.Registers.{
  lookup, changed, register_line, register_lines, register_names, render_registers,
}
use tiny_binary_debugger.Tui.Screen.{Line, Style, Widget, paragraph, plain, colored, green, gray}

abbrev pub lines_of : Widget → List Line
lines_of (paragraph lines style block) = lines
lines_of widget = []

abbrev pub value_style : Line → Option Style
value_style [] = none
value_style (name ∷ []) = none
value_style (name ∷ value ∷ spans) = some value.style

abbrev pub style_of : Bool → Style
style_of b = if b then record plain { fg = some green; bold = true } else colored gray

module _ (host : Host) where
  open host use {Value, value_eq, walk_regs, from_str, as_object}

  other_value : Option Value → Option Value → Bool
  other_value (some old) (some v) = not (value_eq old v)
  other_value (some old) none = false
  other_value none now = false

  -- The register has a value in both maps, and not the same one.
  unfoldable pub is_other : List (Text × Value) → List (Text × Value) → Text → Bool
  unfolding other_value
  is_other old now name = other_value (lookup host name old) (lookup host name now)

  lookup-Mem :
      (name : Text) (regs : List (Text × Value))
      → Mem name (map (λ r. r.0) regs)
      → lookup host name regs ≡ none
      → ⊥
  unfolding lookup
  lookup-Mem name [] i h = absurd (not-mem-nil i)
  lookup-Mem name (r ∷ regs) i h = elim (Bool-cases (text_eq name r.0)) [
    | inl here ↦ absurd (let p = rw here at h in cc)
    | inr on ↦
        Or.elim ⊥_prop (mem-cons.0 i)
          (λ e. absurd (let p = subst (λ t. text_eq name t ≡ true) e (text_eq_refl name) in cc))
          (λ j. lookup-Mem name regs j (rw on at h))
  ]

  line_style :
      (old now : List (Text × Value)) (name : Text) (v : Value)
      → lookup host name now ≡ some v
      → value_style (register_line host (some old) name v) ≡ some (style_of (is_other old now name))
  unfolding is_other register_line changed
  line_style old now name v h = elim (Option-cases (lookup host name old)) [
    | inl absent ↦ rw absent refl
    | inr (o, present) ↦ rw (present, h) refl
  ]

  styles_of_lines :
      (old now : List (Text × Value)) (names : List Text)
      → ((name : Text) → Mem name names → Mem name (map (λ r. r.0) now))
      → map value_style (register_lines host (some old) now names)
        ≡ map (λ name. some (style_of (is_other old now name))) names
  unfolding register_lines
  styles_of_lines old now [] h = refl
  styles_of_lines old now (name ∷ names) h = elim (Option-cases (lookup host name now)) [
    | inl absent ↦ absurd (lookup-Mem name now (h name mem-cons_self) absent)
    | inr (v, found) ↦ rw found (
        ap₂ ◌∷◌ (line_style old now name v found)
          (styles_of_lines old now names (λ n i. h n (mem-cons_of_mem name i))))
  ]

  -- The registers of an entry whose text is an object.
  registers_of :
      (app : App host) (e : TraceEntry) (v : Value) (regs : List (Text × Value))
      → get_elem? app.trace app.current ≡ some e
      → from_str e.regs ≡ some v
      → as_object v ≡ some regs
      → current_regs host app ≡ regs
  unfolding current_regs current_entry
  registers_of app e v regs h p q = rw (h, p, q) refl

  prev_regs-select :
      (app : App host) (idx : ℕ) (e : TraceEntry) (v : Value) (regs : List (Text × Value))
      → idx < length app.trace
      → get_elem? app.trace app.current ≡ some e
      → from_str e.regs ≡ some v
      → as_object v ≡ some regs
      → (select host app idx).prev_regs ≡ some regs
  unfolding select
  prev_regs-select app idx e v regs lt h p q =
      let inside : leb (length app.trace) idx ≡ false = ground arith in rw (inside, h, p, q) refl

  names_known :
      (app : App host) (name : Text)
      → Perm (walk_regs (current_regs host app)) (current_regs host app)
      → Mem name (register_names host app)
      → Mem name (map (λ r. r.0) (current_regs host app))
  unfolding register_names
  names_known app name walk i =
      (Perm.mem_iff (Perm.trans (sort_names-perm _) (Perm.map (λ r. r.0) walk))).0 i

  -- After an entry of the trace was selected, the registers are shown, in the order of their names,
  -- bold and green where the entry that was current before recorded the register with another
  -- value, and gray where it recorded the same value or none. The entry before is to have recorded
  -- an object, and the hash map of the new entry's registers to be walked in some order.
  pub select-highlights :
      (app : App host) (idx : ℕ) (e : TraceEntry) (v : Value) (regs : List (Text × Value))
      → idx < length app.trace
      → get_elem? app.trace app.current ≡ some e
      → from_str e.regs ≡ some v
      → as_object v ≡ some regs
      → Perm
          (walk_regs (current_regs host (select host app idx)))
          (current_regs host (select host app idx))
      → map value_style (lines_of (render_registers host (select host app idx)))
        ≡ map
            (λ name. some (style_of (is_other regs (current_regs host (select host app idx)) name)))
            (register_names host (select host app idx))
  unfolding render_registers
  select-highlights app idx e v regs lt h p q walk =
      let shown = select host app idx in
      subst
        (λ prev.
          map value_style
            (register_lines host prev (current_regs host shown) (register_names host shown))
          ≡ map (λ name. some (style_of (is_other regs (current_regs host shown) name)))
              (register_names host shown))
        (sym (prev_regs-select app idx e v regs lt h p q))
        (styles_of_lines regs (current_regs host shown) (register_names host shown)
          (λ name i. names_known shown name walk i))
