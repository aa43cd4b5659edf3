-- ===== src/Viewing/Pane.antt =====
-- What the registers pane of src/tui.rs shows of the registers that a step has recorded.
use mathlib.Core.List.{map}
use tiny_binary_debugger.Base.{
  arith, ℕ, ◌≡◌, ◌∙◌, refl, ap₂, ap, Bool, true, false, ◌&&◌, Option, none, some, List, [], ◌∷◌,
  ◌++◌, All,
}
use tiny_binary_debugger.Os.{Arch, x86_64, aarch64, ThreadState}
use tiny_binary_debugger.Text.{Text, codes, text_eq}
use tiny_binary_debugger.Text.Number.{hex_upper, pad_left}
use tiny_binary_debugger.Tracer.Registers.{registers}
use tiny_binary_debugger.Tui.{Host, App, current_regs}
use tiny_binary_debugger.Tui.Panes.Changes.{lines_of}
use tiny_binary_debugger.Tui.Panes.Registers.{
  lookup, register_line, register_lines, register_names, render_registers,
}
use tiny_binary_debugger.Tui.Panes.Shown.{shown_order}
use tiny_binary_debugger.Tui.Screen.{Line}
use tiny_binary_debugger.Viewing.Read.{field}

abbrev pub number_or_zero : Option ℕ → ℕ
number_or_zero none = 0
number_or_zero (some n) = n

-- The texts of a line of the pane: the name of the register and its recorded value, in sixteen
-- hexadecimal digits.
abbrev pub shown_texts : (arch : Arch) → ThreadState arch → Text → List Text
shown_texts arch state name =
    (codes " " ++ pad_left b' ' 4 name ++ codes " ")
    ∷ (codes "0x"
        ++ pad_left b'0' 16 (hex_upper (number_or_zero (field name (registers arch state)))))
    ∷ []

abbrev pub texts_of : Line → List Text
texts_of line = map (λ span. span.content) line

is_there : Option ℕ → Bool
is_there none = false
is_there (some n) = true

all_known : List (Text × ℕ) → List Text → Bool
unfolding is_there
all_known fields [] = true
all_known fields (name ∷ names) = is_there (field name fields) && all_known fields names

abbrev IsKnown : List (Text × ℕ) → Text → Type 0
IsKnown fields name = field name fields ≡ some (number_or_zero (field name fields))

is_there-some : (o : Option ℕ) → is_there o ≡ true → o ≡ some (number_or_zero o)
unfolding is_there
is_there-some none h = absurd (cc)
is_there-some (some n) h = refl

names-IsKnown :
    (fields : List (Text × ℕ)) (names : List Text)
    → all_known fields names ≡ true
    → All (IsKnown fields) names
unfolding all_known
names-IsKnown fields [] h = tt
names-IsKnown fields (name ∷ names) h =
    (is_there-some (field name fields) (ground arith), names-IsKnown fields names (ground arith))

shown_order-all_known :
    (arch : Arch) (state : ThreadState arch)
    → all_known (registers arch state) (shown_order arch) ≡ true
unfolding all_known is_there registers text_eq
shown_order-all_known x86_64 state = refl
shown_order-all_known aarch64 state = refl

module _ (arch : Arch) (host : Host) (state : ThreadState arch) (m : List (Text × host.Value))
    (reads : (name : Text) (n : ℕ)
      → field name (registers arch state) ≡ some n
      → (v : host.Value) × (lookup host name m ≡ some v) × (host.as_u64 v ≡ some n)) where
  lines_texts :
      (prev : Option (List (Text × host.Value))) (names : List Text)
      → All (IsKnown (registers arch state)) names
      → map texts_of (register_lines host prev m names) ≡ map (shown_texts arch state) names
  unfolding register_lines register_line
  lines_texts prev [] known = refl
  lines_texts prev (name ∷ names) known =
      let (v, found, n) = reads name _ known.0 in
      rw (found, n) (ap (λ l. shown_texts arch state name ∷ l) (lines_texts prev names known.1))

  -- The pane, where the registers of the current entry are the map `m`, in the order of `names`.
  pub pane_texts :
      (app : App host)
      → current_regs host app ≡ m
      → register_names host app ≡ shown_order arch
      → map texts_of (lines_of (render_registers host app))
        ≡ map (shown_texts arch state) (shown_order arch)
  unfolding render_registers
  pane_texts app regs names =
      ap₂ (λ values order. map texts_of (register_lines host app.prev_regs values order)) regs names
      ∙ lines_texts app.prev_regs (shown_order arch) (
          names-IsKnown (registers arch state) (shown_order arch)
            (shown_order-all_known arch state))
