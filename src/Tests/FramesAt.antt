-- ===== src/Tests/FramesAt.antt =====
-- The frames of the viewer at a concrete trace.
use mathlib.Core.List.{map}
use tiny_binary_debugger.Base.{
  IsDone, inr, ltb→lt, ◌&&◌, inl, ltb, Bool-cases, Bool, ℕ, ◌≡◌, ◌⊎◌, refl, true, false, some, none,
  List, [], ◌∷◌, length-map, Outcome, done, panicked, arith, ◌==◌,
}
use tiny_binary_debugger.Storage
use tiny_binary_debugger.Tests.Machine.{in_order}
use tiny_binary_debugger.Tests.TuiAt.{plain, three}
use tiny_binary_debugger.Text.{Text, codes}
use tiny_binary_debugger.Tui.{App, new}
use tiny_binary_debugger.Tui.Frames.{AllAscii, IsLayout, main_loop-IsValid, main_loop-draws}
use tiny_binary_debugger.Tui.Keys.{press, no_press, char, esc, down}
use tiny_binary_debugger.Tui.Loop.{Input, Session, main_loop}
use tiny_binary_debugger.Tui.Screen.{Rect, Ratatui}
use tiny_binary_debugger.Tui.Valid.{new-IsValid, IsValid}
use tiny_binary_debugger.Text.Laws.{IsAscii}
use tiny_binary_debugger.Storage.{TraceEntry}

-- Every part of a layout is the whole area.
abbrev pub stacked : Ratatui
stacked = record {
  split = λ direction constraints area. map (λ c. area) constraints;
  list_selected = λ items selected. selected;
}

pub stacked-IsLayout : IsLayout stacked
stacked-IsLayout = record { length-split = λ d cs area. length-map cs (λ c. area) }

abbrev pub area : Rect
area = record { x = 0; y = 0; width = 80; height = 24 }

abbrev pub inputs : List Input
inputs =
    (area, press down)
    ∷ (area, press (char b'/'))
    ∷ (area, press (char b'n'))
    ∷ (area, no_press)
    ∷ (area, press esc)
    ∷ []

abbrev pub all_ascii : List ℕ → Bool
all_ascii [] = true
all_ascii (c ∷ s) = ltb c 0x80 && all_ascii s

all_ascii-IsAscii : (s : Text) → all_ascii s ≡ true → IsAscii s
all_ascii-IsAscii [] h = tt
all_ascii-IsAscii (c ∷ s) h = elim (Bool-cases (ltb c 0x80)) [
  | inl below ↦ (ltb→lt c 0x80 below, all_ascii-IsAscii s (rw below at h))
  | inr above ↦ absurd (let p = rw above at h in cc)
]

abbrev pub all_texts : List TraceEntry → Bool
all_texts [] = true
all_texts (e ∷ es) = all_ascii e.insn_text && all_texts es

pub all_texts-AllAscii : (es : List TraceEntry) → all_texts es ≡ true → AllAscii es
all_texts-AllAscii [] h = tt
all_texts-AllAscii (e ∷ es) h = elim (Bool-cases (all_ascii e.insn_text)) [
  | inl ascii ↦ (all_ascii-IsAscii e.insn_text ascii, all_texts-AllAscii es (rw ascii at h))
  | inr other ↦ absurd (let p = rw other at h in cc)
]

pub three-AllAscii : AllAscii (Storage.get_all three)
unfolding Storage.get_all
three-AllAscii = all_texts-AllAscii (Storage.get_all three) refl

abbrev pub opened : App plain
opened = new plain in_order three (codes "t.tdb")

main_loop-draws_example : IsDone (main_loop stacked plain opened inputs)
main_loop-draws_example =
    main_loop-draws stacked plain in_order three (codes "t.tdb") inputs stacked-IsLayout
      three-AllAscii

abbrev pub session_of : Outcome (Session stacked plain) → Session stacked plain
session_of panicked = (opened, [])
session_of (done s) = s

unfoldable played : Session stacked plain
unfolding main_loop
played = session_of (main_loop stacked plain opened inputs)

played_ends : main_loop stacked plain opened inputs ≡ done played
unfolding played new tiny_binary_debugger.Base.Int.◌+ℤ◌
played_ends = refl

main_loop-IsValid_example : IsValid plain (Storage.get_all three) played.0
main_loop-IsValid_example =
    main_loop-IsValid stacked plain in_order three (codes "t.tdb") inputs played played_ends

pub opened-IsValid : IsValid plain (Storage.get_all three) opened
opened-IsValid = new-IsValid plain in_order three (codes "t.tdb")
