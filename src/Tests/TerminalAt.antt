-- ===== src/Tests/TerminalAt.antt =====
-- The loop at a terminal that plays a script.
use tiny_binary_debugger.Base.{
  sym, ap, ◌≡◌, ◌⊎◌, refl, Bool, true, false, Option, some, none, List, [], ◌∷◌, Result, ok, err,
  Outcome, done, panicked, inl,
}
use tiny_binary_debugger.Tests.FramesAt.{
  session_of, stacked, stacked-IsLayout, area, opened, opened-IsValid, three-AllAscii,
}
use tiny_binary_debugger.Tests.Machine.{in_order, one_file}
use tiny_binary_debugger.Tests.TuiAt.{plain, three}
use tiny_binary_debugger.Storage
use tiny_binary_debugger.Text.{Text, codes}
use tiny_binary_debugger.Tui.{App, new}
use tiny_binary_debugger.Tui.Keys.{KeyCode, esc, down, char, press}
use tiny_binary_debugger.Tui.Loop
use tiny_binary_debugger.Tui.Loop.{Input, Session}
use tiny_binary_debugger.Tui.Terminal.{Terminal, TermEvent, key, other_event, LoopResult, main_loop}
use tiny_binary_debugger.Tui.Terminal.Rounds.{Reaches, main_loop-rounds}
use tiny_binary_debugger.Tui.Terminal.Serves.{Serves, main_loop-Returns, two_keys-return}
use tiny_binary_debugger.Viewing.Run.{Returned, run}
use tiny_binary_debugger.Viewing.Run.Restores.{Modes, Concludes, run-Concludes}
use tiny_binary_debugger.Viewing.{open_tui}

record Script : Type 0 where
  raw : Bool
  alternate : Bool
  events : List TermEvent

abbrev next_event : Script → List TermEvent → Script × Result TermEvent
next_event w [] = (w, err (codes "end of file"))
next_event w (e ∷ es) = (record w { events = es }, ok e)

abbrev scripted : Terminal
scripted = record {
  World = Script;
  enable_raw_mode = λ w. (record w { raw = true }, ok tt);
  disable_raw_mode = λ w. (record w { raw = false }, ok tt);
  enter_alternate_screen = λ w. (record w { alternate = true }, ok tt);
  leave_alternate_screen = λ w. (record w { alternate = false }, ok tt);
  new_terminal = λ w. (w, ok tt);
  begin_frame = λ w. (w, ok area);
  end_frame = λ w frame. (w, ok tt);
  poll = λ w. (w, ok true);
  read = λ w. next_event w w.events;
}

abbrev playing : List TermEvent → Script
playing events = record { raw = false; alternate = false; events = events }

abbrev start : Script
start =
    playing
      (key down true ∷ key down false ∷ other_event ∷ key (char b'q') true ∷ key esc true ∷ [])

abbrev end_of :
    Option (Outcome (LoopResult scripted stacked plain)) → LoopResult scripted stacked plain
end_of none = (start, opened, err [])
end_of (some panicked) = (start, opened, err [])
end_of (some (done e)) = e

unfoldable played : LoopResult scripted stacked plain
unfolding main_loop
played = end_of (main_loop scripted stacked plain 9 start opened)

played_ends :
    main_loop scripted stacked plain 9 start opened ≡ some (done (played.0, played.1, ok tt))
unfolding played new tiny_binary_debugger.Base.Int.◌+ℤ◌
played_ends = refl

main_loop-rounds_example : Reaches scripted stacked plain start opened played.0 played.1
unfolding new
main_loop-rounds_example =
    main_loop-rounds scripted stacked plain 9 start played.0 opened played.1 refl played_ends

abbrev served : List Input
served = (area, press down) ∷ (area, press (char b'q')) ∷ []

-- A terminal that serves a key that is pressed, before the keys of `events`.
Serves-press :
    (code : KeyCode) (events : List TermEvent) (inputs : List Input)
    → Serves scripted (playing events) inputs
    → Serves scripted (playing (key code true ∷ events)) ((area, press code) ∷ inputs)
Serves-press code events inputs later = (
  playing (key code true ∷ events),
  refl,
  λ frame. (
    playing (key code true ∷ events),
    refl,
    (playing events, (playing (key code true ∷ events), refl, refl), later),
  ),
)

unfoldable ended : Session stacked plain
unfolding Loop.main_loop
ended = session_of (Loop.main_loop stacked plain opened served)

ended_ok : Loop.main_loop stacked plain opened served ≡ done (ended.0, ended.1)
unfolding ended new tiny_binary_debugger.Base.Int.◌+ℤ◌
ended_ok = refl

ended_quits : ended.0.should_quit ≡ true
unfolding ended new tiny_binary_debugger.Base.Int.◌+ℤ◌
ended_quits = refl

main_loop-Returns_example :
    (w' : Script) × (main_loop scripted stacked plain 2
        (playing (key down true ∷ key (char b'q') true ∷ []))
        opened
      ≡ some (done (w', ended.0, ok tt)))
unfolding new
main_loop-Returns_example =
    main_loop-Returns scripted stacked plain served
      (playing (key down true ∷ key (char b'q') true ∷ [])) opened ended.0 ended.1 refl
      (Serves-press down (key (char b'q') true ∷ []) ((area, press (char b'q')) ∷ [])
        (Serves-press (char b'q') [] [] tt))
      ended_ok ended_quits

two_keys-return_example :
    (last : App plain) × (w' : Script) × (main_loop scripted stacked plain 2
        (playing (key esc true ∷ key (char b'q') true ∷ []))
        opened
      ≡ some (done (w', last, ok tt)))
unfolding new
two_keys-return_example =
    two_keys-return scripted stacked plain (Storage.get_all three) opened area area
      (playing (key esc true ∷ key (char b'q') true ∷ [])) stacked-IsLayout three-AllAscii
      opened-IsValid refl
      (Serves-press esc (key (char b'q') true ∷ []) ((area, press (char b'q')) ∷ [])
        (Serves-press (char b'q') [] [] tt))

always_enabled : (w v : Script) (e : Text) → scripted.enable_raw_mode w ≡ (v, err e) → v.raw ≡ w.raw
always_enabled w v e h = absurd (cc)

abbrev scripted_modes : Modes scripted
scripted_modes = record {
  raw = λ w. w.raw;
  alternate = λ w. w.alternate;
  enabled = λ w v h. ap (λ x. x.0.raw) (sym h);
  not_enabled = always_enabled;
  enable = λ w. refl;
  enter = λ w. refl;
  entered = λ w v h. ap (λ x. x.0.alternate) (sym h);
  make = λ w. (refl, refl);
  disabled = λ w v h. ap (λ x. x.0.raw) (sym h);
  leave = λ w. refl;
  left = λ w v h. ap (λ x. x.0.alternate) (sym h);
}

abbrev result_of : Option (Outcome (Returned scripted)) → Returned scripted
result_of none = (start, err [])
result_of (some panicked) = (start, err [])
result_of (some (done e)) = e

unfoldable ran : Returned scripted
unfolding run
ran =
    result_of
      (run one_file in_order plain stacked scripted 9 start (some three.entries) (codes "t.tdb"))

ran_ends :
    run one_file in_order plain stacked scripted 9 start (some three.entries) (codes "t.tdb")
    ≡ some (done ran)
unfolding ran new tiny_binary_debugger.Base.Int.◌+ℤ◌
ran_ends = refl

run-Concludes_example :
    Concludes plain stacked scripted scripted_modes 9 start
      (open_tui one_file in_order plain (some three.entries) (codes "t.tdb"))
      ran
run-Concludes_example =
    run-Concludes one_file in_order plain stacked scripted scripted_modes 9 start
      (some three.entries) (codes "t.tdb") ran (refl, refl) ran_ends

-- A terminal without an alternate screen: the run returns with raw mode on.
abbrev one_screen : Terminal
one_screen = record scripted { enter_alternate_screen = λ w. (w, err (codes "unsupported")) }

one_screen-raw :
    run one_file in_order plain stacked one_screen 9 start (some three.entries) (codes "t.tdb")
    ≡ some (done (record start { raw = true }, err (codes "unsupported")))
unfolding run
one_screen-raw = refl
