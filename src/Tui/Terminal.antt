-- ===== src/Tui/Terminal.antt =====
-- `main_loop` of src/tui.rs at a terminal that can fail: draw a frame, poll, read an event, and go on
-- until `should_quit` is set or a call of the terminal fails.
pub mod Rounds
pub mod Serves
pub mod Turns
use tiny_binary_debugger.Base.{
  ℕ, zero, suc, Bool, true, false, Option, none, some, List, if◌then◌else◌, Result, ok, err,
  Outcome, done, panicked, ◌>>=◌,
}
use tiny_binary_debugger.Text.{Text}
use tiny_binary_debugger.Tui.{Host, App}
use tiny_binary_debugger.Tui.Draw.{ui}
use tiny_binary_debugger.Tui.Keys.{KeyCode, press, handle_event}
use tiny_binary_debugger.Tui.Screen.{Rect, Drawn, Ratatui}

-- `crossterm::event::Event`: a key with its code, pressed or of another kind, or anything else.
pub data TermEvent : Type 0 where
  key : KeyCode → Bool → TermEvent
  other_event : TermEvent

-- crossterm and the terminal of ratatui. `Terminal::draw` finds the area, lets the program draw, and
-- writes the frame; an error is the text that `to_string` gives.
pub record Terminal : Type 1 where
  pub World : Type 0
  pub enable_raw_mode : World → World × Result (Unit {0})
  pub disable_raw_mode : World → World × Result (Unit {0})
  pub enter_alternate_screen : World → World × Result (Unit {0})
  pub leave_alternate_screen : World → World × Result (Unit {0})
  pub new_terminal : World → World × Result (Unit {0})
  pub begin_frame : World → World × Result Rect
  pub end_frame : World → List Drawn → World × Result (Unit {0})
  -- whether there is an event within 50 ms
  pub poll : World → World × Result Bool
  pub read : World → World × Result TermEvent

module _ (t : Terminal) (r : Ratatui) (host : Host) where
  open t use {World, begin_frame, end_frame, poll, read}

  -- A round returns from the loop, or goes on.
  pub data Turn : Type 0 where
    ends : World → App host → Result (Unit {0}) → Turn
    again : World → App host → Turn

  unfoldable pub checked : World → App host → Turn
  checked w app = if app.should_quit then ends w app (ok tt) else again w app

  -- A key that is not pressed is skipped with `continue`, without the test of `should_quit`.
  unfoldable pub received : App host → World × Result TermEvent → Turn
  unfolding checked handle_event
  received app (w, err e) = ends w app (err e)
  received app (w, ok (key code true)) = checked w (handle_event host app (press code))
  received app (w, ok (key code false)) = again w app
  received app (w, ok other_event) = checked w app

  unfoldable pub polled : App host → World × Result Bool → Turn
  unfolding checked received
  polled app (w, err e) = ends w app (err e)
  polled app (w, ok true) = received app (read w)
  polled app (w, ok false) = checked w app

  unfoldable pub drawn : App host → World × Result (Unit {0}) → Turn
  unfolding polled
  drawn app (w, err e) = ends w app (err e)
  drawn app (w, ok _) = polled app (poll w)

  unfoldable pub begun : App host → World × Result Rect → Outcome Turn
  unfolding drawn ui
  begun app (w, err e) = done (ends w app (err e))
  begun app (w, ok area) = do
    (after, frame) ← ui r host app area
    done (drawn after (end_frame w frame))

  unfoldable pub turn : World → App host → Outcome Turn
  unfolding begun
  turn w app = begun app (begin_frame w)

  -- How the loop ends: the terminal, the viewer, and what `main_loop` returns.
  abbrev pub LoopResult : Type 0
  LoopResult = World × App host × Result (Unit {0})

  -- On fuel, a unit for each round.
  unfoldable pub main_loop : ℕ → World → App host → Option (Outcome LoopResult)
  unfolding turn
  main_loop zero w app = none
  main_loop (suc fuel) w app = elim (turn w app) [
    | panicked ↦ some panicked
    | done (ends w' app' result) ↦ some (done (w', app', result))
    | done (again w' app') ↦ main_loop fuel w' app'
  ]
