-- ===== src/Viewing/Run.antt =====
-- `run` of src/tui.rs: load the trace, switch the terminal to raw mode and to its other screen, run
-- the loop, and switch both back.
pub mod Restores
use tiny_binary_debugger.Base.{ℕ, Option, none, some, Result, ok, err, Outcome, done, panicked}
use tiny_binary_debugger.Stats.{Orders}
use tiny_binary_debugger.Storage.File.{Files}
use tiny_binary_debugger.Text.{Text}
use tiny_binary_debugger.Tui.{Host, App}
use tiny_binary_debugger.Tui.Screen.{Ratatui}
use tiny_binary_debugger.Tui.Terminal.{Terminal, LoopResult, main_loop}
use tiny_binary_debugger.Viewing.{open_tui}

-- The terminal at the end, and what `run` returns.
abbrev pub Returned : Terminal → Type 0
Returned t = t.World × Result (Unit {0})

module _ (f : Files) (orders : Orders) (host : Host) (r : Ratatui) (t : Terminal) where
  open t use {
    World, enable_raw_mode, disable_raw_mode, enter_alternate_screen, leave_alternate_screen,
    new_terminal,
  }

  unfoldable pub left_screen : Result (Unit {0}) → Returned t → Returned t
  left_screen result (w, err e) = (w, err e)
  left_screen result (w, ok _) = (w, result)

  unfoldable pub left_raw_mode : Result (Unit {0}) → Returned t → Returned t
  unfolding left_screen
  left_raw_mode result (w, err e) = (w, err e)
  left_raw_mode result (w, ok _) = left_screen result (leave_alternate_screen w)

  unfoldable pub after_loop : Option (Outcome (LoopResult t r host)) → Option (Outcome (Returned t))
  unfolding left_raw_mode
  after_loop none = none
  after_loop (some panicked) = some panicked
  after_loop (some (done (w, app, result))) =
      some (done (left_raw_mode result (disable_raw_mode w)))

  unfoldable pub with_terminal : ℕ → App host → Returned t → Option (Outcome (Returned t))
  unfolding after_loop main_loop
  with_terminal fuel app (w, err e) = some (done (w, err e))
  with_terminal fuel app (w, ok _) = after_loop (main_loop t r host fuel w app)

  unfoldable pub with_screen : ℕ → App host → Returned t → Option (Outcome (Returned t))
  unfolding with_terminal
  with_screen fuel app (w, err e) = some (done (w, err e))
  with_screen fuel app (w, ok _) = with_terminal fuel app (new_terminal w)

  unfoldable pub with_raw_mode : ℕ → App host → Returned t → Option (Outcome (Returned t))
  unfolding with_screen
  with_raw_mode fuel app (w, err e) = some (done (w, err e))
  with_raw_mode fuel app (w, ok _) = with_screen fuel app (enter_alternate_screen w)

  unfoldable pub with_app : ℕ → World → Result (App host) → Option (Outcome (Returned t))
  unfolding with_raw_mode
  with_app fuel w (err e) = some (done (w, err e))
  with_app fuel w (ok app) = with_raw_mode fuel app (enable_raw_mode w)

  unfoldable pub run : ℕ → World → f.Disk → Text → Option (Outcome (Returned t))
  unfolding with_app open_tui
  run fuel w disk trace_file = with_app fuel w (open_tui f orders host disk trace_file)
