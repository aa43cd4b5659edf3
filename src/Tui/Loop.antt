-- ===== src/Tui/Loop.antt =====
-- `main_loop` of src/tui.rs: draw a frame, take an event, and end as soon as `should_quit` is set.
-- A terminal whose calls can fail is that of Tui/Terminal.
use tiny_binary_debugger.Base.{List, [], ◌∷◌, if◌then◌else◌, Outcome, done, ◌>>=◌}
use tiny_binary_debugger.Tui.{Host, App}
use tiny_binary_debugger.Tui.Draw.{ui}
use tiny_binary_debugger.Tui.Keys.{Event, handle_event}
use tiny_binary_debugger.Tui.Screen.{Rect, Drawn, Ratatui}

-- What a round finds: the area of the terminal, and the event of its poll.
abbrev pub Input : Type 0
Input = Rect × Event

module _ (r : Ratatui) (host : Host) where
  -- The viewer where the loop stands, and the frames that were drawn.
  abbrev pub Session : Type 0
  Session = App host × List (List Drawn)

  -- The loop over the rounds that it gets.
  unfoldable pub main_loop : App host → List Input → Outcome Session
  unfolding ui handle_event
  main_loop app [] = done (app, [])
  main_loop app ((area, event) ∷ inputs) = do
    (drawn, frame) ← ui r host app area
    let next = handle_event host drawn event
    let go_on = main_loop next inputs
    if next.should_quit
        then done (next, frame ∷ [])
        else (do (last, frames) ← go_on; done (last, frame ∷ frames))
