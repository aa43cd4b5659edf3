-- ===== src/Tui/Keys.antt =====
-- The key handlers of src/tui.rs and what one event does to the viewer.
use tiny_binary_debugger.Base.{ℕ, ◌-◌, true, [], ◌∷◌, ◌++◌, length, ◌==◌, if◌then◌else◌}
use tiny_binary_debugger.Base.Int.{pos, negsuc}
use tiny_binary_debugger.Text.{Text, codes}
use tiny_binary_debugger.Tui.{
  Host, Mode, normal, search, help, App, indices, select, step, find_next, find_prev, apply_search,
}

-- `crossterm::event::KeyCode`; `other` is every code that no handler names.
pub data KeyCode : Type 0 where
  char : ℕ → KeyCode
  esc left right down up home end page_down page_up enter backspace other : KeyCode

-- `Event`, by what `main_loop` tells apart.
pub data Event : Type 0 where
  press : KeyCode → Event
  no_press : Event

-- `String::pop`
unfoldable pub pop : Text → Text
pop [] = []
pop (c ∷ []) = []
pop (c ∷ d ∷ s) = c ∷ pop (d ∷ s)

module _ (host : Host) where
  unfoldable pub quit : App host → App host
  quit app = record app { should_quit = true }

  unfoldable pub select_last : App host → App host
  unfolding select
  select_last app = select host app (length app.trace - 1)

  -- The characters of the normal mode.
  unfoldable pub handle_char : App host → ℕ → App host
  unfolding quit select_last select step find_next find_prev
  handle_char app c =
      if c == b'q'
      then quit app
      else if c == b'h'
      then step host app (negsuc 0)
      else if c == b'l'
      then step host app (pos 1)
      else if c == b'j'
      then step host app (pos 1)
      else if c == b'k'
      then step host app (negsuc 0)
      else if c == b'g'
      then select host app 0
      else if c == b'G'
      then select_last app
      else if c == b'c'
      then find_next host app (codes "call")
      else if c == b'C'
      then find_prev host app (codes "call")
      else if c == b'r'
      then find_next host app (codes "ret")
      else if c == b'R'
      then find_prev host app (codes "ret")
      else if c == b'm'
      then find_next host app (codes "mem")
      else if c == b'M'
      then find_prev host app (codes "mem")
      else if c == b'/'
      then record app { mode = search [] }
      else if c == b'?'
      then record app { mode = help }
      else app

  unfoldable pub handle_normal_key : App host → KeyCode → App host
  unfolding handle_char quit select_last select step
  handle_normal_key app (char c) = handle_char app c
  handle_normal_key app esc = quit app
  handle_normal_key app left = step host app (negsuc 0)
  handle_normal_key app right = step host app (pos 1)
  handle_normal_key app down = step host app (pos 1)
  handle_normal_key app up = step host app (negsuc 0)
  handle_normal_key app home = select host app 0
  handle_normal_key app end = select_last app
  handle_normal_key app page_down = step host app (pos 50)
  handle_normal_key app page_up = step host app (negsuc 49)
  handle_normal_key app enter = app
  handle_normal_key app backspace = app
  handle_normal_key app other = app

  -- `if let Mode::Search(ref mut q)`: the query changes in place, and is searched for.
  unfoldable pub edit_query : App host → (Text → Text) → Mode → App host
  unfolding apply_search
  edit_query app edit normal = app
  edit_query app edit (search q) =
      apply_search host (record app { mode = search (edit q) }) (edit q)
  edit_query app edit help = app

  -- Cancels the search and restores the full list.
  unfoldable pub cancel_search : App host → App host
  unfolding indices
  cancel_search app = record app { filtered_indices = indices 0 (length app.trace); mode = normal }

  unfoldable pub handle_search_key : App host → KeyCode → App host
  unfolding edit_query cancel_search pop
  handle_search_key app esc = cancel_search app
  handle_search_key app enter = record app { mode = normal }
  handle_search_key app (char c) = edit_query app (λ q. q ++ c ∷ []) app.mode
  handle_search_key app backspace = edit_query app pop app.mode
  handle_search_key app left = app
  handle_search_key app right = app
  handle_search_key app down = app
  handle_search_key app up = app
  handle_search_key app home = app
  handle_search_key app end = app
  handle_search_key app page_down = app
  handle_search_key app page_up = app
  handle_search_key app other = app

  unfoldable pub handle_key : App host → KeyCode → Mode → App host
  unfolding handle_normal_key handle_search_key
  handle_key app code normal = handle_normal_key app code
  handle_key app code (search q) = handle_search_key app code
  handle_key app code help = record app { mode = normal }

  -- One event in `main_loop`: a key that is not pressed, any other event, and none within the 50 ms
  -- of the poll change nothing.
  unfoldable pub handle_event : App host → Event → App host
  unfolding handle_key
  handle_event app (press code) = handle_key app code app.mode
  handle_event app no_press = app
