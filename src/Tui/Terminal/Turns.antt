-- ===== src/Tui/Terminal/Turns.antt =====
-- What a round of `main_loop` of src/tui.rs takes from the terminal.
use mathlib.Core.Path.{subst}
use tiny_binary_debugger.Base.{
  inr, inl, ◌⊎◌, ◌≡◌, refl, ap, ◌∙◌, Bool, true, false, List, if◌then◌else◌, Result, ok, err, done,
  >>=-done,
}
use tiny_binary_debugger.Tui.{Host, App}
use tiny_binary_debugger.Tui.Draw.{ui}
use tiny_binary_debugger.Tui.Frames.{ui-selected}
use tiny_binary_debugger.Tui.Keys.{KeyCode, Event, press, no_press, handle_event}
use tiny_binary_debugger.Tui.Screen.{Rect, Drawn, Ratatui}
use tiny_binary_debugger.Tui.Terminal.{
  Terminal, TermEvent, key, other_event, Turn, ends, again, checked, received, polled, drawn, begun,
}

module _ (t : Terminal) where
  open t use {World, poll, read}

  -- The terminal has an event: a key that is pressed; or no event in time, a key that is not
  -- pressed, or another event.
  abbrev pub Offers : World → Event → World → Type 0
  Offers w (press code) w' =
      (v : World) × (poll w ≡ (v, ok true)) × (read v ≡ (w', ok (key code true)))
  Offers w no_press w' =
      (poll w ≡ (w', ok false))
      ⊎ ((v : World) × (poll w ≡ (v, ok true))
          × ((read v ≡ (w', ok other_event))
              ⊎ ((code : KeyCode) × (read v ≡ (w', ok (key code false))))))

module _ (t : Terminal) (r : Ratatui) (host : Host) where
  open t use {World, begin_frame, end_frame}

  -- A round on the terminal `w` drew the viewer `app`, and left them as `w'` and `next`, with `q` in
  -- `should_quit`.
  pub record Drew (w w' : World) (app next : App host) (q : Bool) : Type 0 where
    pub area : Rect
    pub event : Event
    pub after : App host
    pub frame : List Drawn
    pub begun_world : World
    pub drawn_world : World
    pub begins : begin_frame w ≡ (begun_world, ok area)
    pub drew : ui r host app area ≡ done (after, frame)
    pub takes : end_frame begun_world frame ≡ (drawn_world, ok tt)
    pub offers : Offers t drawn_world event w'
    pub handled : handle_event host after event ≡ next
    pub quits : next.should_quit ≡ q

  abbrev pub Fits : World → App host → Turn t r host → Type 0
  Fits w app (ends w' next (ok u)) = Drew w w' app next true
  Fits w app (ends w' next (err e)) = Unit
  Fits w app (again w' next) = Drew w w' app next false

  module _ (w v u : World) (app : App host) (area : Rect) (after : App host) (frame : List Drawn)
      (begins : begin_frame w ≡ (v, ok area)) (drew : ui r host app area ≡ done (after, frame))
      (takes : end_frame v frame ≡ (u, ok tt)) (goes_on : after.should_quit ≡ false) where
    -- The terminal had an event, with which the round ended.
    by_event :
        (w' : World) (event : Event) (next : App host) (q : Bool)
        → Offers t u event w'
        → handle_event host after event ≡ next
        → next.should_quit ≡ q
        → Drew w w' app next q
    by_event w' event next q offers handled quits = record {
      area = area;
      event = event;
      after = after;
      frame = frame;
      begun_world = v;
      drawn_world = u;
      begins = begins;
      drew = drew;
      takes = takes;
      offers = offers;
      handled = handled;
      quits = quits;
    }

    by_quit :
        (w' : World) (event : Event) (next : App host) (q : Bool)
        → Offers t u event w'
        → handle_event host after event ≡ next
        → next.should_quit ≡ q
        → Fits w app (if q then ends w' next (ok tt) else again w' next)
    by_quit w' event next true offers handled quits =
        by_event w' event next true offers handled quits
    by_quit w' event next false offers handled quits =
        by_event w' event next false offers handled quits

    checked-Fits :
        (w' : World) (event : Event) (next : App host)
        → Offers t u event w'
        → handle_event host after event ≡ next
        → Fits w app (checked t r host w' next)
    unfolding checked
    checked-Fits w' event next offers handled =
        by_quit w' event next next.should_quit offers handled refl

    received-Fits :
        (p : World) (x : World × Result TermEvent)
        → t.poll u ≡ (p, ok true)
        → t.read p ≡ x
        → Fits w app (received t r host after x)
    unfolding received handle_event
    received-Fits p (w', err e) polls reads = tt
    received-Fits p (w', ok (key code true)) polls reads =
        checked-Fits w' (press code) (handle_event host after (press code)) (p, polls, reads) refl
    received-Fits p (w', ok (key code false)) polls reads =
        by_event w' no_press after false (inr (p, polls, inr (code, reads))) refl goes_on
    received-Fits p (w', ok other_event) polls reads =
        checked-Fits w' no_press after (inr (p, polls, inl reads)) refl

    polled-Fits : (x : World × Result Bool) → t.poll u ≡ x → Fits w app (polled t r host after x)
    unfolding polled handle_event
    polled-Fits (w', err e) polls = tt
    polled-Fits (w', ok true) polls = received-Fits w' (t.read w') polls refl
    polled-Fits (w', ok false) polls = checked-Fits w' no_press after (inl polls) refl

  drawn-Fits :
      (w v : World) (app : App host) (area : Rect) (after : App host) (frame : List Drawn)
      (x : World × Result (Unit {0}))
      → begin_frame w ≡ (v, ok area)
      → ui r host app area ≡ done (after, frame)
      → end_frame v frame ≡ x
      → after.should_quit ≡ false
      → Fits w app (drawn t r host after x)
  unfolding drawn
  drawn-Fits w v app area after frame (u, err e) begins drew takes goes_on = tt
  drawn-Fits w v app area after frame (u, ok z) begins drew takes goes_on =
      polled-Fits w v u app area after frame begins drew takes goes_on (t.poll u) refl

  pub begun-Fits :
      (w : World) (app : App host) (x : World × Result Rect) (turn : Turn t r host)
      → app.should_quit ≡ false
      → begin_frame w ≡ x
      → begun t r host app x ≡ done turn
      → Fits w app turn
  unfolding begun
  begun-Fits w app (v, err e) x goes_on begins h =
      let same : ends v app (err e) ≡ x = cc in subst (Fits w app) same tt
  begun-Fits w app (v, ok area) x goes_on begins h =
      let (y, drew, rest) = >>=-done (ui r host app area) _ h in
      let same : drawn t r host y.0 (end_frame v y.1) ≡ x = cc in
      let selected = (ui-selected r host app area).at y drew in
      subst (Fits w app) same (
        drawn-Fits w v app area y.0 y.1 (end_frame v y.1) begins drew refl
          (ap (λ a. a.should_quit) selected ∙ goes_on))
