-- ===== src/Tui/Terminal/Serves.antt =====
-- The loop at a terminal that serves it returns, where the loop over the rounds quits.
use mathlib.Core.Path.{subst}
use tiny_binary_debugger.Base.{
  ℕ, suc, ◌≡◌, refl, ap, ◌∙◌, sym, Bool, true, false, inl, inr, some, List, [], ◌∷◌, length,
  if◌then◌else◌, ok, Outcome, done, ◌>>=◌, >>=-done,
}
use tiny_binary_debugger.Tui.{Host, App}
use tiny_binary_debugger.Tui.Draw.{ui}
use tiny_binary_debugger.Tui.Frames.{ui-selected, IsLayout, AllAscii}
use tiny_binary_debugger.Storage.{TraceEntry}
use tiny_binary_debugger.Tui.Valid.{IsValid}
use tiny_binary_debugger.Tui.Ending.{two_keys-quit}
use tiny_binary_debugger.Tui.Keys.{esc, char, Event, press, no_press, handle_event}
use tiny_binary_debugger.Tui.Loop
use tiny_binary_debugger.Tui.Loop.{Input, Session}
use tiny_binary_debugger.Tui.Screen.{Rect, Drawn, Ratatui}
use tiny_binary_debugger.Tui.Terminal.{
  Terminal, ends, again, checked, received, polled, drawn, begun, turn, main_loop,
}
use tiny_binary_debugger.Tui.Terminal.Turns.{Offers}

module _ (t : Terminal) where
  open t use {World, begin_frame, end_frame, poll, read}

  -- The terminal gives the rounds their areas and their events, and it takes every frame.
  abbrev pub Serves : World → List Input → Type 0
  Serves w [] = Unit
  Serves w ((area, event) ∷ inputs) =
      (v : World) × (begin_frame w ≡ (v, ok area))
      × ((frame : List Drawn)
          → (u : World) × (end_frame v frame ≡ (u, ok tt))
            × ((w' : World) × Offers t u event w' × Serves w' inputs))

module _ (t : Terminal) (r : Ratatui) (host : Host) where
  open t use {World, begin_frame, end_frame, poll, read}

  checked_on :
      (w : World) (app : App host) (q : Bool)
      → app.should_quit ≡ q
      → checked t r host w app ≡ (if q then ends w app (ok tt) else again w app)
  unfolding checked
  checked_on w app q e = ap (λ b. if b then ends w app (ok tt) else again w app) e

  polled_offer :
      (after : App host) (u w' : World) (event : Event)
      → after.should_quit ≡ false
      → Offers t u event w'
      → polled t r host after (poll u) ≡ checked t r host w' (handle_event host after event)
  unfolding polled received handle_event
  polled_offer after u w' (press code) goes_on (v, p, q) = rw (p, q) refl
  polled_offer after u w' no_press goes_on (inl p) = rw p refl
  polled_offer after u w' no_press goes_on (inr (v, p, inl q)) = rw (p, q) refl
  polled_offer after u w' no_press goes_on (inr (v, p, inr (code, q))) =
      rw (p, q) (sym (checked_on w' after false goes_on))

  turn_served :
      (app : App host) (area : Rect) (after : App host) (frame : List Drawn) (w v u w' : World)
      (event : Event)
      → after.should_quit ≡ false
      → ui r host app area ≡ done (after, frame)
      → begin_frame w ≡ (v, ok area)
      → end_frame v frame ≡ (u, ok tt)
      → Offers t u event w'
      → turn t r host w app ≡ done (checked t r host w' (handle_event host after event))
  unfolding turn begun drawn
  turn_served app area after frame w v u w' event goes_on drew begins takes offers =
      rw (begins, drew, takes) (ap done (polled_offer after u w' event goes_on offers))

  abbrev Returns : ℕ → World → App host → App host → Type 0
  Returns fuel w app last =
      (w' : World) × (main_loop t r host fuel w app ≡ some (done (w', last, ok tt)))

  goes_on_with :
      (n : ℕ) (w w' : World) (app next last : App host)
      → turn t r host w app ≡ done (checked t r host w' next)
      → next.should_quit ≡ false
      → Returns n w' next last
      → Returns (suc n) w app last
  unfolding main_loop
  goes_on_with n w w' app next last turned stays (v, p) =
      (v, rw (turned, main_loop, checked_on w' next false stays) p)

  -- After a round that left the viewer as `next`.
  after_turn :
      (n : ℕ) (w w' : World) (app next last : App host) (frame : List Drawn)
      (frames : List (List Drawn)) (go_on : Outcome (Session r host)) (q : Bool)
      → turn t r host w app ≡ done (checked t r host w' next)
      → next.should_quit ≡ q
      → ((fs : List (List Drawn))
          → next.should_quit ≡ false
          → go_on ≡ done (last, fs)
          → Returns n w' next last)
      → if◌then◌else◌ {A = Outcome (Session r host)} q
          (done (next, frame ∷ []))
          (◌>>=◌ {B = Session r host} go_on (λ s. done (s.0, frame ∷ s.1)))
        ≡ done (last, frames)
      → Returns (suc n) w app last
  unfolding main_loop
  after_turn n w w' app next last frame frames go_on true turned e later h =
      let same : next ≡ last = cc in
      (
        w',
        rw (turned, main_loop, checked_on w' next true e)
            (ap (λ a. some (done (w', a, ok tt))) same),
      )
  after_turn n w w' app next last frame frames go_on false turned e later h =
      let ((l, fs), ran, back) = >>=-done go_on _ h in
      let same : l ≡ last = cc in
      goes_on_with n w w' app next last turned e
        (later fs e (subst (λ a. go_on ≡ done (a, fs)) same ran))

  -- The loop at a terminal returns, without an error and after at most as many rounds as it is
  -- served, with the viewer with which the loop of `Tui.Loop` quits on these rounds. `should_quit`
  -- is not to be set at the start.
  pub main_loop-Returns :
      (inputs : List Input) (w : World) (app last : App host) (frames : List (List Drawn))
      → app.should_quit ≡ false
      → Serves t w inputs
      → Loop.main_loop r host app inputs ≡ done (last, frames)
      → last.should_quit ≡ true
      → Returns (length inputs) w app last
  unfolding main_loop Loop.main_loop
  main_loop-Returns [] w app last frames goes_on serves h quits =
      let same : app ≡ last = cc in absurd (let p = ap (λ a. a.should_quit) same in cc)
  main_loop-Returns ((area, event) ∷ inputs) w app last frames goes_on serves h quits =
      let (v, begins, after_frame) = serves in
      let ((after, frame), drew, rest) = >>=-done (ui r host app area) _ h in
      let (u, takes, (w', offers, later)) = after_frame frame in
      let selected = (ui-selected r host app area).at (after, frame) drew in
      let turned =
        turn_served app area after frame w v u w' event (ap (λ a. a.should_quit) selected ∙ goes_on)
          drew begins takes offers in
      after_turn (length inputs) w w' app (handle_event host after event) last frame frames
        (Loop.main_loop r host (handle_event host after event) inputs)
        (handle_event host after event).should_quit turned refl
        (λ fs stays ran.
          main_loop-Returns inputs w' (handle_event host after event) last fs stays later ran quits)
        rest

-- At a terminal that serves it the keys Esc and q, the loop returns after at most two rounds, without
-- an error, from whatever state of the viewer. The instructions are to be ASCII texts, the state
-- valid and without `should_quit`, and a layout to be split into as many areas as it has constraints.
pub two_keys-return :
    (t : Terminal) (r : Ratatui) (host : Host) (es : List TraceEntry) (app : App host) (a b : Rect)
    (w : t.World)
    → IsLayout r
    → AllAscii es
    → IsValid host es app
    → app.should_quit ≡ false
    → Serves t w ((a, press esc) ∷ (b, press (char b'q')) ∷ [])
    → (last : App host) × (w' : t.World) × (main_loop t r host 2 w app
        ≡ some (done (w', last, ok tt)))
two_keys-return t r host es app a b w layout ascii valid goes_on serves =
    let ((last, frames), ran, (quits, few)) =
      two_keys-quit r host es app a b [] layout ascii valid in
    let (v, p) = main_loop-Returns t r host _ w app last frames goes_on serves ran quits in
    (last, v, p)
