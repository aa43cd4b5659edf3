-- ===== src/Tui/Terminal/Rounds.antt =====
-- The loop at a terminal is the loop over the rounds that it gets.
use mathlib.Core.Path.{sym, subst}
use tiny_binary_debugger.Base.{
  ℕ, zero, suc, ◌≡◌, refl, ap, ◌∙◌, true, false, Option, some, List, [], ◌∷◌, ok, err, Outcome,
  done, panicked,
}
use tiny_binary_debugger.Tui.{Host, App}
use tiny_binary_debugger.Tui.Draw.{ui}
use tiny_binary_debugger.Tui.Keys.{handle_event}
use tiny_binary_debugger.Tui.Loop
use tiny_binary_debugger.Tui.Loop.{Input, Session}
use tiny_binary_debugger.Tui.Screen.{Drawn, Ratatui}
use tiny_binary_debugger.Tui.Terminal.{LoopResult, Terminal, Turn, ends, again, turn, main_loop}
use tiny_binary_debugger.Tui.Terminal.Turns.{Offers, Drew, Fits, begun-Fits}

module _ (t : Terminal) (r : Ratatui) (host : Host) where
  open t use {World, begin_frame, end_frame}

  -- From `w` to `w'` the terminal gave the rounds their areas, took the frames that the viewer drew,
  -- and had the events.
  abbrev pub Gave : World → App host → List Input → World → Type 0
  Gave w app [] w' = w ≡ w'
  Gave w app ((area, event) ∷ inputs) w' =
      (v u x : World) × (after : App host) × (frame : List Drawn) × (begin_frame w ≡ (v, ok area))
      × (ui r host app area ≡ done (after, frame))
      × (end_frame v frame ≡ (u, ok tt))
      × Offers t u event x
      × Gave x (handle_event host after event) inputs w'

  -- The loop over the rounds that the terminal gave ends with the viewer `last`, which has set
  -- `should_quit`.
  abbrev pub Reaches : World → App host → World → App host → Type 0
  Reaches w app w' last =
      (inputs : List Input) × (frames : List (List Drawn)) × Gave w app inputs w'
      × (Loop.main_loop r host app inputs ≡ done (last, frames))
      × (last.should_quit ≡ true)

  Drew-ends :
      (w w' : World) (app next : App host)
      → Drew t r host w w' app next true
      → Reaches w app w' next
  unfolding Loop.main_loop
  Drew-ends w w' app next d =
      let quits = ap (λ a. a.should_quit) d.handled ∙ d.quits in
      (
        (d.area, d.event) ∷ [],
        d.frame ∷ [],
        (
          d.begun_world, d.drawn_world, w', d.after, d.frame, d.begins, d.drew, d.takes, d.offers,
          refl,
        ),
        rw (d.drew, quits) (ap (λ a. done (a, d.frame ∷ [])) d.handled),
        d.quits,
      )

  Drew-again :
      (w v w' : World) (app next last : App host)
      → Drew t r host w v app next false
      → Reaches v next w' last
      → Reaches w app w' last
  unfolding Loop.main_loop
  Drew-again w v w' app next last d (inputs, frames, gave, ran, quits) =
      let stays = ap (λ a. a.should_quit) d.handled ∙ d.quits in
      let go_on = ap (λ a. Loop.main_loop r host a inputs) d.handled ∙ ran in
      (
        (d.area, d.event) ∷ inputs,
        d.frame ∷ frames,
        (
          d.begun_world,
          d.drawn_world,
          v,
          d.after,
          d.frame,
          d.begins,
          d.drew,
          d.takes,
          d.offers,
          subst (λ a. Gave v a inputs w') (sym d.handled) gave,
        ),
        rw (d.drew, stays, go_on) refl,
        quits,
      )

  -- If the loop at a terminal returns without an error, then on the rounds that the terminal gave it,
  -- the areas of its frames and the events that it polled and read, a key that is not pressed being
  -- none, the loop of `Tui.Loop` ends with the same viewer, and the viewer has set `should_quit`. It
  -- is not to be set at the start.
  pub main_loop-rounds :
      (fuel : ℕ) (w w' : World) (app last : App host)
      → app.should_quit ≡ false
      → main_loop t r host fuel w app ≡ some (done (w', last, ok tt))
      → Reaches w app w' last
  unfolding main_loop turn
  main_loop-rounds zero w w' app last goes_on h = absurd (cc)
  main_loop-rounds (suc fuel) w w' app last goes_on h =
      by_turn (turn t r host w app)
        (λ x e. begun-Fits t r host w app (t.begin_frame w) x goes_on refl e)
        (λ v a q p. main_loop-rounds fuel v w' a last q p) h
    where
      by_turn :
          (o : Outcome (Turn t r host))
          → ((x : Turn t r host) → o ≡ done x → Fits t r host w app x)
          → ((v : World) (a : App host)
              → a.should_quit ≡ false
              → main_loop t r host fuel v a ≡ some (done (w', last, ok tt))
              → Reaches v a w' last)
          → ◌≡◌ {A = Option (Outcome (LoopResult t r host))}
              (elim o [
                | panicked ↦ some panicked
                | done (ends v a result) ↦ some (done (v, a, result))
                | done (again v a) ↦ main_loop t r host fuel v a
              ])
              (some (done (w', last, ok tt)))
          → Reaches w app w' last
      by_turn panicked fits later p = absurd (cc)
      by_turn (done (ends v a (err e))) fits later p = absurd (cc)
      by_turn (done (ends v a (ok u))) fits later p =
          let ended = Drew-ends w v app a (fits _ refl) in
          let here : v ≡ w' = cc in
          let same : a ≡ last = cc in
          subst (λ b. Reaches w app w' b) same (subst (λ x. Reaches w app x a) here ended)
      by_turn (done (again v a)) fits later p =
          let d = fits (again v a) refl in Drew-again w v w' app a last d (later v a d.quits p)
