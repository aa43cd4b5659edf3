-- ===== src/Tui/Ending.antt =====
-- Leaving the viewer: two keys end it, whatever it shows.
use tiny_binary_debugger.Base.{
  Yields-done, Yields->>=, Yields, ℕ, ◌+◌, ◌≤◌, ◌≡◌, refl, ap, ◌∙◌, ◌⊎◌, inl, inr, true, List, ◌∷◌,
  length, done, arith, Bool-cases,
}
use tiny_binary_debugger.Storage.{TraceEntry}
use tiny_binary_debugger.Tui.{Host, App, Mode, normal, search, help}
use tiny_binary_debugger.Tui.Draw.{ui}
use tiny_binary_debugger.Tui.Frames.{IsLayout, AllAscii, ui-selected, main_loop-IsDone}
use tiny_binary_debugger.Tui.Keys.{char, esc, Event, press, handle_event, handle_key}
use tiny_binary_debugger.Tui.Loop.{Input, Session, main_loop}
use tiny_binary_debugger.Tui.Screen.{Rect, Ratatui}
use tiny_binary_debugger.Tui.Valid.{IsValid}

-- The viewer has ended within `n` frames.
abbrev pub QuitWithin : (r : Ratatui) (host : Host) → ℕ → Session r host → Type 0
QuitWithin r host n s = (s.0.should_quit ≡ true) × (length s.1 ≤ n)

module _ (r : Ratatui) (host : Host) where
  esc_leaves :
      (app : App host) (mode : Mode)
      → ((handle_key host app esc mode).should_quit ≡ true)
        ⊎ ((handle_key host app esc mode).mode ≡ normal)
  unfolding handle_key
  esc_leaves app normal = inl refl
  esc_leaves app (search q) = inr refl
  esc_leaves app help = inr refl

  q_quits :
      (app : App host) (mode : Mode)
      → mode ≡ normal
      → (handle_key host app (char b'q') mode).should_quit ≡ true
  unfolding handle_key
  q_quits app normal e = refl
  q_quits app (search q) e = absurd (cc)
  q_quits app help e = absurd (cc)

  -- A round that ends the loop, or goes on.
  one_round :
      (n : ℕ) (app : App host) (area : Rect) (event : Event) (inputs : List Input)
      → ((x : App host)
          → x.mode ≡ app.mode
          → ((handle_event host x event).should_quit ≡ true)
            ⊎ Yields (QuitWithin r host n) (main_loop r host (handle_event host x event) inputs))
      → Yields (QuitWithin r host (n + 1)) (main_loop r host app ((area, event) ∷ inputs))
  unfolding main_loop
  one_round n app area event inputs next =
      Yields->>= _ (ui r host app area) _ (ui-selected r host app area) (λ x drew.
        elim (Bool-cases (handle_event host x.0 event).should_quit) [
          | inl quits ↦ rw quits (Yields-done _ _ (quits, omega arith))
          | inr stays ↦ rw stays (
              Yields->>= (QuitWithin r host n)
                (main_loop r host (handle_event host x.0 event) inputs) _
                (elim (next x.0 (ap (λ a. a.mode) drew)) [
                  | inl quits ↦ absurd (cc)
                  | inr later ↦ later
                ])
                (λ s q. Yields-done _ _ (q.0, omega (arith, q.1))))
        ])

  two_keys :
      (app : App host) (a b : Rect) (inputs : List Input)
      → Yields
          (QuitWithin r host 2)
          (main_loop r host app ((a, press esc) ∷ (b, press (char b'q')) ∷ inputs))
  unfolding handle_event
  two_keys app a b inputs = one_round 1 app a (press esc) _ (λ x same. elim (esc_leaves x x.mode) [
    | inl quits ↦ inl quits
    | inr rests ↦ inr (
        one_round 0 (handle_event host x (press esc)) b (press (char b'q')) inputs
          (λ y same'. inl (q_quits y y.mode (same' ∙ rests))))
  ])

-- From whatever state of the viewer, Esc and then q end it within two frames. The instructions are
-- to be ASCII texts, the state valid, and a layout to be split into as many areas as it has
-- constraints.
pub two_keys-quit :
    (r : Ratatui) (host : Host) (es : List TraceEntry) (app : App host) (a b : Rect)
    (inputs : List Input)
    → IsLayout r
    → AllAscii es
    → IsValid host es app
    → (s : Session r host) × (main_loop r host app
          ((a, press esc) ∷ (b, press (char b'q')) ∷ inputs)
        ≡ done s)
      × QuitWithin r host 2 s
two_keys-quit r host es app a b inputs layout ascii valid =
    let (s, e) = main_loop-IsDone r layout host es ascii app _ valid in
    (s, e, (two_keys r host app a b inputs).at s e)
