-- ===== src/Viewing/Run/Restores.antt =====
-- What `run` leaves of the modes of the terminal.
use mathlib.Core.Path.{subst}
use tiny_binary_debugger.Base.{
  ℕ, ◌≡◌, refl, ap, sym, ◌∙◌, ◌⊎◌, inl, inr, Bool, true, false, Option, none, some, Result, ok, err,
  Outcome, done, panicked,
}
use tiny_binary_debugger.Stats.{Orders}
use tiny_binary_debugger.Storage.File.{Files}
use tiny_binary_debugger.Text.{Text}
use tiny_binary_debugger.Tui.{Host, App}
use tiny_binary_debugger.Tui.Screen.{Ratatui}
use tiny_binary_debugger.Tui.Terminal.{Terminal, LoopResult, main_loop}
use tiny_binary_debugger.Viewing.{open_tui}
use tiny_binary_debugger.Viewing.Run.{
  Returned, left_screen, left_raw_mode, after_loop, with_terminal, with_screen, with_raw_mode,
  with_app, run,
}

-- What crossterm says of the two modes: raw mode, and the alternate screen. Each call switches its
-- own mode if it succeeds, and leaves the other one as it is; raw mode that could not be switched on
-- is as it was, and the making of the terminal touches neither.
pub record Modes (t : Terminal) : Type 0 where
  pub raw : t.World → Bool
  pub alternate : t.World → Bool
  pub enabled : (w v : t.World) → t.enable_raw_mode w ≡ (v, ok tt) → raw v ≡ true
  pub not_enabled : (w v : t.World) (e : Text) → t.enable_raw_mode w ≡ (v, err e) → raw v ≡ raw w
  pub enable : (w : t.World) → alternate (t.enable_raw_mode w).0 ≡ alternate w
  pub enter : (w : t.World) → raw (t.enter_alternate_screen w).0 ≡ raw w
  pub entered : (w v : t.World) → t.enter_alternate_screen w ≡ (v, ok tt) → alternate v ≡ true
  pub make :
      (w : t.World)
      → (raw (t.new_terminal w).0 ≡ raw w) × (alternate (t.new_terminal w).0 ≡ alternate w)
  pub disabled : (w v : t.World) → t.disable_raw_mode w ≡ (v, ok tt) → raw v ≡ false
  pub leave : (w : t.World) → raw (t.leave_alternate_screen w).0 ≡ raw w
  pub left : (w v : t.World) → t.leave_alternate_screen w ≡ (v, ok tt) → alternate v ≡ false

module _ (host : Host) (r : Ratatui) (t : Terminal) (m : Modes t) where
  open t use {
    World, enable_raw_mode, disable_raw_mode, enter_alternate_screen, leave_alternate_screen,
    new_terminal,
  }

  -- Both modes are off.
  abbrev pub IsRestored : World → Type 0
  IsRestored w = (m.raw w ≡ false) × (m.alternate w ≡ false)

  -- The loop has left the terminal as `w`, and has returned `back`: raw mode is switched off and the
  -- alternate screen left, or one of the two failed, and its error is returned.
  abbrev pub Leaves : World → Result (Unit {0}) → Returned t → Type 0
  Leaves w back x =
      ((v : World) × (e : Text) × (disable_raw_mode w ≡ (v, err e)) × (x ≡ (v, err e)))
      ⊎ ((v : World) × (disable_raw_mode w ≡ (v, ok tt))
          × (((u : World) × (e : Text) × (leave_alternate_screen v ≡ (u, err e))
                × (x ≡ (u, err e))
                × (m.raw u ≡ false))
              ⊎ ((u : World) × (leave_alternate_screen v ≡ (u, ok tt))
                  × (x ≡ (u, back))
                  × IsRestored u)))

  -- The terminal of ratatui is made: if that fails, both modes are still on; else the loop
  -- runs.
  abbrev pub Makes : ℕ → App host → World → Returned t → Type 0
  Makes fuel app w x =
      ((v : World) × (e : Text) × (new_terminal w ≡ (v, err e))
        × (x ≡ (v, err e))
        × (m.raw v ≡ true)
        × (m.alternate v ≡ true))
      ⊎ ((v : World) × (new_terminal w ≡ (v, ok tt))
          × ((u : World) × (last : App host) × (back : Result (Unit {0})) × (main_loop t r host fuel
                  v app
                ≡ some (done (u, last, back)))
              × Leaves u back x))

  -- The alternate screen is entered: if that fails, raw mode is still on.
  abbrev pub Enters : ℕ → App host → World → Returned t → Type 0
  Enters fuel app w x =
      ((v : World) × (e : Text) × (enter_alternate_screen w ≡ (v, err e))
        × (x ≡ (v, err e))
        × (m.raw v ≡ true))
      ⊎ ((v : World) × (enter_alternate_screen w ≡ (v, ok tt)) × Makes fuel app v x)

  -- Raw mode is switched on: if that fails, both modes are off.
  abbrev pub Enables : ℕ → App host → World → Returned t → Type 0
  Enables fuel app w x =
      ((v : World) × (e : Text) × (enable_raw_mode w ≡ (v, err e))
        × (x ≡ (v, err e))
        × IsRestored v)
      ⊎ ((v : World) × (enable_raw_mode w ≡ (v, ok tt)) × Enters fuel app v x)

  -- The file is read first: if that fails, the terminal is as it was.
  abbrev pub Concludes : ℕ → World → Result (App host) → Returned t → Type 0
  Concludes fuel w (err e) x = x ≡ (w, err e)
  Concludes fuel w (ok app) x = Enables fuel app w x

module _ (f : Files) (orders : Orders) (host : Host) (r : Ratatui) (t : Terminal)
    (m : Modes t) where
  open t use {
    World, enable_raw_mode, disable_raw_mode, enter_alternate_screen, leave_alternate_screen,
    new_terminal,
  }

  left_screen-Leaves :
      (back : Result (Unit {0})) (w v : World) (y : Returned t)
      → disable_raw_mode w ≡ (v, ok tt)
      → leave_alternate_screen v ≡ y
      → Leaves host r t m w back (left_screen f orders host r t back y)
  unfolding left_screen
  left_screen-Leaves back w v (u, err e) p q =
      inr
        (v, p, inl (u, e, q, refl, ap m.raw (ap (λ y. y.0) (sym q)) ∙ m.leave v ∙ m.disabled w v p))
  left_screen-Leaves back w v (u, ok z) p q = inr (
    v,
    p,
    inr (
      u,
      q,
      refl,
      (ap m.raw (ap (λ y. y.0) (sym q)) ∙ m.leave v ∙ m.disabled w v p, m.left v u q),
    ),
  )

  left_raw_mode-Leaves :
      (back : Result (Unit {0})) (w : World) (y : Returned t)
      → disable_raw_mode w ≡ y
      → Leaves host r t m w back (left_raw_mode f orders host r t back y)
  unfolding left_raw_mode
  left_raw_mode-Leaves back w (v, err e) p = inl (v, e, p, refl)
  left_raw_mode-Leaves back w (v, ok z) p =
      left_screen-Leaves back w v (leave_alternate_screen v) p refl

  after_loop-Leaves :
      (o : Option (Outcome (LoopResult t r host))) (x : Returned t)
      → after_loop f orders host r t o ≡ some (done x)
      → (u : World) × (last : App host) × (back : Result (Unit {0})) × (o
          ≡ some (done (u, last, back)))
        × Leaves host r t m u back x
  unfolding after_loop
  after_loop-Leaves none x h = absurd (cc)
  after_loop-Leaves (some panicked) x h = absurd (cc)
  after_loop-Leaves (some (done (w, app, back))) x h =
      let same : left_raw_mode f orders host r t back (disable_raw_mode w) ≡ x = cc in
      (
        w,
        app,
        back,
        refl,
        subst (Leaves host r t m w back) same
            (left_raw_mode-Leaves back w (disable_raw_mode w) refl),
      )

  with_terminal-Makes :
      (fuel : ℕ) (app : App host) (w : World) (y x : Returned t)
      → new_terminal w ≡ y
      → m.raw w ≡ true
      → m.alternate w ≡ true
      → with_terminal f orders host r t fuel app y ≡ some (done x)
      → Makes host r t m fuel app w x
  unfolding with_terminal
  with_terminal-Makes fuel app w (v, ok z) x e on shown h =
      inr (v, e, after_loop-Leaves (main_loop t r host fuel v app) x h)
  with_terminal-Makes fuel app w (v, err msg) x e on shown h = inl (
    v,
    msg,
    e,
    cc,
    ap m.raw (ap (λ y. y.0) (sym e)) ∙ (m.make w).0 ∙ on,
    ap m.alternate (ap (λ y. y.0) (sym e)) ∙ (m.make w).1 ∙ shown,
  )

  with_screen-Enters :
      (fuel : ℕ) (app : App host) (w : World) (y x : Returned t)
      → enter_alternate_screen w ≡ y
      → m.raw w ≡ true
      → with_screen f orders host r t fuel app y ≡ some (done x)
      → Enters host r t m fuel app w x
  unfolding with_screen
  with_screen-Enters fuel app w (v, ok z) x e on h =
      let still = ap m.raw (ap (λ y. y.0) (sym e)) ∙ m.enter w ∙ on in
      inr (v, e, with_terminal-Makes fuel app v (new_terminal v) x refl still (m.entered w v e) h)
  with_screen-Enters fuel app w (v, err msg) x e on h =
      inl (v, msg, e, cc, ap m.raw (ap (λ y. y.0) (sym e)) ∙ m.enter w ∙ on)

  with_raw_mode-Enables :
      (fuel : ℕ) (app : App host) (w : World) (y x : Returned t)
      → IsRestored host r t m w
      → enable_raw_mode w ≡ y
      → with_raw_mode f orders host r t fuel app y ≡ some (done x)
      → Enables host r t m fuel app w x
  unfolding with_raw_mode
  with_raw_mode-Enables fuel app w (v, ok z) x off e h =
      inr
        (v, e, with_screen-Enters fuel app v (enter_alternate_screen v) x refl (m.enabled w v e) h)
  with_raw_mode-Enables fuel app w (v, err msg) x off e h = inl (
    v,
    msg,
    e,
    cc,
    (m.not_enabled w v msg e ∙ off.0, ap m.alternate (ap (λ y. y.0) (sym e)) ∙ m.enable w ∙ off.1),
  )

  with_app-Concludes :
      (fuel : ℕ) (w : World) (o : Result (App host)) (x : Returned t)
      → IsRestored host r t m w
      → with_app f orders host r t fuel w o ≡ some (done x)
      → Concludes host r t m fuel w o x
  unfolding with_app
  with_app-Concludes fuel w (err msg) x off h = cc
  with_app-Concludes fuel w (ok app) x off h =
      with_raw_mode-Enables fuel app w (enable_raw_mode w) x off refl h

  -- A run of the terminal viewer that starts with both modes off and returns leaves the terminal
  -- as it was if the file cannot be read, and both modes off if raw mode cannot be switched on; if
  -- the alternate screen cannot be entered, raw mode is still on, and if the terminal cannot be
  -- made, both modes are, and the error is returned; else the loop ends, and both modes are off
  -- with the loop's result returned, or switching raw mode off fails and that error is returned,
  -- or leaving the alternate screen fails and that error is returned with raw mode off.
  pub run-Concludes :
      (fuel : ℕ) (w : World) (disk : f.Disk) (trace_file : Text) (x : Returned t)
      → IsRestored host r t m w
      → run f orders host r t fuel w disk trace_file ≡ some (done x)
      → Concludes host r t m fuel w (open_tui f orders host disk trace_file) x
  unfolding run
  run-Concludes fuel w disk trace_file x off h =
      with_app-Concludes fuel w (open_tui f orders host disk trace_file) x off h
