-- ===== src/Launcher/Started.antt =====
-- When a launch succeeds, and what it hands to the system.
use tiny_binary_debugger.Base.{
  ℕ, ◌≡◌, refl, ap, sym, ◌∙◌, ◌⊎◌, inl, inr, true, false, Option, none, some, List, [], ◌∷◌, ◌++◌,
  Result, ok, err, arith, Bool-cases, All,
}
use tiny_binary_debugger.Base.Int.{ℤ}
use tiny_binary_debugger.Os.{WaitStatus, stopped, exited, signaled, other}
use tiny_binary_debugger.Text.{Text, codes}
use tiny_binary_debugger.Launcher.{
  after_exec, ForkResult, child, parent, Processes, ProcessLauncher, returns, has_nul, c_string,
  c_strings, run_child, wait_child, after_fork, launch,
}

abbrev pub NoNul : List Text → Type 0
NoNul = All (λ a. has_nul a ≡ false)

-- The first of the texts with a NUL in it, of which `P` holds.
abbrev pub FirstNul : List Text → (Text → Type 0) → Type 0
FirstNul args P =
    (before : List Text) × (a : Text) × (after : List Text) × (args ≡ before ++ a ∷ after)
    × NoNul before
    × (has_nul a ≡ true)
    × P a

module _ (p : Processes) where
  open p use {World, fork, traceme, execvp, waitpid, nul_error}

  c_strings_lem :
      (args : List Text)
      → ((c_strings p args ≡ ok args) × NoNul args)
        ⊎ (FirstNul args (λ a. c_strings p args ≡ err (codes "Invalid argument: " ++ nul_error a)))
  unfolding c_strings c_string
  c_strings_lem [] = inl (refl, tt)
  c_strings_lem (a ∷ args) = elim (Bool-cases (has_nul a)) [
    | inl bad ↦ inr ([], a, args, refl, tt, bad, rw bad refl)
    | inr fine ↦ elim (c_strings_lem args) [
      | inl (e, all) ↦ inl (rw (fine, e) refl, (fine, all))
      | inr (before, b, after, split, none_before, bad, e) ↦
          inr (
            a ∷ before,
            b,
            after,
            ap (λ l. a ∷ l) split,
            (fine, none_before),
            bad,
            rw (fine, e) refl,
          )
    ]
  ]

  -- A program name with a NUL in it, or else the first argument with one, ends the launch with an
  -- error that tells of it, before any system call; if none has a NUL, the process is forked, and
  -- the program and all of its arguments are handed on, the program's name as the first of them.
  pub launch_cases :
      (w : World) (program : Text) (args : List Text)
      → ((has_nul program ≡ true)
          × (launch p w program args
              ≡ (w, returns (err (codes "Invalid program name: " ++ nul_error program)))))
        ⊎ ((has_nul program ≡ false)
            × FirstNul args (λ a.
              launch p w program args
              ≡ (w, returns (err (codes "Invalid argument: " ++ nul_error a)))))
        ⊎ (NoNul (program ∷ args)
            × (launch p w program args ≡ after_fork p program (program ∷ args) (fork w)))
  unfolding launch c_string
  launch_cases w program args = elim (Bool-cases (has_nul program)) [
    | inl bad ↦ inl (bad, rw bad refl)
    | inr fine ↦ elim (c_strings_lem args) [
      | inl (e, all) ↦ inr (inr ((fine, all), rw (fine, e) refl))
      | inr (before, b, after, split, none_before, bad, e) ↦
          inr (inl (fine, (before, b, after, split, none_before, bad, rw (fine, e) refl)))
    ]
  ]

  exec_never_returns :
      (program : Text) (c_args : List Text) (x : World × Option Text) (w' : World)
      (r : Result ProcessLauncher)
      → after_exec p program c_args x ≡ (w', returns r)
      → ⊥
  unfolding after_exec
  exec_never_returns program c_args (w, none) w' r h = grind arith
  exec_never_returns program c_args (w, some e) w' r h = grind arith

  child_never_returns :
      (program : Text) (c_args : List Text) (x : World × Result (Unit {0})) (w' : World)
      (r : Result ProcessLauncher)
      → run_child p program c_args x ≡ (w', returns r)
      → ⊥
  unfolding run_child
  child_never_returns program c_args (w, err e) w' r h = grind arith
  child_never_returns program c_args (w, ok u) w' r h =
      exec_never_returns program c_args (execvp w program c_args) w' r h

  wait_child-ok :
      (pid : ℤ) (x : World × Result WaitStatus) (w' : World) (l : ProcessLauncher)
      → wait_child p pid x ≡ (w', returns (ok l))
      → (l.pid ≡ pid) × ((sig : ℕ) × (x ≡ (w', ok (stopped sig))))
  unfolding wait_child
  wait_child-ok pid (w, ok (stopped sig)) w' l h = (ground arith, (sig, ground arith))
  wait_child-ok pid (w, ok (exited code)) w' l h = absurd (grind arith)
  wait_child-ok pid (w, ok (signaled sig)) w' l h = absurd (grind arith)
  wait_child-ok pid (w, ok (other name)) w' l h = absurd (grind arith)
  wait_child-ok pid (w, err e) w' l h = absurd (grind arith)

  -- A fork that succeeded.
  after_fork-ok :
      (program : Text) (c_args : List Text) (x : World × Result ForkResult) (w' : World)
      (l : ProcessLauncher)
      → after_fork p program c_args x ≡ (w', returns (ok l))
      → (x.1 ≡ ok (parent l.pid)) × ((sig : ℕ) × (waitpid x.0 l.pid ≡ (w', ok (stopped sig))))
  unfolding after_fork
  after_fork-ok program c_args (w, ok child) w' l h =
      absurd (child_never_returns program c_args (traceme w) w' (ok l) h)
  after_fork-ok program c_args (w, ok (parent pid)) w' l h =
      let (same, (sig, e)) = wait_child-ok pid (waitpid w pid) w' l h in
      (ap (λ q. ok (parent q)) (sym same), (sig, ap (waitpid w) same ∙ e))
  after_fork-ok program c_args (w, err e) w' l h = absurd (grind arith)

  -- A launch that succeeds does so in the parent, for the child of the fork, once a wait has found
  -- that child stopped.
  pub launch-stopped :
      (w w' : World) (program : Text) (args : List Text) (l : ProcessLauncher)
      → launch p w program args ≡ (w', returns (ok l))
      → ((fork w).1 ≡ ok (parent l.pid))
        × ((sig : ℕ) × (waitpid (fork w).0 l.pid ≡ (w', ok (stopped sig))))
  launch-stopped w w' program args l h = elim (launch_cases w program args) [
    | inl (bad, e) ↦ absurd (let q = sym e ∙ h in grind arith)
    | inr (inl (fine, (before, a, after, split, none_before, bad, e))) ↦
        absurd (let q = sym e ∙ h in grind arith)
    | inr (inr (all, e)) ↦ after_fork-ok program (program ∷ args) (fork w) w' l (sym e ∙ h)
  ]
