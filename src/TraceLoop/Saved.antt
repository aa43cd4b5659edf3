-- ===== src/TraceLoop/Saved.antt =====
-- The file that a finished trace leaves.
use mathlib.Core.Path.{subst}
use tiny_binary_debugger.Base.{
  ℕ, suc, ◌+◌, ◌^◌, ◌<◌, ◌≡◌, refl, ap, sym, ◌∙◌, Bool, Option, none, some, List, Result, ok, err,
  Outcome, done, panicked, expect, arith, inl, inr,
}
use tiny_binary_debugger.Base.Int.{ℤ}
use tiny_binary_debugger.Os.{Arch, Os}
use tiny_binary_debugger.Storage.File.{Files, IsFaithful, save, load}
use tiny_binary_debugger.Storage.RoundTrip.{load-save}
use tiny_binary_debugger.Text.{Text}
use tiny_binary_debugger.Tracer.Step.{
  StepResult, recorded, process_exited, error, Tracer, single_step, new,
}
use tiny_binary_debugger.Tracer.Trace.{single_step_cases}
use tiny_binary_debugger.Tracer.History.{IsHistory, single_step-IsHistory, new-IsHistory}
use tiny_binary_debugger.TraceLoop.{
  detach, finish_with, Counters, on_entry, LoopEnd, stop, next, round_of_entry, round, SessionEnd,
  finish, finish_run, start_with, trace_loop,
}
use tiny_binary_debugger.TraceLoop.Rule.{IsKept, run_inv}

module _ {arch : Arch} (os : Os arch) where
  open os use {World}

  entry_tracer :
      (t : Tracer) (w : World) (lines : List Text) (o : Outcome (Counters × List Text))
      (s' : LoopEnd World)
      → round_of_entry os t w lines o ≡ done (next s')
      → (s'.tracer ≡ t) × (s'.world ≡ w)
  unfolding round_of_entry
  entry_tracer t w lines panicked s' h = absurd (grind arith)
  entry_tracer t w lines (done (c, more)) s' h = (ground arith, ground arith)

  -- The tracer and the world after a round are those that the step left.
  pub next_tracer :
      (c : Counters) (lines : List Text) (x : StepResult × Tracer × World) (s' : LoopEnd World)
      → round os c lines x ≡ done (next s')
      → (s'.tracer ≡ x.1) × (s'.world ≡ x.2)
  unfolding round
  next_tracer c lines (recorded entry, t, w) s' h = entry_tracer t w lines (on_entry c entry) s' h
  next_tracer c lines (process_exited code, t, w) s' h = absurd (grind arith)
  next_tracer c lines (error m, t, w) s' h = (ground arith, ground arith)

  pub entry_no_stop :
      (t : Tracer) (w : World) (lines : List Text) (o : Outcome (Counters × List Text))
      (s' : LoopEnd World)
      → round_of_entry os t w lines o ≡ done (stop s')
      → ⊥
  unfolding round_of_entry
  entry_no_stop t w lines panicked s' h = grind arith
  entry_no_stop t w lines (done (c, more)) s' h = grind arith

  pub stop_tracer :
      (c : Counters) (lines : List Text) (x : StepResult × Tracer × World) (s' : LoopEnd World)
      → round os c lines x ≡ done (stop s')
      → (s'.tracer ≡ x.1) × (s'.world ≡ x.2)
  unfolding round
  stop_tracer c lines (recorded entry, t, w) s' h =
      absurd (entry_no_stop t w lines (on_entry c entry) s' h)
  stop_tracer c lines (process_exited code, t, w) s' h = (ground arith, ground arith)
  stop_tracer c lines (error m, t, w) s' h = (ground arith, ground arith)

  -- A history from the world `start`, for the path `output`, with room for `n` more steps.
  abbrev pub HasRoom : World → Text → ℕ → Tracer → World → Type 0
  HasRoom start output n t w =
      IsHistory os start t w × (t.db.path ≡ output) × (t.step_count + n < 2 ^ 64)

  single_step-HasRoom :
      (start : World) (output : Text) (n : ℕ) (t : Tracer) (w : World)
      → HasRoom start output (suc n) t w
      → HasRoom start output n (single_step os t w).1 (single_step os t w).2
  single_step-HasRoom start output n t w (trace, path, room) = (
    single_step-IsHistory os start t w (omega arith) trace,
    elim (single_step_cases os t w) [
      | inl (e, k) ↦ ap (λ d. d.path) k.db ∙ path
      | inr (e, a, p) ↦ ap (λ d. d.path) a.db ∙ path
    ],
    elim (single_step_cases os t w) [
      | inl (e, k) ↦ omega (arith, k.step_count)
      | inr (e, a, p) ↦ ground (arith, a.step_count)
    ],
  )

  -- The same of what stands after a round.
  round-HasRoom :
      (start : World) (output : Text) (n : ℕ) (s s' : LoopEnd World)
      → HasRoom start output (suc n) s.tracer s.world
      → (s'.tracer ≡ (single_step os s.tracer s.world).1)
        × (s'.world ≡ (single_step os s.tracer s.world).2)
      → HasRoom start output n s'.tracer s'.world
  round-HasRoom start output n s s' p (tracer, world) =
      subst (λ t. HasRoom start output n t s'.world) (sym tracer)
        (subst (HasRoom start output n (single_step os s.tracer s.world).1) (sym world)
          (single_step-HasRoom start output n s.tracer s.world p))

  room_kept :
      (start : World) (output : Text)
      → IsKept os
          (λ n s. HasRoom start output n s.tracer s.world)
          (λ s. HasRoom start output 0 s.tracer s.world)
  room_kept start output = record {
    on_next = λ n s s' p e.
        round-HasRoom start output n s s' p
          (next_tracer s.counters s.lines (single_step os s.tracer s.world) s' e);
    on_stop = λ n s s' p e.
        let (a, b, c) =
          round-HasRoom start output n s s' p
            (stop_tracer s.counters s.lines (single_step os s.tracer s.world) s' e) in
        (a, b, omega arith);
    on_halt = λ n s lines p. (p.0, p.1, omega arith);
  }

module _ {arch : Arch} (os : Os arch) (f : Files) (exe : Text) (faithful : IsFaithful f) where
  -- Steps from the world `start` have made the trace, the process was let go after them, and `load`
  -- restores the database.
  abbrev pub HasSaved : os.World → Text → SessionEnd os f exe → Type 0
  HasSaved start output z =
      (w : os.World) × IsHistory os start z.loop.tracer w
      × (z.loop.world ≡ detach os z.loop.tracer w)
      × (load f z.disk output ≡ ok z.loop.tracer.db)

  finish_with-done :
      (output : Text) (s : LoopEnd os.World) (x : f.Disk × Result (Unit {0}))
      (z : SessionEnd os f exe)
      → finish_with os f exe output s x ≡ done z
      → (x ≡ (z.disk, ok tt))
        × (z.loop.tracer ≡ s.tracer)
        × (z.loop.world ≡ detach os s.tracer s.world)
  unfolding finish_with
  finish_with-done output s (disk, err e) z h = absurd (grind arith)
  finish_with-done output s (disk, ok u) z h = (ground arith, ground arith, ground arith)

  finish_saved :
      (start : os.World) (disk : f.Disk) (output : Text) (s : LoopEnd os.World)
      (z : SessionEnd os f exe)
      → HasRoom os start output 0 s.tracer s.world
      → finish os f exe disk output s ≡ done z
      → HasSaved start output z
  unfolding finish
  finish_saved start disk output s z (history, path, room) h =
      let (saved, same, world) = finish_with-done output s (save f disk s.tracer.db) z h in
      let loaded = load-save f faithful disk z.disk s.tracer.db saved in
      (
        s.world,
        subst (λ t. IsHistory os start t s.world) (sym same) history,
        world ∙ ap (λ t. detach os t s.world) (sym same),
        subst (λ t. load f z.disk output ≡ ok t.db) (sym same)
            (subst (λ p. load f z.disk p ≡ ok s.tracer.db) path loaded),
      )

  finish_run_saved :
      (start : os.World) (disk : f.Disk) (output : Text) (r : Option (Outcome (LoopEnd os.World)))
      (z : SessionEnd os f exe)
      → ((s : LoopEnd os.World) → r ≡ some (done s) → HasRoom os start output 0 s.tracer s.world)
      → finish_run os f exe disk output r ≡ some (done z)
      → HasSaved start output z
  unfolding finish_run
  finish_run_saved start disk output none z room h = absurd (grind arith)
  finish_run_saved start disk output (some panicked) z room h = absurd (grind arith)
  finish_run_saved start disk output (some (done s)) z room h =
      let e : finish os f exe disk output s ≡ done z = cc in
      finish_saved start disk output s z (room s refl) e

  -- A trace that comes to its end without a panic, whatever stopped the loop, leaves a file from
  -- which `load` restores the database of the tracer, with an entry for every step that was counted
  -- and for no other. The entries in it were made one after the other by the steps from the world in
  -- which the tracer was made: each shows the state that the first thread had as its step began and
  -- the instruction at its program counter, annotated by the depth that the calls and returns of the
  -- entries before it leave. Only after these steps was the process let go. The disk is to read back what was written, the decoding to invert the
  -- encoding, and the rounds are to be fewer than 2 ^ 64, so that the step count does not wrap.
  pub trace_loop-saves :
      (fuel : ℕ) (running : ℕ → Bool) (w : os.World) (disk : f.Disk) (pid : ℤ) (output : Text)
      (z : SessionEnd os f exe)
      → fuel < 2 ^ 64
      → trace_loop os f exe fuel running w disk pid output ≡ some (done z)
      → HasSaved w output z
  unfolding trace_loop
  trace_loop-saves fuel running w disk pid output z small h = started (new os w pid output) refl h
    where
      started :
          (r : Result Tracer)
          → new os w pid output ≡ r
          → start_with os f exe fuel running w disk output (expect r) ≡ some (done z)
          → HasSaved w output z
      started (err m) e p = absurd (unfold start_with in grind arith)
      started (ok t) e p =
          let (trace, zero_steps, path) = new-IsHistory os w pid output t e in
          finish_run_saved w disk output _ z
            (λ s q.
              run_inv os _ _ (room_kept os w output) running fuel 0 _ s (trace, path, omega arith)
                q)
            (unfold start_with in p)
