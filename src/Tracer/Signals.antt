-- ===== src/Tracer/Signals.antt =====
-- A signal that stops the traced process is held back and handed to a later ptrace call.
use mathlib.Core.Path.{sym, subst}
use tiny_binary_debugger.Base.{
  ℕ, ◌≡◌, refl, ◌∙◌, ap, ◌⊎◌, inl, inr, Option, none, some, List, [], ◌∷◌, ◌==◌, if◌then◌else◌,
  Result, ok, err, arith, Bool-cases,
}
use tiny_binary_debugger.Base.Int.{ℤ}
use tiny_binary_debugger.Mach.{read_memory, get_threads, get_thread_state}
use tiny_binary_debugger.Os.{
  Arch, Os, ThreadState, Signal, sigtrap, WaitStatus, exited, signaled, stopped, other, Insn,
  is_success,
}
use tiny_binary_debugger.Storage
use tiny_binary_debugger.Storage.{TraceEntry}
use tiny_binary_debugger.Text.{Text}
use tiny_binary_debugger.Tracer.Registers.{pc_of, sp_of}
use tiny_binary_debugger.Tracer.Step.{
  StepResult, Tracer, settle, resume, execute, store_entry, record_insn, with_insns, with_code,
  seen_sp, with_state, with_threads, single_step,
}
use tiny_binary_debugger.Tracer.Effects.{IsError}

-- A log of the signals that ptrace was given, last first; the other calls add nothing to it.
pub record Logs {arch : Arch} (os : Os arch) (log : os.World → List (Option Signal)) : Type 0 where
  pub at_step :
      (w : os.World) (pid : ℤ) (sig : Option Signal)
      → log (os.ptrace_step w pid sig).0 ≡ sig ∷ log w
  pub at_wait : (w : os.World) (pid : ℤ) → log (os.waitpid w pid).0 ≡ log w
  pub at_threads : (w : os.World) (task : ℕ) → log (os.task_threads w task).0 ≡ log w
  pub at_deallocate :
      (w : os.World) (addr size : ℕ) → log (os.mach_vm_deallocate w addr size) ≡ log w

-- The signal that a wait leaves to be delivered.
abbrev pub caught : Result WaitStatus → Option Signal
caught (ok (stopped sig)) = if sig == sigtrap then none else some sig
caught (ok (exited code)) = none
caught (ok (signaled sig)) = none
caught (ok (other name)) = none
caught (err e) = none

module _ {arch : Arch} (os : Os arch) where
  open os use {World, ptrace_step, waitpid}

  settle_pending :
      (t : Tracer) (e : TraceEntry) (x : World × Result WaitStatus)
      → t.pending_signal ≡ none
      → (settle os t e x).1.pending_signal ≡ caught x.1
  unfolding settle
  settle_pending t e (w, ok (stopped sig)) h = ground arith
  settle_pending t e (w, ok (exited code)) h = h
  settle_pending t e (w, ok (signaled sig)) h = h
  settle_pending t e (w, ok (other name)) h = h
  settle_pending t e (w, err m) h = h

  settle_world :
      (t : Tracer) (e : TraceEntry) (x : World × Result WaitStatus) → (settle os t e x).2 ≡ x.0
  unfolding settle
  settle_world t e (w, ok (stopped sig)) = ground arith
  settle_world t e (w, ok (exited code)) = refl
  settle_world t e (w, ok (signaled sig)) = refl
  settle_world t e (w, ok (other name)) = refl
  settle_world t e (w, err m) = refl

  -- The signal was handed to ptrace in some world. Either ptrace refused, which is an error with
  -- nothing pending, or it resumed the process and the wait decides what is pending.
  abbrev pub Delivered : ℤ → Option Signal → StepResult → Tracer → Type 0
  Delivered pid sig r u =
      (v : World) × (((m : Text) × ((ptrace_step v pid sig).1 ≡ err m)
          × IsError r
          × (u.pending_signal ≡ none))
        ⊎ (((ptrace_step v pid sig).1 ≡ ok tt)
            × (u.pending_signal ≡ caught (waitpid (ptrace_step v pid sig).0 pid).1)))

  resume-Delivered :
      (t : Tracer) (e : TraceEntry) (v : World) (sig : Option Signal)
      (x : World × Result (Unit {0}))
      → t.pending_signal ≡ none
      → ptrace_step v t.pid sig ≡ x
      → Delivered t.pid sig (resume os t e x).0 (resume os t e x).1
  unfolding resume
  resume-Delivered t e v sig (w, err m) p h = (v, inl (m, ap (λ y. y.1) h, tt, p))
  resume-Delivered t e v sig (w, ok u) p h = (
    v,
    inr (
      ap (λ y. y.1) h,
      settle_pending t e (waitpid w t.pid) p ∙ ap (λ y. caught (waitpid y.0 t.pid).1) (sym h),
    ),
  )

  execute-Delivered :
      (t : Tracer) (e : TraceEntry) (w : World)
      → Delivered t.pid t.pending_signal (execute os t e w).0 (execute os t e w).1
  unfolding execute
  execute-Delivered t e w = resume-Delivered _ e w t.pending_signal _ refl refl

  module _ (log : World → List (Option Signal)) (logs : Logs os log) where
    resume_log :
        (t : Tracer) (e : TraceEntry) (x : World × Result (Unit {0}))
        → log (resume os t e x).2 ≡ log x.0
    unfolding resume
    resume_log t e (w, err m) = refl
    resume_log t e (w, ok u) = ap log (settle_world t e (waitpid w t.pid)) ∙ logs.at_wait w t.pid

    execute_log :
        (t : Tracer) (e : TraceEntry) (w : World)
        → log (execute os t e w).2 ≡ t.pending_signal ∷ log w
    unfolding execute
    execute_log t e w = resume_log _ e _ ∙ logs.at_step w t.pid t.pending_signal

    -- Either nothing was handed to ptrace and the signal is still pending, or it was handed over.
    abbrev Handed : Tracer → World → StepResult → Tracer → World → Type 0
    Handed t w r u w' =
        (IsError r × (log w' ≡ log w) × (u.pending_signal ≡ t.pending_signal))
        ⊎ ((log w' ≡ t.pending_signal ∷ log w) × Delivered t.pid t.pending_signal r u)

    with_insns-Handed :
        (t : Tracer) (w : World) (state : ThreadState arch) (r : Result (List Insn))
        → let s = with_insns os t w state r in Handed t w s.0 s.1 s.2
    unfolding with_insns record_insn store_entry Storage.insert
    with_insns-Handed t w state (err m) = inl (tt, refl, refl)
    with_insns-Handed t w state (ok []) = inl (tt, refl, refl)
    with_insns-Handed t w state (ok (insn ∷ more)) =
        inr (execute_log _ _ w, execute-Delivered _ _ w)

    with_code-Handed :
        (t : Tracer) (w : World) (state : ThreadState arch) (r : Result (List ℕ))
        → let s = with_code os t w state r in Handed t w s.0 s.1 s.2
    unfolding with_code
    with_code-Handed t w state (err m) = inl (tt, refl, refl)
    with_code-Handed t w state (ok code) =
        with_insns-Handed t w state (os.disasm_all code (pc_of arch state))

    seen_pending : (t : Tracer) (sp : ℕ) → (seen_sp os t sp).pending_signal ≡ t.pending_signal
    unfolding seen_sp
    seen_pending t sp = ground arith

    seen_pid : (t : Tracer) (sp : ℕ) → (seen_sp os t sp).pid ≡ t.pid
    unfolding seen_sp
    seen_pid t sp = ground arith

    with_state-Handed :
        (t : Tracer) (w : World) (r : Result (ThreadState arch))
        → let s = with_state os t w r in Handed t w s.0 s.1 s.2
    unfolding with_state
    with_state-Handed t w (err m) = inl (tt, refl, refl)
    with_state-Handed t w (ok state) =
        let sp = sp_of arch state in
        let s =
          with_code os (seen_sp os t sp) w state (read_memory os w t.task (pc_of arch state) 16) in
        elim (with_code-Handed (seen_sp os t sp) w state
          (read_memory os w t.task (pc_of arch state) 16)) [
            | inl (e, l, p) ↦ inl (e, l, p ∙ seen_pending t sp)
            | inr (l, d) ↦ inr (
              l ∙ ap (λ p. p ∷ log w) (seen_pending t sp),
              subst (λ sig. Delivered t.pid sig s.0 s.1) (seen_pending t sp)
                  (subst (λ pid. Delivered pid (seen_sp os t sp).pending_signal s.0 s.1)
                    (seen_pid t sp) d),
            )
          ]

    with_threads-Handed :
        (t : Tracer) (x : World × Result (List ℕ))
        → let s = with_threads os t x in Handed t x.0 s.0 s.1 s.2
    unfolding with_threads
    with_threads-Handed t (w, err m) = inl (tt, refl, refl)
    with_threads-Handed t (w, ok []) = inl (tt, refl, refl)
    with_threads-Handed t (w, ok (thread ∷ more)) =
        with_state-Handed t w (get_thread_state os w thread)

    get_threads_log : (w : World) (task : ℕ) → log (get_threads os w task).0 ≡ log w
    unfolding get_threads
    get_threads_log w task = elim (Bool-cases (is_success (os.task_threads w task).1)) [
      | inl e ↦ rw e (logs.at_deallocate _ _ _ ∙ logs.at_threads w task)
      | inr e ↦ rw e (logs.at_threads w task)
    ]

    -- The pending signal is given to ptrace at most once in a step: a step that fails before it
    -- resumes the process gives it nothing and keeps the signal pending; every other step gives it
    -- exactly the pending signal, or none if there is none. If ptrace refuses it, that is an error
    -- and nothing is pending; if it resumes the process, a signal other than SIGTRAP that the wait
    -- reports as the cause of a stop is pending next, and otherwise nothing.
    -- The log is of what ptrace was given; the other calls are to leave it alone.
    pub single_step_signal :
        (t : Tracer) (w : World)
        → (IsError (single_step os t w).0
            × (log (single_step os t w).2 ≡ log w)
            × ((single_step os t w).1.pending_signal ≡ t.pending_signal))
          ⊎ ((log (single_step os t w).2 ≡ t.pending_signal ∷ log w)
              × Delivered t.pid t.pending_signal (single_step os t w).0 (single_step os t w).1)
    unfolding single_step
    single_step_signal t w =
        subst
          (λ l.
            let s = with_threads os t (get_threads os w t.task) in
            (IsError s.0 × (log s.2 ≡ l) × (s.1.pending_signal ≡ t.pending_signal))
            ⊎ ((log s.2 ≡ t.pending_signal ∷ l) × Delivered t.pid t.pending_signal s.0 s.1))
          (get_threads_log w t.task) (with_threads-Handed t (get_threads os w t.task))

    -- A signal that is pending when ptrace refuses to resume the process is lost: the retry gives
    -- ptrace no signal.
    pub failed_resume-loses_signal :
        (t : Tracer) (e e' : TraceEntry) (w w' w₂ : World) (sig : Signal) (m : Text)
        → t.pending_signal ≡ some sig
        → ptrace_step w t.pid (some sig) ≡ (w', err m)
        → IsError (execute os t e w).0
          × (log (execute os (execute os t e w).1 e' w₂).2 ≡ none ∷ log w₂)
    failed_resume-loses_signal t e e' w w' w₂ sig m p h = (
      unfold execute resume in rw (p, h, resume) tt,
      execute_log (execute os t e w).1 e' w₂
          ∙ ap (λ s. s ∷ log w₂) (unfold execute resume in rw (p, h, resume) refl),
    )
