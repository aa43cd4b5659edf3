-- ===== src/Tracer/Before.antt =====
-- When a step reads what it records: before its instruction is executed.
use tiny_binary_debugger.Base.{
  ℕ, ◌≡◌, refl, sym, ◌∙◌, Option, none, List, [], ◌∷◌, ◌==◌, Result, ok, err, Bool-cases, inl, inr,
}
use tiny_binary_debugger.Base.Int.{ℤ}
use tiny_binary_debugger.Mach.{read_memory, get_threads, get_thread_state}
use tiny_binary_debugger.Os.{
  Arch, Os, ThreadState, Signal, sigtrap, WaitStatus, exited, signaled, stopped, other, Insn,
}
use tiny_binary_debugger.Storage
use tiny_binary_debugger.Storage.{TraceEntry}
use tiny_binary_debugger.Tracer.Registers.{pc_of, sp_of}
use tiny_binary_debugger.Tracer.Step.{
  Tracer, settle, resume, execute, detect_changes, entry_for, store_entry, record_insn, with_insns,
  with_code, seen_sp, with_state, with_threads, single_step,
}

-- Two tracers that have recorded the same; the pending signal may differ.
pub record IsSame (t u : Tracer) : Type 0 where
  pub db : t.db ≡ u.db
  pub step_count : t.step_count ≡ u.step_count
  pub memory_cache : t.memory_cache ≡ u.memory_cache
  pub last_sp : t.last_sp ≡ u.last_sp
  pub call_depth : t.call_depth ≡ u.call_depth

IsSame-refl : (t : Tracer) → IsSame t t
IsSame-refl t = record {
  db = refl;
  step_count = refl;
  memory_cache = refl;
  last_sp = refl;
  call_depth = refl;
}

IsSame-over : (t u v : Tracer) → IsSame t v → IsSame u v → IsSame t u
IsSame-over t u v a b = record {
  db = a.db ∙ sym b.db;
  step_count = a.step_count ∙ sym b.step_count;
  memory_cache = a.memory_cache ∙ sym b.memory_cache;
  last_sp = a.last_sp ∙ sym b.last_sp;
  call_depth = a.call_depth ∙ sym b.call_depth;
}

module _ {arch : Arch} (os : Os arch) where
  open os use {World}

  settle-IsSame :
      (t : Tracer) (e : TraceEntry) (x : World × Result WaitStatus) → IsSame (settle os t e x).1 t
  unfolding settle
  settle-IsSame t e (w, ok (stopped sig)) = elim (Bool-cases (sig == sigtrap)) [
    | inl q ↦ rw q (IsSame-refl t)
    | inr q ↦ rw q (record {
      db = refl;
      step_count = refl;
      memory_cache = refl;
      last_sp = refl;
      call_depth = refl;
    })
  ]
  settle-IsSame t e (w, ok (exited code)) = IsSame-refl t
  settle-IsSame t e (w, ok (signaled sig)) = IsSame-refl t
  settle-IsSame t e (w, ok (other name)) = IsSame-refl t
  settle-IsSame t e (w, err m) = IsSame-refl t

  resume-IsSame :
      (t : Tracer) (e : TraceEntry) (x : World × Result (Unit {0})) → IsSame (resume os t e x).1 t
  unfolding resume
  resume-IsSame t e (w, err m) = IsSame-refl t
  resume-IsSame t e (w, ok u) = settle-IsSame t e (os.waitpid w t.pid)

-- The machine `os` with another execution of the instruction: `run` in place of ptrace's step, and
-- `wait` in place of the wait.
module _ {arch : Arch} (os : Os arch)
    (run : os.World → ℤ → Option Signal → os.World × Result (Unit {0}))
    (wait : os.World → ℤ → os.World × Result WaitStatus) where
  abbrev pub otherwise : Os arch
  otherwise = record os { ptrace_step = run; waitpid = wait }

  execute-IsSame :
      (t : Tracer) (e : TraceEntry) (w : os.World)
      → IsSame (execute os t e w).1 (execute otherwise t e w).1
  unfolding execute
  execute-IsSame t e w =
      let taken : Tracer = record t { pending_signal = none } in
      IsSame-over (execute os t e w).1 (execute otherwise t e w).1 taken
        (resume-IsSame os taken e (os.ptrace_step w t.pid t.pending_signal))
        (resume-IsSame otherwise taken e (run w t.pid t.pending_signal))

  record_insn-IsSame :
      (t : Tracer) (w : os.World) (state : ThreadState arch) (insn : Insn)
      → IsSame (record_insn os t w state insn).1 (record_insn otherwise t w state insn).1
  unfolding record_insn store_entry Storage.insert entry_for detect_changes read_memory
  record_insn-IsSame t w state insn = execute-IsSame _ _ w

  with_insns-IsSame :
      (t : Tracer) (w : os.World) (state : ThreadState arch) (r : Result (List Insn))
      → IsSame (with_insns os t w state r).1 (with_insns otherwise t w state r).1
  unfolding with_insns
  with_insns-IsSame t w state (err m) = IsSame-refl t
  with_insns-IsSame t w state (ok []) = IsSame-refl t
  with_insns-IsSame t w state (ok (insn ∷ more)) = record_insn-IsSame t w state insn

  with_code-IsSame :
      (t : Tracer) (w : os.World) (state : ThreadState arch) (r : Result (List ℕ))
      → IsSame (with_code os t w state r).1 (with_code otherwise t w state r).1
  unfolding with_code
  with_code-IsSame t w state (err m) = IsSame-refl t
  with_code-IsSame t w state (ok code) = with_insns-IsSame t w state (os.disasm_all code _)

  with_state-IsSame :
      (t : Tracer) (w : os.World) (r : Result (ThreadState arch))
      → IsSame (with_state os t w r).1 (with_state otherwise t w r).1
  unfolding with_state seen_sp read_memory
  with_state-IsSame t w (err m) = IsSame-refl t
  with_state-IsSame t w (ok state) =
      with_code-IsSame (seen_sp os t (sp_of arch state)) w state
        (read_memory os w t.task (pc_of arch state) 16)

  with_threads-IsSame :
      (t : Tracer) (x : os.World × Result (List ℕ))
      → IsSame (with_threads os t x).1 (with_threads otherwise t x).1
  unfolding with_threads get_thread_state
  with_threads-IsSame t (w, err m) = IsSame-refl t
  with_threads-IsSame t (w, ok []) = IsSame-refl t
  with_threads-IsSame t (w, ok (thread ∷ more)) =
      with_state-IsSame t w (get_thread_state os w thread)

  -- What a step records does not depend on the execution of its instruction: whatever ptrace and
  -- the wait do in its place, the step leaves the same database, step count, depth of calls, last
  -- stack pointer and cached memory.
  pub single_step-IsSame :
      (t : Tracer) (w : os.World) → IsSame (single_step os t w).1 (single_step otherwise t w).1
  unfolding single_step get_threads
  single_step-IsSame t w = with_threads-IsSame t (get_threads os w t.task)
