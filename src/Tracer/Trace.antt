-- ===== src/Tracer/Trace.antt =====
-- What one `single_step` does to the tracer and the database, on every path.
use mathlib.Core.Path.{subst}
use tiny_binary_debugger.Base.{
  arith, ◌∙◌, ℕ, ◌≡◌, refl, sym, ◌∙◌, ◌⊎◌, inl, inr, List, [], ◌∷◌, ◌==◌, Result, ok, err,
  Bool-cases,
}
use tiny_binary_debugger.Os.{Arch, Os, ThreadState, Insn}
use tiny_binary_debugger.Mach.{read_memory, get_threads, get_thread_state}
use tiny_binary_debugger.Storage
use tiny_binary_debugger.Storage.{TraceEntry, TraceDb}
use tiny_binary_debugger.Text.{Text}
use tiny_binary_debugger.Tracer.Registers.{pc_of, sp_of}
use tiny_binary_debugger.Tracer.Step.{
  detect_changes, StepResult, Tracer, resume, execute, store_entry, entry_for, record_insn,
  with_insns, with_code, seen_sp, with_state, with_threads, single_step,
}
use tiny_binary_debugger.Tracer.Effects.{
  Noted, Seen, Kept, Advanced, Trouble, refused, Reports, IsError,
}
use tiny_binary_debugger.Tracer.Noted.{detect_changes-Noted}
use tiny_binary_debugger.Tracer.Resumed.{resume_lem}
use tiny_binary_debugger.Tracer.Annotation.{or_empty}

module _ {arch : Arch} (os : Os arch) where
  open os use {World, ptrace_step, waitpid}

  unchanged : (t : Tracer) → Kept t t
  unchanged t = record {
    db = refl;
    step_count = refl;
    call_depth = refl;
    memory_cache = refl;
    pending_signal = refl;
  }

  -- The ends of a step in the world `w`.
  abbrev Outcome : Tracer → World → StepResult → Tracer → Type 0
  Outcome t w r u =
      (IsError r × Kept t u) ⊎ ((e : TraceEntry) × Advanced os t w u e × Reports os r e)

  resume_outcome :
      (t u : Tracer) (v : World) (e : TraceEntry) (x : World × Result (Unit {0}))
      → ((m : Text) → x.1 ≡ err m → Trouble os)
      → Advanced os t v u e
      → Outcome t v (resume os u e x).0 (resume os u e x).1
  resume_outcome t u v e x why a =
      let s = resume_lem os u e x why in
      inr (
        e,
        record {
          made = record {
            state = a.made.state;
            insn = a.made.insn;
            seen = a.made.seen;
            pc = a.made.pc;
            bytes = a.made.bytes;
            regs = a.made.regs;
            text = a.made.text;
            changes =
                subst
                  (λ cache.
                    Noted os t a.made.seen.listed (sp_of arch a.made.state) e.mem_changes cache)
                  (sym s.memory_cache) a.made.changes;
            deeper = s.call_depth ∙ a.made.deeper;
          };
          db = s.db ∙ a.db;
          step = a.step;
          step_count = s.step_count ∙ a.step_count;
        },
        s.reports,
      )

  -- The state was read when the listing of the threads had left the world `w`.
  abbrev SeenFrom : World → ℕ → World → ThreadState arch → Insn → Type 0
  SeenFrom w task v state insn = (seen : Seen os task v state insn) × (seen.listed ≡ w)

  record_insn_outcome :
      (t : Tracer) (v w : World) (state : ThreadState arch) (insn : Insn)
      → SeenFrom w t.task v state insn
      → Outcome t v (record_insn os t w state insn).0 (record_insn os t w state insn).1
  unfolding record_insn store_entry execute Storage.insert entry_for
  record_insn_outcome t v w state insn seen =
      resume_outcome t _ v _ _ (λ m p. refused w _ _ m p)
        (record {
          made = record {
            state = state;
            insn = insn;
            seen = seen.0;
            pc = refl;
            bytes = refl;
            regs = refl;
            text = refl;
            changes =
                subst
                  (λ x.
                    Noted os t x (sp_of arch state)
                      (detect_changes os t (or_empty insn.mnemonic) (sp_of arch state) w).0
                      (detect_changes os t (or_empty insn.mnemonic) (sp_of arch state) w).1)
                  (sym seen.1)
                  (detect_changes-Noted os t (or_empty insn.mnemonic) (sp_of arch state) w);
            deeper = refl;
          };
          db = refl;
          step = refl;
          step_count = refl;
        })

  with_insns_outcome :
      (t : Tracer) (v w : World) (state : ThreadState arch) (r : Result (List Insn))
      → ((insn : Insn) (after : List Insn) → r ≡ ok (insn ∷ after) → SeenFrom w t.task v state insn)
      → Outcome t v (with_insns os t w state r).0 (with_insns os t w state r).1
  unfolding with_insns
  with_insns_outcome t v w state (err m) seen = inl (tt, unchanged t)
  with_insns_outcome t v w state (ok []) seen = inl (tt, unchanged t)
  with_insns_outcome t v w state (ok (insn ∷ more)) seen =
      record_insn_outcome t v w state insn (seen insn more refl)

  with_code_outcome :
      (t : Tracer) (v w : World) (state : ThreadState arch) (r : Result (List ℕ))
      → ((code : List ℕ) (insn : Insn) (after : List Insn)
          → r ≡ ok code
          → os.disasm_all code (pc_of arch state) ≡ ok (insn ∷ after)
          → SeenFrom w t.task v state insn)
      → Outcome t v (with_code os t w state r).0 (with_code os t w state r).1
  unfolding with_code
  with_code_outcome t v w state (err m) seen = inl (tt, unchanged t)
  with_code_outcome t v w state (ok code) seen =
      with_insns_outcome t v w state (os.disasm_all code (pc_of arch state))
        (λ insn after e. seen code insn after refl e)

  -- Noting the first stack pointer touches nothing else.
  since_seen :
      (t u : Tracer) (v : World) (sp : ℕ) (r : StepResult)
      → Outcome (seen_sp os t sp) v r u
      → Outcome t v r u
  unfolding seen_sp
  since_seen t u v sp r h = elim (Bool-cases (t.last_sp == 0)) [
    | inl e ↦ subst (λ x. Outcome x v r u → Outcome t v r u) (sym (rw e)) as_first h
    | inr e ↦ subst (λ x. Outcome x v r u → Outcome t v r u) (sym (rw e)) (λ o. o) h
  ]
    where
      as_first : Outcome (record t { last_sp = sp }) v r u → Outcome t v r u
      as_first (inl (e, k)) = inl (
        e,
        record {
          db = k.db;
          step_count = k.step_count;
          call_depth = k.call_depth;
          memory_cache = k.memory_cache;
          pending_signal = k.pending_signal;
        },
      )
      as_first (inr (e, a, p)) = inr (
        e,
        record {
          made = record {
            state = a.made.state;
            insn = a.made.insn;
            seen = a.made.seen;
            pc = a.made.pc;
            bytes = a.made.bytes;
            regs = a.made.regs;
            text = a.made.text;
            changes = a.made.changes;
            deeper = a.made.deeper;
          };
          db = a.db;
          step = a.step;
          step_count = a.step_count;
        },
        p,
      )

  seen_sp-task : (t : Tracer) (sp : ℕ) → (seen_sp os t sp).task ≡ t.task
  unfolding seen_sp
  seen_sp-task t sp = ground arith

  with_state_outcome :
      (t : Tracer) (v w : World) (thread : ℕ) (others : List ℕ) (r : Result (ThreadState arch))
      → get_threads os v t.task ≡ (w, ok (thread ∷ others))
      → get_thread_state os w thread ≡ r
      → Outcome t v (with_state os t w r).0 (with_state os t w r).1
  unfolding with_state
  with_state_outcome t v w thread others (err m) threads e = inl (tt, unchanged t)
  with_state_outcome t v w thread others (ok state) threads e =
      let sp = sp_of arch state in
      since_seen t _ v sp _ (
        with_code_outcome (seen_sp os t sp) v w state
          (read_memory os w t.task (pc_of arch state) 16)
          (λ code insn after read decoded.
            subst (λ task. SeenFrom w task v state insn) (sym (seen_sp-task t sp))
              (
                record {
                  listed = w;
                  thread = thread;
                  others = others;
                  threads = threads;
                  state_of = e;
                  code = code;
                  code_of = read;
                  after = after;
                  decoded = decoded;
                },
                refl,
              )))

  with_threads_outcome :
      (t : Tracer) (v : World) (x : World × Result (List ℕ))
      → get_threads os v t.task ≡ x
      → Outcome t v (with_threads os t x).0 (with_threads os t x).1
  unfolding with_threads
  with_threads_outcome t v (w, err m) e = inl (tt, unchanged t)
  with_threads_outcome t v (w, ok []) e = inl (tt, unchanged t)
  with_threads_outcome t v (w, ok (thread ∷ more)) e =
      with_state_outcome t v w thread more (get_thread_state os w thread) e refl

  -- A step either reports an error and leaves the database, the step count, the call depth, the
  -- cached memory and the pending signal as they were, or it adds one entry, numbered by the steps
  -- before it, and counts it. The entry shows the state of the first thread of the task in the world
  -- in which the step begins, and the instruction decoded at its program counter, annotated by the
  -- call depth before, and the call depth follows the instruction. Its changes are none, or those of
  -- the window around the stack pointer against what the cache holds for it. Then a result that carries an
  -- entry carries that one, and an error comes of ptrace refusing to resume the process or of a wait
  -- that fails or reports something else than a stop or an end.
  pub single_step_cases :
      (t : Tracer) (w : World)
      → (IsError (single_step os t w).0 × Kept t (single_step os t w).1)
        ⊎ ((e : TraceEntry) × Advanced os t w (single_step os t w).1 e
            × Reports os (single_step os t w).0 e)
  unfolding single_step
  single_step_cases t w = with_threads_outcome t w (get_threads os w t.task) refl
