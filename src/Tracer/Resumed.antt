-- ===== src/Tracer/Resumed.antt =====
-- What the rest of a step leaves alone, once the entry is recorded.
use tiny_binary_debugger.Base.{◌≡◌, refl, inl, inr, ◌==◌, Result, ok, err, Bool-cases}
use tiny_binary_debugger.Os.{Arch, Os, sigtrap, WaitStatus, exited, signaled, stopped, other}
use tiny_binary_debugger.Storage.{TraceEntry}
use tiny_binary_debugger.Text.{Text}
use tiny_binary_debugger.Tracer.Step.{StepResult, Tracer, settle, resume}
use tiny_binary_debugger.Tracer.Effects.{IsStrange, Trouble, strange, Reports}

module _ {arch : Arch} (os : Os arch) where
  open os use {World, ptrace_step, waitpid}

  -- What the calls after the recording leave alone.
  pub record Settled (t : Tracer) (e : TraceEntry) (r : StepResult) (u : Tracer) : Type 0 where
    pub db : u.db ≡ t.db
    pub step_count : u.step_count ≡ t.step_count
    pub call_depth : u.call_depth ≡ t.call_depth
    pub memory_cache : u.memory_cache ≡ t.memory_cache
    pub reports : Reports os r e

  settle_lem :
      (t : Tracer) (e : TraceEntry) (x : World × Result WaitStatus)
      → (IsStrange x.1 → Trouble os)
      → Settled t e (settle os t e x).0 (settle os t e x).1
  unfolding settle
  settle_lem t e (w, ok (stopped sig)) why = elim (Bool-cases (sig == sigtrap)) [
    | inl q ↦ rw q (record {
      db = refl;
      step_count = refl;
      call_depth = refl;
      memory_cache = refl;
      reports = refl;
    })
    | inr q ↦ rw q (record {
      db = refl;
      step_count = refl;
      call_depth = refl;
      memory_cache = refl;
      reports = refl;
    })
  ]
  settle_lem t e (w, ok (exited code)) why = record {
    db = refl;
    step_count = refl;
    call_depth = refl;
    memory_cache = refl;
    reports = tt;
  }
  settle_lem t e (w, ok (signaled sig)) why = record {
    db = refl;
    step_count = refl;
    call_depth = refl;
    memory_cache = refl;
    reports = tt;
  }
  settle_lem t e (w, ok (other name)) why = record {
    db = refl;
    step_count = refl;
    call_depth = refl;
    memory_cache = refl;
    reports = why tt;
  }
  settle_lem t e (w, err m) why = record {
    db = refl;
    step_count = refl;
    call_depth = refl;
    memory_cache = refl;
    reports = why tt;
  }

  pub resume_lem :
      (t : Tracer) (e : TraceEntry) (x : World × Result (Unit {0}))
      → ((m : Text) → x.1 ≡ err m → Trouble os)
      → Settled t e (resume os t e x).0 (resume os t e x).1
  unfolding resume
  resume_lem t e (w, err m) why = record {
    db = refl;
    step_count = refl;
    call_depth = refl;
    memory_cache = refl;
    reports = why m refl;
  }
  resume_lem t e (w, ok u) why = settle_lem t e (waitpid w t.pid) (strange w t.pid)
