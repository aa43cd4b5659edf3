-- ===== src/Tracer/Dense.antt =====
-- The trace has no gaps: it holds exactly the steps that were counted.
use native.Mathlib.Decide.{ℕ_discrete}
use mathlib.Core.Path.{subst}
use tiny_binary_debugger.Base.{
  ℕ, ◌+◌, ◌^◌, ◌≤◌, ◌<◌, ◌≡◌, refl, sym, ◌∙◌, ap, inl, inr, [], Result, err, none, some, ok, arith,
}
use tiny_binary_debugger.Base.Int.{ℤ}
use tiny_binary_debugger.BTreeMap
use tiny_binary_debugger.Mach.{attach}
use tiny_binary_debugger.Os.{Arch, Os}
use tiny_binary_debugger.Storage
use tiny_binary_debugger.Storage.{TraceEntry}
use tiny_binary_debugger.Storage.Db.{insert_lem}
use tiny_binary_debugger.Text.{Text}
use tiny_binary_debugger.Tracer.Step.{Tracer, single_step, new, new_with}
use tiny_binary_debugger.Tracer.Trace.{single_step_cases}
use tiny_binary_debugger.Tracer.Effects.{Kept, Advanced}

-- The database of a tracer holds the steps below the step count, all of them and no others.
pub record IsTrace (t : Tracer) : Type 0 where
  pub valid : Storage.IsValid t.db
  pub count : Storage.count t.db ≡ t.step_count
  pub recorded_below : (k : ℕ) → k < t.step_count → (e : TraceEntry) × (Storage.get t.db k ≡ some e)
  pub fresh : (k : ℕ) → t.step_count ≤ k → Storage.get t.db k ≡ none

pub Kept-IsTrace : (t u : Tracer) → Kept t u → IsTrace t → IsTrace u
Kept-IsTrace t u k h = record {
  valid = subst Storage.IsValid (sym k.db) h.valid;
  count = ap Storage.count k.db ∙ h.count ∙ sym k.step_count;
  recorded_below = λ n lt.
      let (e, found) = h.recorded_below n (omega arith) in
      (e, ap (λ d. Storage.get d n) k.db ∙ found);
  fresh = λ n le. ap (λ d. Storage.get d n) k.db ∙ h.fresh n (omega arith);
}

pub Advanced-IsTrace :
    {arch : Arch} {os : Os arch} (t : Tracer) (w : os.World) (u : Tracer) (e : TraceEntry)
    → t.step_count + 1 < 2 ^ 64
    → Advanced os t w u e
    → IsTrace t
    → IsTrace u
Advanced-IsTrace t w u e room a h =
    let (inserted, valid, gets, counts) = insert_lem t.db e h.valid in
    let n : u.step_count ≡ t.step_count + 1 = ground (arith, a.step_count) in
    record {
      valid = subst Storage.IsValid (sym a.db) valid;
      count = ap Storage.count a.db ∙ counts ∙ rw (h.fresh e.step (omega arith)) (omega arith);
      recorded_below = λ k lt. elim (ℕ_discrete k e.step) [
        | yes p ↦ (e, ap (λ d. Storage.get d k) a.db ∙ gets k ∙ ground arith)
        | no p ↦
            let (f, found) = h.recorded_below k (omega arith) in
            (f, ap (λ d. Storage.get d k) a.db ∙ gets k ∙ ground arith)
      ];
      fresh =
          λ k le. ap (λ d. Storage.get d k) a.db ∙ gets k ∙ ground (arith, h.fresh k (omega arith));
    }

-- Whatever a step reports, the trace stays without gaps, while the count of steps has room.
pub single_step-IsTrace :
    {arch : Arch} (os : Os arch) (t : Tracer) (w : os.World)
    → t.step_count + 1 < 2 ^ 64
    → IsTrace t
    → IsTrace (single_step os t w).1
single_step-IsTrace os t w room h = elim (single_step_cases os t w) [
  | inl (e, k) ↦ Kept-IsTrace t (single_step os t w).1 k h
  | inr (e, a, p) ↦ Advanced-IsTrace t w (single_step os t w).1 e room a h
]

-- A new tracer has an empty trace, to be saved at the given path.
pub new-IsTrace :
    {arch : Arch} (os : Os arch) (w : os.World) (pid : ℤ) (path : Text) (t : Tracer)
    → new os w pid path ≡ ok t
    → IsTrace t
      × (t.step_count ≡ 0)
      × (t.db.path ≡ path)
      × (t.call_depth ≡ 0)
      × (t.memory_cache ≡ λ _. none)
      × (Storage.get_all t.db ≡ [])
unfolding Storage.get_all new Storage.new Storage.count Storage.get BTreeMap.get
new-IsTrace os w pid path t h = with_task (attach os w pid) h
  where
    with_task :
        (r : Result ℕ)
        → new_with os pid path r ≡ ok t
        → IsTrace t
          × (t.step_count ≡ 0)
          × (t.db.path ≡ path)
          × (t.call_depth ≡ 0)
          × (t.memory_cache ≡ λ _. none)
          × (Storage.get_all t.db ≡ [])
    with_task (err m) p = cc
    with_task (ok task) p =
        let same : first task ≡ t = cc in
        subst
          (λ u.
            IsTrace u
            × (u.step_count ≡ 0)
            × (u.db.path ≡ path)
            × (u.call_depth ≡ 0)
            × (u.memory_cache ≡ λ _. none)
            × (Storage.get_all u.db ≡ []))
          same (first_IsTrace task, refl, refl, refl, refl, refl)
      where
        first : ℕ → Tracer
        first task = record {
          task = task;
          pid = pid;
          db = record { entries = []; path = path };
          step_count = 0;
          memory_cache = λ _. none;
          last_sp = 0;
          call_depth = 0;
          pending_signal = none;
        }

        first_IsTrace : (task : ℕ) → IsTrace (first task)
        first_IsTrace task = record {
          valid = record { ordered = tt; keyed = tt };
          count = refl;
          recorded_below = λ k lt. elim lt [ ];
          fresh = λ k le. refl;
        }
