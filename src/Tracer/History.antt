-- ===== src/Tracer/History.antt =====
-- The trace as the steps left it, entry by entry.
use mathlib.Core.List.{map, map-append}
use mathlib.Core.Path.{subst}
use tiny_binary_debugger.Base.{
  none, ◌+◌, ◌^◌, ◌<◌, ◌≡◌, ap, sym, ◌∙◌, inl, inr, List, [], ◌∷◌, ◌++◌, ok, arith,
}
use tiny_binary_debugger.Base.Int.{ℤ}
use tiny_binary_debugger.BTreeMap.Laws.{insert-last}
use tiny_binary_debugger.Os.{Arch, Os}
use tiny_binary_debugger.Storage
use tiny_binary_debugger.Storage.{TraceEntry}
use tiny_binary_debugger.Text.{Text}
use tiny_binary_debugger.Tracer.Dense.{IsTrace, Kept-IsTrace, Advanced-IsTrace, new-IsTrace}
use tiny_binary_debugger.Tracer.Effects.{IsError, Kept, Made, Advanced}
use tiny_binary_debugger.Tracer.Step.{Tracer, single_step, new}
use tiny_binary_debugger.Tracer.Trace.{single_step_cases}

-- Steps from the world `start` have led to a tracer and a world, and have made these entries, one
-- after the other: a step that fails before it records makes none, every other step makes one.
pub data Replays {arch : Arch} (os : Os arch) (start : os.World)
    : Tracer → os.World → List TraceEntry → Type 0 where
  begun :
      (t : Tracer) → t.call_depth ≡ 0 → (t.memory_cache ≡ λ _. none) → Replays os start t start []
  failed :
      (t : Tracer) (w : os.World) (es : List TraceEntry)
      → Replays os start t w es
      → IsError (single_step os t w).0
      → Kept t (single_step os t w).1
      → Replays os start (single_step os t w).1 (single_step os t w).2 es
  stepped :
      (t : Tracer) (w : os.World) (es : List TraceEntry) (e : TraceEntry)
      → Replays os start t w es
      → Made os t w (single_step os t w).1 e
      → Replays os start (single_step os t w).1 (single_step os t w).2 (es ++ e ∷ [])

-- The new entry of a trace without gaps comes last.
pub get_all-after_insert :
    {arch : Arch} {os : Os arch} (t : Tracer) (w : os.World) (u : Tracer) (e : TraceEntry)
    → IsTrace t
    → Advanced os t w u e
    → Storage.get_all u.db ≡ Storage.get_all t.db ++ e ∷ []
unfolding Storage.get_all Storage.get
get_all-after_insert t w u e h a =
    ap Storage.get_all a.db
    ∙ unfold Storage.get_all Storage.get in
      (ap (map (λ x. x.1))
          (insert-last e.step e t.db.entries (λ j le. h.fresh j (omega (arith, a.step))))
        ∙ map-append (λ x. x.1) t.db.entries ((e.step, e) ∷ []))

-- A trace without gaps, whose entries were made in the order of their numbers, by steps from the
-- world `start` to the world `w`.
pub record IsHistory {arch : Arch} (os : Os arch) (start : os.World) (t : Tracer) (w : os.World)
    : Type 0 where
  pub trace : IsTrace t
  pub replay : Replays os start t w (Storage.get_all t.db)

-- A step extends the history by the entry that it makes, or leaves it.
pub single_step-IsHistory :
    {arch : Arch} (os : Os arch) (start : os.World) (t : Tracer) (w : os.World)
    → t.step_count + 1 < 2 ^ 64
    → IsHistory os start t w
    → IsHistory os start (single_step os t w).1 (single_step os t w).2
single_step-IsHistory os start t w room h =
    let u = (single_step os t w).1 in
    let v = (single_step os t w).2 in
    elim (single_step_cases os t w) [
      | inl (e, k) ↦ record {
        trace = Kept-IsTrace t u k h.trace;
        replay =
            subst (Replays os start u v) (sym (ap Storage.get_all k.db))
              (failed t w (Storage.get_all t.db) h.replay e k);
      }
      | inr (e, a, p) ↦ record {
        trace = Advanced-IsTrace t w u e room a h.trace;
        replay =
            subst (Replays os start u v) (sym (get_all-after_insert t w u e h.trace a))
              (stepped t w (Storage.get_all t.db) e h.replay a.made);
      }
    ]

-- A new tracer has no history.
pub new-IsHistory :
    {arch : Arch} (os : Os arch) (w : os.World) (pid : ℤ) (path : Text) (t : Tracer)
    → new os w pid path ≡ ok t
    → IsHistory os w t w × (t.step_count ≡ 0) × (t.db.path ≡ path)
new-IsHistory os w pid path t h =
    let (trace, zero_steps, same_path, top, cold, empty) = new-IsTrace os w pid path t h in
    (
      record { trace = trace; replay = subst (Replays os w t w) (sym empty) (begun t top cold) },
      zero_steps,
      same_path,
    )
