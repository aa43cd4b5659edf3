-- ===== src/TraceLoop/Watched.antt =====
-- What the loop of src/main.rs sees of the steps, round by round, and what its totals count.
use tiny_binary_debugger.Base.{true, false, ◌≡◌, ◌∙◌, Bool, List, [], ◌∷◌, ◌++◌, done, arith}
use tiny_binary_debugger.Os.{Arch, Os}
use tiny_binary_debugger.Storage
use tiny_binary_debugger.Storage.{TraceEntry, TraceDb}
use tiny_binary_debugger.Text.{Text}
use tiny_binary_debugger.Tracer.Step.{recorded, process_exited, error, Tracer, single_step}
use tiny_binary_debugger.TraceLoop.{ℤ, Counters, LoopEnd, stop, next, round}
use tiny_binary_debugger.Base.Int.{ℤ}
use tiny_binary_debugger.TraceLoop.Counts.{Tallies}

-- The rounds from `t₀` and `w₀` on, each with the result of its step: the tracer and the world that
-- they leave, whether the process has exited, the entries that the steps stored in the trace, and
-- those of them that the steps also handed to the loop.
pub data Watched {arch : Arch} (os : Os arch) (t₀ : Tracer) (w₀ : os.World)
    : Bool → Tracer → os.World → List TraceEntry → List TraceEntry → Type 0 where
  started : Watched os t₀ w₀ false t₀ w₀ [] []
  handed :
      (t : Tracer) (w : os.World) (u : Tracer) (v : os.World) (e : TraceEntry)
      (es cs : List TraceEntry)
      → Watched os t₀ w₀ false t w es cs
      → single_step os t w ≡ (recorded e, u, v)
      → Watched os t₀ w₀ false u v (es ++ e ∷ []) (cs ++ e ∷ [])
  failed :
      (t : Tracer) (w : os.World) (u : Tracer) (v : os.World) (m : Text) (es cs : List TraceEntry)
      → Watched os t₀ w₀ false t w es cs
      → single_step os t w ≡ (error m, u, v)
      → Watched os t₀ w₀ false u v es cs
  withheld :
      (t : Tracer) (w : os.World) (u : Tracer) (v : os.World) (m : Text) (e : TraceEntry)
      (es cs : List TraceEntry)
      → Watched os t₀ w₀ false t w es cs
      → single_step os t w ≡ (error m, u, v)
      → Watched os t₀ w₀ false u v (es ++ e ∷ []) cs
  ended :
      (t : Tracer) (w : os.World) (u : Tracer) (v : os.World) (code : ℤ) (e : TraceEntry)
      (es cs : List TraceEntry)
      → Watched os t₀ w₀ false t w es cs
      → single_step os t w ≡ (process_exited code, u, v)
      → Watched os t₀ w₀ true u v (es ++ e ∷ []) cs

-- What the loop has stored and counted between `s` and `s'`: after the entries at the start, the
-- trace has those that the steps stored, and the counters tally with those that they handed over.
pub record Tallied {arch : Arch} (os : Os arch) (s : LoopEnd os.World) (exited : Bool)
    (s' : LoopEnd os.World) : Type 0 where
  pub stored : List TraceEntry
  pub taken : List TraceEntry
  pub watched : Watched os s.tracer s.world exited s'.tracer s'.world stored taken
  pub trace : Storage.get_all s'.tracer.db ≡ Storage.get_all s.tracer.db ++ stored
  pub tallies : Tallies s'.counters (Storage.get_all s.tracer.db ++ taken)

pub record SameTotals (c d : Counters) : Type 0 where
  pub calls : d.call_count ≡ c.call_count
  pub returns : d.return_count ≡ c.return_count
  pub changes : d.mem_change_count ≡ c.mem_change_count

pub Same-Tallies :
    (c d : Counters) (es : List TraceEntry) → SameTotals c d → Tallies c es → Tallies d es
Same-Tallies c d es same h = record {
  calls = same.calls ∙ h.calls;
  returns = same.returns ∙ h.returns;
  changes = same.changes ∙ h.changes;
}

module _ {arch : Arch} (os : Os arch) where
  pub error_next :
      (c : Counters) (lines : List Text) (m : Text) (u : Tracer) (w : os.World)
      (s' : LoopEnd os.World)
      → round os c lines (error m, u, w) ≡ done (next s')
      → (s'.tracer ≡ u) × (s'.world ≡ w) × SameTotals c s'.counters
  unfolding round
  error_next c lines m u w s' p = (
    ground arith,
    ground arith,
    record { calls = ground arith; returns = ground arith; changes = ground arith },
  )

  pub error_stop :
      (c : Counters) (lines : List Text) (m : Text) (u : Tracer) (w : os.World)
      (s' : LoopEnd os.World)
      → round os c lines (error m, u, w) ≡ done (stop s')
      → (s'.tracer ≡ u) × (s'.world ≡ w) × SameTotals c s'.counters
  unfolding round
  error_stop c lines m u w s' p = (
    ground arith,
    ground arith,
    record { calls = ground arith; returns = ground arith; changes = ground arith },
  )
