-- ===== src/Tests/TracerAt.antt =====
-- The tracer at concrete inputs.
use tiny_binary_debugger.Base.{
  true, ◌==◌, ℕ, ◌≤◌, All, length, length-replicate, ◌+◌, ◌≡◌, ◌⊎◌, refl, Option, none, some, List,
  [], ◌∷◌, get_elem?, ok, arith,
}
use tiny_binary_debugger.Mach.{attach, get_threads}
use tiny_binary_debugger.Mach.Reads.{get_threads-frees}
use tiny_binary_debugger.Os.{x86_64, Signal, Insn, is_success}
use tiny_binary_debugger.Base.Int.{pos}
use tiny_binary_debugger.Storage
use tiny_binary_debugger.Storage.{TraceEntry}
use tiny_binary_debugger.Tests.Machine.{
  in_order, call_insn, World, calm, calling, signalled, stuck, tracer_of, entry_at,
}
use tiny_binary_debugger.Text.{codes}
use tiny_binary_debugger.Tracer.Annotation.{is_call, is_return, or_empty}
use tiny_binary_debugger.Tracer.Classify.{IsPlain}
use tiny_binary_debugger.Tracer.Dense.{IsTrace, single_step-IsTrace, new-IsTrace}
use tiny_binary_debugger.Tracer.Depth.{
  finished, nested, depth_after, IsBalanced, depth_after-balanced,
}
use tiny_binary_debugger.Tracer.Diff.{find_change, change_at, note_changes_exact}
use tiny_binary_debugger.Tracer.Memory.{note_changes}
use tiny_binary_debugger.Tracer.Signals.{
  Logs, Delivered, single_step_signal, failed_resume-loses_signal,
}
use tiny_binary_debugger.Tracer.Step.{execute, single_step, new}
use tiny_binary_debugger.Tracer.Trace.{single_step_cases}
use tiny_binary_debugger.Tracer.History.{IsHistory, new-IsHistory, single_step-IsHistory}
use tiny_binary_debugger.Tracer.Bounds.{IsReader, IsLocal, history-bounds}
use tiny_binary_debugger.Stats.{analyze}
use tiny_binary_debugger.Stats.Counter.{count_if}
use tiny_binary_debugger.Stats.Traced.{IsLowerCase, Ran, mnemonics_of, history-calls}
use mathlib.Core.Path.{subst}
use tiny_binary_debugger.Tracer.Before.{IsSame, otherwise, single_step-IsSame}
use tiny_binary_debugger.Tracer.Observed.{Reads, Observed, last_read, history-Observed}
use tiny_binary_debugger.Tracer.Effects.{IsError, Kept, Advanced, Reports}

pub fresh-IsTrace : IsTrace (tracer_of none)
unfolding new attach Storage.new
fresh-IsTrace = (new-IsTrace calling calm (pos 12) (codes "t.tdb") (tracer_of none) refl).0

single_step-IsTrace_example : IsTrace (single_step calling (tracer_of none) calm).1
single_step-IsTrace_example =
    single_step-IsTrace calling (tracer_of none) calm (omega arith) fresh-IsTrace

single_step_cases_example :
    (IsError (single_step calling (tracer_of none) calm).0
      × Kept (tracer_of none) (single_step calling (tracer_of none) calm).1)
    ⊎ ((e : TraceEntry) × Advanced calling
          (tracer_of none)
          calm
          (single_step calling (tracer_of none) calm).1
          e
        × Reports calling (single_step calling (tracer_of none) calm).0 e)
single_step_cases_example = single_step_cases calling (tracer_of none) calm

note_changes_exact_example :
    (find_change (100 + 1) (note_changes (λ _. some (1 ∷ 2 ∷ [])) 100 (ok (1 ∷ 3 ∷ []))).0
      ≡ change_at (100 + 1) (get_elem? (1 ∷ 2 ∷ []) 1) (get_elem? (1 ∷ 3 ∷ []) 1))
    × ((note_changes (λ _. some (1 ∷ 2 ∷ [])) 100 (ok (1 ∷ 3 ∷ []))).1 100 ≡ some (1 ∷ 3 ∷ []))
note_changes_exact_example =
    note_changes_exact (λ _. some (1 ∷ 2 ∷ [])) 100 1 (1 ∷ 2 ∷ []) (1 ∷ 3 ∷ []) refl (omega arith)

abbrev log : World → List (Option Signal)
log w = w.log

signalled-Logs : Logs signalled log
signalled-Logs = record {
  at_step = λ w pid sig. refl;
  at_wait = λ w pid. refl;
  at_threads = λ w task. refl;
  at_deallocate = λ w addr size. refl;
}

stuck-Logs : Logs stuck log
stuck-Logs = record {
  at_step = λ w pid sig. refl;
  at_wait = λ w pid. refl;
  at_threads = λ w task. refl;
  at_deallocate = λ w addr size. refl;
}

single_step_signal_example :
    (IsError (single_step signalled (tracer_of (some 10)) calm).0
      × (log (single_step signalled (tracer_of (some 10)) calm).2 ≡ [])
      × ((single_step signalled (tracer_of (some 10)) calm).1.pending_signal ≡ some 10))
    ⊎ ((log (single_step signalled (tracer_of (some 10)) calm).2 ≡ some 10 ∷ [])
        × Delivered signalled
            (pos 12)
            (some 10)
            (single_step signalled (tracer_of (some 10)) calm).0
            (single_step signalled (tracer_of (some 10)) calm).1)
single_step_signal_example =
    single_step_signal signalled log signalled-Logs (tracer_of (some 10)) calm

failed_resume-loses_signal_example :
    IsError (execute stuck (tracer_of (some 10)) (entry_at 0 []) calm).0
    × (log
          (execute stuck
            (execute stuck (tracer_of (some 10)) (entry_at 0 []) calm).1
            (entry_at 1 [])
            calm).2
        ≡ none ∷ [])
failed_resume-loses_signal_example =
    failed_resume-loses_signal stuck log stuck-Logs (tracer_of (some 10)) (entry_at 0 [])
      (entry_at 1 []) calm (record { log = some 10 ∷ []; allocated = [] }) calm 10 (codes "EIO")
      refl refl

depth_after-balanced_example : depth_after x86_64 (codes "call" ∷ codes "ret" ∷ []) 5 ≡ 5
depth_after-balanced_example = depth_after-balanced x86_64 5 (omega arith) balanced
  where
    balanced : IsBalanced x86_64 (codes "call" ∷ codes "ret" ∷ [])
    balanced =
        unfold is_call is_return in nested (codes "call") (codes "ret") refl refl finished finished

frees :
    (w : World) (addr size : ℕ) (others : List (ℕ × ℕ))
    → w.allocated ≡ (addr, size) ∷ others
    → (calling.mach_vm_deallocate w addr size).allocated ≡ others
frees w addr size others h =
    let same : (addr == addr) ≡ true = ground arith in
    let too : (size == size) ≡ true = ground arith in rw (h, same, too) refl

get_threads-frees_example : (get_threads calling calm 7).0.allocated ≡ []
get_threads-frees_example =
    get_threads-frees calling (λ w. w.allocated) (λ w task h. refl)
      (λ w task h. unfold is_success in absurd (cc))
      (λ w addr size others h. frees w addr size others h) calm 7

calling-IsReader : IsReader calling
calling-IsReader = record {
  fits = λ w task addr size. omega (arith, length-replicate {A = ℕ} size (length w.log));
}

fresh-IsHistory : IsHistory calling calm (tracer_of none) calm
unfolding new attach Storage.new
fresh-IsHistory = (new-IsHistory calling calm (pos 12) (codes "t.tdb") (tracer_of none) refl).0

history-bounds_example :
    All (IsLocal calling) (Storage.get_all (single_step calling (tracer_of none) calm).1.db)
    × ((single_step calling (tracer_of none) calm).1.call_depth
        ≤ Storage.count (single_step calling (tracer_of none) calm).1.db)
history-bounds_example =
    history-bounds calling calling-IsReader calm (single_step calling (tracer_of none) calm).1
      (single_step calling (tracer_of none) calm).2
      (single_step-IsHistory calling calm (tracer_of none) calm (omega arith) fresh-IsHistory)

calling-IsLowerCase : IsLowerCase calling
unfolding or_empty
calling-IsLowerCase = record {
  plain = λ code addr insn after h.
      let same : call_insn ≡ insn = cc in
      subst (λ i. IsPlain (or_empty i.mnemonic) × IsPlain (or_empty i.op_str)) same call_insn-plain;
}
  where
    call_insn-plain : IsPlain (codes "call") × IsPlain (codes "0x2000")
    call_insn-plain = ((omega arith, omega arith), (omega arith, omega arith))

history-calls_example :
    (insns : List Insn) × Ran calling
      (Storage.get_all (single_step calling (tracer_of none) calm).1.db)
      insns
    × ((single_step calling (tracer_of none) calm).1.call_depth
        ≡ depth_after x86_64 (mnemonics_of insns) 0)
    × ((analyze in_order (single_step calling (tracer_of none) calm).1.db).call_count
        ≡ count_if (is_call x86_64) (mnemonics_of insns))
    × ((analyze in_order (single_step calling (tracer_of none) calm).1.db).ret_count
        ≡ count_if (is_return x86_64) (mnemonics_of insns))
history-calls_example =
    history-calls calling calling-IsLowerCase in_order calm
      (single_step calling (tracer_of none) calm).1 (single_step calling (tracer_of none) calm).2
      (single_step-IsHistory calling calm (tracer_of none) calm (omega arith) fresh-IsHistory)

-- In place of running the instruction, ptrace refuses.
single_step-IsSame_example :
    IsSame
      (single_step calling (tracer_of none) calm).1
      (single_step (otherwise calling stuck.ptrace_step stuck.waitpid) (tracer_of none) calm).1
single_step-IsSame_example =
    single_step-IsSame calling stuck.ptrace_step stuck.waitpid (tracer_of none) calm

history-Observed_example :
    (reads : Reads) × Observed calling
      (Storage.get_all (single_step calling (tracer_of none) calm).1.db)
      reads
    × ((single_step calling (tracer_of none) calm).1.memory_cache ≡ last_read reads)
history-Observed_example =
    history-Observed calling calm (single_step calling (tracer_of none) calm).1
      (single_step calling (tracer_of none) calm).2
      (single_step-IsHistory calling calm (tracer_of none) calm (omega arith) fresh-IsHistory)
