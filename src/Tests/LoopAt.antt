-- ===== src/Tests/LoopAt.antt =====
-- The loop at concrete machines.
use tiny_binary_debugger.Base.{
  Bool, ◌≡◌, ◌≢◌, refl, true, Option, none, some, [], leb, Outcome, done, panicked, arith,
}
use tiny_binary_debugger.Base.Int.{pos}
use tiny_binary_debugger.Storage
use tiny_binary_debugger.Storage.{TraceEntry}
use tiny_binary_debugger.Storage.File.{save}
use tiny_binary_debugger.Tests.Machine.{
  World, calm, calling, stuck, one_file, one_file-IsFaithful, tracer_of,
}
use tiny_binary_debugger.Text.{byte_len, codes}
use tiny_binary_debugger.TraceLoop.{round, LoopEnd, zeros, run, SessionEnd, trace_loop}
use tiny_binary_debugger.TraceLoop.Ends.{ctrl_c-ends, errors-end}
use tiny_binary_debugger.TraceLoop.Saved.{HasSaved, trace_loop-saves}
use tiny_binary_debugger.Tracer.Step.{new, single_step}
use tiny_binary_debugger.Tests.TracerAt.{fresh-IsTrace}
use tiny_binary_debugger.TraceLoop.Counts.{Tallies}
use tiny_binary_debugger.Stats.Counter.{count_if}
use tiny_binary_debugger.Stats.Analyze.{sum_changes}
use tiny_binary_debugger.TraceLoop.Summary.{run-Tallied}
use tiny_binary_debugger.TraceLoop.Watched.{Tallied}
use tiny_binary_debugger.Mach.{read_memory, get_thread_state, attach, get_threads}
use tiny_binary_debugger.Tracer.Annotation.{is_call, call_annotation}
use tiny_binary_debugger.Text.Number.{decimal}

abbrev before : LoopEnd World
before = record { counters = zeros; tracer = tracer_of none; world = calm; lines = [] }

-- The end of a session that has one.
abbrev pub Session : Type 0
Session = SessionEnd calling one_file (codes "tdb")

abbrev nothing : Session
nothing = record { loop = before; disk = none }

abbrev end_of : Option (Outcome Session) → Session
end_of none = nothing
end_of (some panicked) = nothing
end_of (some (done z)) = z

unfoldable pub session : Session
unfolding trace_loop
session =
    end_of
      (trace_loop calling one_file (codes "tdb") 5 (λ i. true) calm none (pos 12) (codes "t.tdb"))

pub session_ends :
    trace_loop calling one_file (codes "tdb") 5 (λ i. true) calm none (pos 12) (codes "t.tdb")
    ≡ some (done session)
unfolding trace_loop session new attach Storage.new run round single_step get_threads
    get_thread_state read_memory Storage.insert byte_len is_call call_annotation decimal save
session_ends = refl

pub two_steps_done : session.loop.tracer.step_count ≡ 2
unfolding session new attach Storage.new run round single_step get_threads get_thread_state
    read_memory Storage.insert byte_len is_call call_annotation decimal save
two_steps_done = refl

trace_loop-saves_example :
    HasSaved calling one_file (codes "tdb") one_file-IsFaithful calm (codes "t.tdb") session
trace_loop-saves_example =
    trace_loop-saves calling one_file (codes "tdb") one_file-IsFaithful 5 (λ i. true) calm none
      (pos 12) (codes "t.tdb") session (omega arith) session_ends

ctrl_c-ends_example : run calling 4 (λ i. leb i 2) 0 before ≢ none
ctrl_c-ends_example = ctrl_c-ends calling (λ i. leb i 2) 3 4 0 before refl (omega arith)

errors-end_example : run stuck 11 (λ i. true) 0 before ≢ none
unfolding get_threads get_thread_state read_memory Storage.insert
errors-end_example =
    errors-end stuck (λ i. true) 11 0 before (λ t w. unfold single_step in tt) (omega arith)
      (omega arith)

before-Tallies : Tallies zeros (Storage.get_all (tracer_of none).db)
unfolding Storage.get_all count_if sum_changes
before-Tallies = record { calls = refl; returns = refl; changes = refl }

unfoldable after_run : LoopEnd World
unfolding run
after_run = elim (run calling 5 (λ i. true) 0 before) [
  | none ↦ before
  | some panicked ↦ before
  | some (done s) ↦ s
]

run_ends : run calling 5 (λ i. true) 0 before ≡ some (done after_run)
unfolding run after_run round single_step get_threads get_thread_state read_memory Storage.insert
    byte_len is_call call_annotation decimal
run_ends = refl

run-Tallied_example : (exited : Bool) × Tallied calling before exited after_run
run-Tallied_example =
    run-Tallied calling before (λ i. true) 5 after_run fresh-IsTrace (omega arith) before-Tallies
      run_ends
