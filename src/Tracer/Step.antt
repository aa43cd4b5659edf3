-- ===== src/Tracer/Step.antt =====
-- `Tracer` and its `single_step`. The early returns of `single_step` are the error cases of a row
-- of functions, one for each result that it matches on.
use tiny_binary_debugger.Base.{
  ℕ, ◌+◌, ◌%◌, ◌^◌, ◌||◌, not, Option, none, some, List, [], ◌∷◌, ◌++◌, ◌==◌, if◌then◌else◌, Result,
  ok, err,
}
use tiny_binary_debugger.Base.Int.{ℤ, negsuc}
use tiny_binary_debugger.Mach.{attach, read_memory, get_threads, get_thread_state}
use tiny_binary_debugger.Os.{
  Arch, Os, ThreadState, Signal, sigtrap, WaitStatus, exited, signaled, stopped, other, Insn,
}
use tiny_binary_debugger.Storage
use tiny_binary_debugger.Storage.{TraceEntry, TraceDb}
use tiny_binary_debugger.Text.{Text, codes}
use tiny_binary_debugger.Text.Number.{hex_lower}
use tiny_binary_debugger.Tracer.Annotation.{or_empty, insn_text, next_depth, annotation, full_text}
use tiny_binary_debugger.Tracer.Memory.{Cache, is_store_mnemonic, note_changes, window_base}
use tiny_binary_debugger.Tracer.Registers.{pc_of, sp_of, registers}

-- `Ok` carries the entry; the name keeps it apart from the `Ok` of `Result`.
pub data StepResult : Type 0 where
  recorded : TraceEntry → StepResult
  process_exited : ℤ → StepResult
  error : Text → StepResult

-- The Capstone handle has no state that the program sees.
pub record Tracer : Type 0 where
  pub task : ℕ
  pub pid : ℤ
  pub db : TraceDb
  pub step_count : ℕ
  pub memory_cache : Cache
  pub last_sp : ℕ
  pub call_depth : ℕ
  pub pending_signal : Option Signal

module _ {arch : Arch} (os : Os arch) where
  open os use {World, disasm_all, ptrace_step, ptrace_detach, waitpid, debug_status, json_text}

  abbrev pub Stepped : Type 0
  Stepped = StepResult × Tracer × World

  unfoldable pub tracer_with : ℤ → ℕ → Result TraceDb → Result Tracer
  tracer_with pid task (err e) = err e
  tracer_with pid task (ok db) = ok (record {
    task = task;
    pid = pid;
    db = db;
    step_count = 0;
    memory_cache = λ _. none;
    last_sp = 0;
    call_depth = 0;
    pending_signal = none;
  })

  unfoldable pub new_with : ℤ → Text → Result ℕ → Result Tracer
  unfolding tracer_with
  new_with pid db_path (err e) = err e
  new_with pid db_path (ok task) = tracer_with pid task (Storage.new db_path)

  -- Building the Capstone handle, with fixed arguments, is taken to succeed.
  unfoldable pub new : World → ℤ → Text → Result Tracer
  unfolding new_with
  new w pid db_path = new_with pid db_path (attach os w pid)

  -- Step 7: what the wait says about the step of `entry`.
  unfoldable pub settle : Tracer → TraceEntry → World × Result WaitStatus → Stepped
  settle t entry (w, ok (stopped sig)) =
      if sig == sigtrap
      then (recorded entry, t, w)
      else (recorded entry, record t { pending_signal = some sig }, w)
  settle t entry (w, ok (exited code)) = (process_exited code, t, w)
  settle t entry (w, ok (signaled sig)) = (process_exited (negsuc 0), t, w)
  settle t entry (w, ok (other name)) =
      (error (codes "Unexpected wait status: " ++ debug_status (other name)), t, w)
  settle t entry (w, err e) = (error (codes "waitpid: " ++ e), t, w)

  -- Step 6: one instruction by ptrace. `take` has emptied `pending_signal`.
  unfoldable pub resume : Tracer → TraceEntry → World × Result (Unit {0}) → Stepped
  unfolding settle
  resume t entry (w, err e) = (error (codes "ptrace(PT_STEP) failed: " ++ e), t, w)
  resume t entry (w, ok _) = settle t entry (waitpid w t.pid)

  unfoldable pub execute : Tracer → TraceEntry → World → Stepped
  unfolding resume
  execute t entry w =
      resume (record t { pending_signal = none }) entry (ptrace_step w t.pid t.pending_signal)

  unfoldable pub store_entry : Tracer → TraceEntry → ℕ → World → Result TraceDb → Stepped
  unfolding execute
  store_entry t entry sp w (err e) = (error e, t, w)
  store_entry t entry sp w (ok db) =
      execute (record t { db = db; step_count = (t.step_count + 1) % 2 ^ 64; last_sp = sp }) entry w

  -- The changes and the cache after step 4.
  unfoldable pub detect_changes : Tracer → Text → ℕ → World → List Storage.MemChange × Cache
  unfolding note_changes window_base
  detect_changes t mnemonic sp w =
      if not (sp == t.last_sp) || is_store_mnemonic mnemonic
      then note_changes t.memory_cache (window_base sp)
          (read_memory os w t.task (window_base sp) 256)
      else ([], t.memory_cache)

  unfoldable pub entry_for : Tracer → ThreadState arch → Insn → List Storage.MemChange → TraceEntry
  unfolding or_empty insn_text annotation full_text pc_of registers
  entry_for t state insn mem_changes =
      let mnemonic = or_empty insn.mnemonic in
      record {
        step = t.step_count;
        pc = pc_of arch state;
        insn_bytes = insn.bytes;
        insn_text =
            full_text (insn_text mnemonic (or_empty insn.op_str))
              (annotation arch mnemonic t.call_depth);
        regs = json_text (registers arch state);
        mem_changes = mem_changes;
      }

  -- Steps 3 to 7, for the first instruction at the program counter.
  unfoldable pub record_insn : Tracer → World → ThreadState arch → Insn → Stepped
  unfolding or_empty sp_of next_depth detect_changes entry_for store_entry
  record_insn t w state insn =
      let mnemonic = or_empty insn.mnemonic in
      let sp = sp_of arch state in
      let (changes, cache) = detect_changes t mnemonic sp w in
      let entry = entry_for t state insn changes in
      let t' : Tracer = record t {
        memory_cache = cache;
        call_depth = next_depth arch mnemonic t.call_depth;
      } in
      store_entry t' entry sp w (Storage.insert t'.db entry)

  unfoldable pub with_insns : Tracer → World → ThreadState arch → Result (List Insn) → Stepped
  unfolding record_insn
  with_insns t w state (err e) =
      (error (codes "Disasm at 0x" ++ hex_lower (pc_of arch state) ++ codes ": " ++ e), t, w)
  with_insns t w state (ok []) =
      (error (codes "No instruction at 0x" ++ hex_lower (pc_of arch state)), t, w)
  with_insns t w state (ok (insn ∷ _)) = record_insn t w state insn

  unfoldable pub with_code : Tracer → World → ThreadState arch → Result (List ℕ) → Stepped
  unfolding with_insns pc_of
  with_code t w state (err e) =
      (error (codes "Read at PC 0x" ++ hex_lower (pc_of arch state) ++ codes ": " ++ e), t, w)
  with_code t w state (ok code) = with_insns t w state (disasm_all code (pc_of arch state))

  -- The first stack pointer that is seen stands for the last one.
  unfoldable pub seen_sp : Tracer → ℕ → Tracer
  seen_sp t sp = if t.last_sp == 0 then record t { last_sp = sp } else t

  unfoldable pub with_state : Tracer → World → Result (ThreadState arch) → Stepped
  unfolding with_code seen_sp sp_of pc_of
  with_state t w (err e) = (error e, t, w)
  with_state t w (ok state) =
      with_code (seen_sp t (sp_of arch state)) w state
        (read_memory os w t.task (pc_of arch state) 16)

  unfoldable pub with_threads : Tracer → World × Result (List ℕ) → Stepped
  unfolding with_state
  with_threads t (w, err e) = (error e, t, w)
  with_threads t (w, ok []) = (error (codes "No threads found"), t, w)
  with_threads t (w, ok (thread ∷ _)) = with_state t w (get_thread_state os w thread)

  unfoldable pub single_step : Tracer → World → Stepped
  unfolding with_threads
  single_step t w = with_threads t (get_threads os w t.task)

  unfoldable pub detach : Tracer → World → World
  detach t w = ptrace_detach w t.pid
