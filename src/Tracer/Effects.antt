-- ===== src/Tracer/Effects.antt =====
-- What a step may do to the tracer.
use tiny_binary_debugger.Base.{[], ◌⊎◌, ◌∷◌, List, ℕ, ◌+◌, ◌%◌, ◌^◌, ◌≡◌, Option, Result, ok, err}
use tiny_binary_debugger.Os.{
  Arch, Os, ThreadState, Signal, WaitStatus, exited, signaled, stopped, other, Insn,
}
use tiny_binary_debugger.Base.Int.{ℤ}
use tiny_binary_debugger.Storage.{TraceEntry}
use tiny_binary_debugger.Storage.Db.{after_insert}
use tiny_binary_debugger.Text.{Text}
use tiny_binary_debugger.Tracer.Registers.{registers, pc_of, sp_of}
use tiny_binary_debugger.Tracer.Memory.{Cache, window_base, changes_since, cache_insert}
use tiny_binary_debugger.Storage
use tiny_binary_debugger.Tracer.Step.{StepResult, recorded, process_exited, error, Tracer}
use tiny_binary_debugger.Tracer.Annotation.{next_depth, annotation, or_empty, insn_text, full_text}
use tiny_binary_debugger.Mach.{read_memory, get_threads, get_thread_state}

-- Nothing was recorded: at most the first stack pointer was noted.
pub record Kept (t u : Tracer) : Type 0 where
  pub db : u.db ≡ t.db
  pub step_count : u.step_count ≡ t.step_count
  pub call_depth : u.call_depth ≡ t.call_depth
  pub memory_cache : u.memory_cache ≡ t.memory_cache
  pub pending_signal : u.pending_signal ≡ t.pending_signal

-- In the world `w` the state was read of the first thread of the task, and the instruction was
-- decoded at its program counter.
pub record Seen {arch : Arch} (os : Os arch) (task : ℕ) (w : os.World) (state : ThreadState arch)
    (insn : Insn) : Type 0 where
  pub listed : os.World
  pub thread : ℕ
  pub others : List ℕ
  pub threads : get_threads os w task ≡ (listed, ok (thread ∷ others))
  pub state_of : get_thread_state os listed thread ≡ ok state
  pub code : List ℕ
  pub code_of : read_memory os listed task (pc_of arch state) 16 ≡ ok code
  pub after : List Insn
  pub decoded : os.disasm_all code (pc_of arch state) ≡ ok (insn ∷ after)

-- No changes are noted and the cache stays, or the window around the stack pointer `sp` was read in
-- the world `w`: the changes are those against what the cache of `t` holds for the window, and the
-- cache then holds what was read.
abbrev pub Noted :
    {arch : Arch} (os : Os arch) → Tracer → os.World → ℕ → List Storage.MemChange → Cache → Type 0
Noted os t w sp changes cache =
    ((changes ≡ []) × (cache ≡ t.memory_cache))
    ⊎ ((new : List ℕ) × (read_memory os w t.task (window_base sp) 256 ≡ ok new)
        × (changes ≡ changes_since (window_base sp) (t.memory_cache (window_base sp)) new)
        × (cache ≡ cache_insert t.memory_cache (window_base sp) new))

-- The entry `e` shows the state and the instruction of the world `w`, annotated by the depth of
-- calls of the tracer `t`; the depth of `u` follows the instruction.
pub record Made {arch : Arch} (os : Os arch) (t : Tracer) (w : os.World) (u : Tracer)
    (e : TraceEntry) : Type 0 where
  pub state : ThreadState arch
  pub insn : Insn
  pub seen : Seen os t.task w state insn
  pub pc : e.pc ≡ pc_of arch state
  pub bytes : e.insn_bytes ≡ insn.bytes
  pub regs : e.regs ≡ os.json_text (registers arch state)
  pub text :
      e.insn_text
      ≡ full_text
          (insn_text (or_empty insn.mnemonic) (or_empty insn.op_str))
          (annotation arch (or_empty insn.mnemonic) t.call_depth)
  pub changes : Noted os t seen.listed (sp_of arch state) e.mem_changes u.memory_cache
  pub deeper : u.call_depth ≡ next_depth arch (or_empty insn.mnemonic) t.call_depth

-- The entry `e` was recorded, under the number of steps before it.
pub record Advanced {arch : Arch} (os : Os arch) (t : Tracer) (w : os.World) (u : Tracer)
    (e : TraceEntry) : Type 0 where
  pub made : Made os t w u e
  pub db : u.db ≡ after_insert t.db e
  pub step : e.step ≡ t.step_count
  pub step_count : u.step_count ≡ (t.step_count + 1) % 2 ^ 64

-- A wait that reports none of the ends that the tracer knows.
abbrev pub IsStrange : Result WaitStatus → Type 0
IsStrange (ok (stopped sig)) = ⊥
IsStrange (ok (exited code)) = ⊥
IsStrange (ok (signaled sig)) = ⊥
IsStrange (ok (other name)) = Unit
IsStrange (err m) = Unit

-- ptrace refused to resume some process, or some wait was strange.
pub data Trouble {arch : Arch} (os : Os arch) : Type 0 where
  refused :
      (w : os.World) (pid : ℤ) (sig : Option Signal) (m : Text)
      → (os.ptrace_step w pid sig).1 ≡ err m
      → Trouble os
  strange : (w : os.World) (pid : ℤ) → IsStrange (os.waitpid w pid).1 → Trouble os

-- After the entry `e` was recorded, a result that carries an entry carries that one, and an error
-- comes of trouble with the process.
abbrev pub Reports : {arch : Arch} → Os arch → StepResult → TraceEntry → Type 0
Reports os (recorded f) e = f ≡ e
Reports os (process_exited code) e = Unit
Reports os (error m) e = Trouble os

abbrev pub IsError : StepResult → Type 0
IsError (recorded f) = ⊥
IsError (process_exited code) = ⊥
IsError (error m) = Unit
