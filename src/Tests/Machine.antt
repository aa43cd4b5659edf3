-- ===== src/Tests/Machine.antt =====
-- A machine, a disk and the walks of the hash maps, all given by concrete functions.
use mathlib.Core.List.Perm
use tiny_binary_debugger.Base.{
  ◌&&◌, ◌==◌, sym, ℕ, ◌≡◌, Option, none, some, List, [], ◌∷◌, Result, ok, err, replicate, length,
  leb, if◌then◌else◌,
}
use tiny_binary_debugger.Base.Int.{pos}
use tiny_binary_debugger.BTreeMap.{BTreeMap}
use tiny_binary_debugger.Os.{x86_64, X86ThreadState, Os, Signal, exited, stopped, Insn}
use tiny_binary_debugger.Stats.{Orders}
use tiny_binary_debugger.Stats.Analyze.{IsWalk}
use tiny_binary_debugger.Storage.{TraceEntry}
use tiny_binary_debugger.Storage.File.{Files, IsFaithful}
use tiny_binary_debugger.Text.{Text, codes}
use tiny_binary_debugger.Tracer.Step.{Tracer}
use mathlib.Core.List.{map}

-- The signals that ptrace was given, and the blocks that `task_threads` allocated, each with its
-- address and its size, last first.
pub record World : Type 0 where
  pub log : List (Option Signal)
  pub allocated : List (ℕ × ℕ)

abbrev pub calm : World
calm = record { log = []; allocated = [] }

-- The blocks that are left when the last one is freed; another address or size frees nothing.
abbrev freed : ℕ → ℕ → List (ℕ × ℕ) → List (ℕ × ℕ)
freed addr size [] = []
freed addr size ((a, n) ∷ blocks) = if a == addr && n == size then blocks else (a, n) ∷ blocks

abbrev pub regs : X86ThreadState
regs = record {
  rax = 1;
  rbx = 2;
  rcx = 3;
  rdx = 4;
  rdi = 5;
  rsi = 6;
  rbp = 7;
  rsp = 1000;
  r8 = 8;
  r9 = 9;
  r10 = 10;
  r11 = 11;
  r12 = 12;
  r13 = 13;
  r14 = 14;
  r15 = 15;
  rip = 4096;
  rflags = 0;
  cs = 0;
  fs = 0;
  gs = 0;
}

abbrev pub call_insn : Insn
call_insn = record {
  bytes = 232 ∷ [];
  mnemonic = some (codes "call");
  op_str = some (codes "0x2000");
}

-- A process that calls again and again. `answer` is what ptrace says; the wait reports a stop by
-- `sig`, or that the process has exited once ptrace was called twice.
abbrev pub machine : Result (Unit {0}) → Signal → Os x86_64
machine answer sig = record {
  World = World;
  task_for_pid = λ w pid. (pos 0, 7);
  mach_vm_read_overwrite = λ w task addr size. (pos 0, replicate size (length w.log), size);
  task_threads = λ w task. (record w { allocated = (4096, 4) ∷ w.allocated }, pos 0, 4096, 1 ∷ []);
  mach_vm_deallocate = λ w addr size. record w { allocated = freed addr size w.allocated };
  thread_get_state = λ w thread flavor words. (pos 0, regs);
  disasm_all = λ code pc. ok (call_insn ∷ []);
  ptrace_step = λ w pid s. (record w { log = s ∷ w.log }, answer);
  ptrace_detach = λ w pid. w;
  waitpid = λ w pid. (w, ok (if leb 2 (length w.log) then exited (pos 0) else stopped sig));
  debug_status = λ s. [];
  -- the numbers alone
  json_text = λ fields. map (λ f. f.1) fields;
}

-- A process that stops by SIGTRAP.
abbrev pub calling : Os x86_64
calling = machine (ok tt) 5

-- One that stops by SIGUSR1, 30.
abbrev pub signalled : Os x86_64
signalled = machine (ok tt) 30

-- One that ptrace never resumes.
abbrev pub stuck : Os x86_64
stuck = machine (err (codes "EIO")) 5

-- A disk with one file, which holds what was written last.
abbrev pub one_file : Files
one_file = record {
  Disk = Option (BTreeMap TraceEntry);
  Bytes = BTreeMap TraceEntry;
  read = λ disk path. elim disk [ none ↦ err (codes "no file") | some bytes ↦ ok bytes ];
  write = λ disk path bytes. (some bytes, ok tt);
  serialize = λ m. ok m;
  deserialize = λ bytes. ok bytes;
}

pub one_file-IsFaithful : IsFaithful one_file
one_file-IsFaithful = record {
  read-write = λ disk disk' path bytes h. read_back disk' bytes h;
  deserialize-serialize = λ m bytes h. sym h;
}
  where
    read_back :
        (disk' : Option (BTreeMap TraceEntry)) (bytes : BTreeMap TraceEntry)
        → ◌≡◌ {A = Option (BTreeMap TraceEntry) × Result (Unit {0})}
            (some bytes, ok tt)
            (disk', ok tt)
        → one_file.read disk' (codes "") ≡ ok bytes
    read_back none bytes h = absurd (cc)
    read_back (some b) bytes h = cc

-- A disk that is full.
abbrev pub full_disk : Files
full_disk = record {
  Disk = Unit {0};
  Bytes = BTreeMap TraceEntry;
  read = λ disk path. err (codes "no file");
  write = λ disk path bytes. (disk, err (codes "no space"));
  serialize = λ m. ok m;
  deserialize = λ bytes. ok bytes;
}

abbrev pub in_order : Orders
in_order = record { walk_addrs = λ m. m; walk_insns = λ m. m }

pub in_order-IsWalk : IsWalk in_order
in_order-IsWalk = record { addrs = λ m. Perm.refl m; insns = λ m. Perm.refl m }

abbrev pub entry_at : ℕ → Text → TraceEntry
entry_at step text = record {
  step = step;
  pc = 4096;
  insn_bytes = 144 ∷ [];
  insn_text = text;
  regs = [];
  mem_changes = [];
}

-- A tracer before its first step, with a signal or none pending.
abbrev pub tracer_of : Option Signal → Tracer
tracer_of sig = record {
  task = 7;
  pid = pos 12;
  db = record { entries = []; path = codes "t.tdb" };
  step_count = 0;
  memory_cache = λ _. none;
  last_sp = 0;
  call_depth = 0;
  pending_signal = sig;
}
