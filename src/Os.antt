-- ===== src/Os.antt =====
-- What the tracer and the launcher take from outside the repository: the Mach and ptrace calls of
-- macOS (src/tracer/mach.rs declares the first as `extern "C"`), the Capstone disassembler, and
-- the text that serde_json gives an object of registers. `World` is the state of the machine, the
-- traced process included. The types that these calls exchange stand here too.
use tiny_binary_debugger.Base.{ℕ, Bool, true, false, Option, List, Result, suc, ◌++◌}
use tiny_binary_debugger.Base.Int.{ℤ, pos, negsuc}
use tiny_binary_debugger.Text.{Text, codes}
use tiny_binary_debugger.Text.Number.{decimal}

-- `#[cfg(target_arch = …)]`: the build is for one of the two.
pub data Arch : Type 0 where
  x86_64 aarch64 : Arch

-- `x86_thread_state64_t`
pub record X86ThreadState : Type 0 where
  pub rax : ℕ
  pub rbx : ℕ
  pub rcx : ℕ
  pub rdx : ℕ
  pub rdi : ℕ
  pub rsi : ℕ
  pub rbp : ℕ
  pub rsp : ℕ
  pub r8 : ℕ
  pub r9 : ℕ
  pub r10 : ℕ
  pub r11 : ℕ
  pub r12 : ℕ
  pub r13 : ℕ
  pub r14 : ℕ
  pub r15 : ℕ
  pub rip : ℕ
  pub rflags : ℕ
  pub cs : ℕ
  pub fs : ℕ
  pub gs : ℕ

-- `arm_thread_state64_t`; `x i` is the element of the array `x` at an index below 29.
pub record ArmThreadState : Type 0 where
  pub x : ℕ → ℕ
  pub fp : ℕ
  pub lr : ℕ
  pub sp : ℕ
  pub pc : ℕ
  pub cpsr : ℕ
  pub pad : ℕ

abbrev pub ThreadState : Arch → Type 0
ThreadState x86_64 = X86ThreadState
ThreadState aarch64 = ArmThreadState

-- A signal's number.
abbrev pub Signal : Type 0
Signal = ℕ

abbrev pub sigtrap : Signal
sigtrap = 5

-- `nix::sys::wait::WaitStatus`: `other` is every status that the program does not name, with the
-- text that `{:?}` gives it.
pub data WaitStatus : Type 0 where
  exited : ℤ → WaitStatus
  signaled : Signal → WaitStatus
  stopped : Signal → WaitStatus
  other : Text → WaitStatus

-- An instruction as Capstone decodes it.
pub record Insn : Type 0 where
  pub bytes : List ℕ
  pub mnemonic : Option Text
  pub op_str : Option Text

pub record Os (arch : Arch) : Type 1 where
  pub World : Type 0
  -- the return code and the task's port
  pub task_for_pid : World → ℤ → ℤ × ℕ
  -- the return code, the bytes written to the start of the buffer, and `out_size`
  pub mach_vm_read_overwrite : World → ℕ → ℕ → ℕ → ℤ × List ℕ × ℕ
  -- the return code, the address of the list of threads that the kernel allocates, and its items
  pub task_threads : World → ℕ → World × ℤ × ℕ × List ℕ
  pub mach_vm_deallocate : World → ℕ → ℕ → World
  -- the arguments after the thread are the flavor and the count of 32-bit words
  pub thread_get_state : World → ℕ → ℕ → ℕ → ℤ × ThreadState arch
  pub disasm_all : List ℕ → ℕ → Result (List Insn)
  pub ptrace_step : World → ℤ → Option Signal → World × Result (Unit {0})
  pub ptrace_detach : World → ℤ → World
  pub waitpid : World → ℤ → World × Result WaitStatus
  -- the `{:?}` of a status
  pub debug_status : WaitStatus → Text
  -- `json!({ … }).to_string()` at names with unsigned values
  pub json_text : List (Text × ℕ) → Text

-- `{}` of an `i32`
unfoldable pub display_i32 : ℤ → Text
unfolding decimal
display_i32 (pos n) = decimal n
display_i32 (negsuc n) = codes "-" ++ decimal (suc n)

-- `kr == KERN_SUCCESS`
unfoldable pub is_success : ℤ → Bool
is_success (pos ℕ.zero) = true
is_success (pos (ℕ.suc n)) = false
is_success (negsuc n) = false
