-- ===== src/Tracer/Registers.antt =====
-- The registers of a thread: the program counter, the stack pointer, and the names under which
-- all of them are recorded.
use tiny_binary_debugger.Base.{ℕ, List, [], ◌∷◌}
use tiny_binary_debugger.Os.{Arch, x86_64, aarch64, ThreadState}
use tiny_binary_debugger.Text.{Text, codes}

unfoldable pub pc_of : (arch : Arch) → ThreadState arch → ℕ
pc_of x86_64 state = state.rip
pc_of aarch64 state = state.pc

unfoldable pub sp_of : (arch : Arch) → ThreadState arch → ℕ
sp_of x86_64 state = state.rsp
sp_of aarch64 state = state.sp

-- The fields of `serde_json::json!({ … })`.
unfoldable pub registers : (arch : Arch) → ThreadState arch → List (Text × ℕ)
registers x86_64 state =
    (codes "rax", state.rax)
    ∷ (codes "rbx", state.rbx)
    ∷ (codes "rcx", state.rcx)
    ∷ (codes "rdx", state.rdx)
    ∷ (codes "rdi", state.rdi)
    ∷ (codes "rsi", state.rsi)
    ∷ (codes "rbp", state.rbp)
    ∷ (codes "rsp", state.rsp)
    ∷ (codes "r8", state.r8)
    ∷ (codes "r9", state.r9)
    ∷ (codes "r10", state.r10)
    ∷ (codes "r11", state.r11)
    ∷ (codes "r12", state.r12)
    ∷ (codes "r13", state.r13)
    ∷ (codes "r14", state.r14)
    ∷ (codes "r15", state.r15)
    ∷ (codes "rip", state.rip)
    ∷ (codes "rflags", state.rflags)
    ∷ []
registers aarch64 state =
    (codes "x0", state.x 0)
    ∷ (codes "x1", state.x 1)
    ∷ (codes "x2", state.x 2)
    ∷ (codes "x3", state.x 3)
    ∷ (codes "x4", state.x 4)
    ∷ (codes "x5", state.x 5)
    ∷ (codes "x6", state.x 6)
    ∷ (codes "x7", state.x 7)
    ∷ (codes "x8", state.x 8)
    ∷ (codes "x9", state.x 9)
    ∷ (codes "x10", state.x 10)
    ∷ (codes "x11", state.x 11)
    ∷ (codes "x12", state.x 12)
    ∷ (codes "x13", state.x 13)
    ∷ (codes "x14", state.x 14)
    ∷ (codes "x15", state.x 15)
    ∷ (codes "x16", state.x 16)
    ∷ (codes "x17", state.x 17)
    ∷ (codes "x18", state.x 18)
    ∷ (codes "x19", state.x 19)
    ∷ (codes "x20", state.x 20)
    ∷ (codes "x21", state.x 21)
    ∷ (codes "x22", state.x 22)
    ∷ (codes "x23", state.x 23)
    ∷ (codes "x24", state.x 24)
    ∷ (codes "x25", state.x 25)
    ∷ (codes "x26", state.x 26)
    ∷ (codes "x27", state.x 27)
    ∷ (codes "x28", state.x 28)
    ∷ (codes "fp", state.fp)
    ∷ (codes "lr", state.lr)
    ∷ (codes "sp", state.sp)
    ∷ (codes "pc", state.pc)
    ∷ (codes "cpsr", state.cpsr)
    ∷ []
