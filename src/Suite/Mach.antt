-- ===== src/Suite/Mach.antt =====
-- The tests of src/tracer/mach.rs on the thread states and on the flavors. What they ask of the
-- alignment is not part of the model.
use tiny_binary_debugger.Base.{refl, ◌*◌, ◌/◌, ◌==◌, [], ◌∷◌, All, ◌>>=◌}
use tiny_binary_debugger.Mach.{state_size, flavor}
use tiny_binary_debugger.Os.{x86_64, aarch64, X86ThreadState, ArmThreadState}
use tiny_binary_debugger.Suite.{Test, Passes, assert}

abbrev x86_thread_state64_size : Test
x86_thread_state64_size = assert (state_size x86_64 == 21 * 8)

abbrev arm_thread_state64_size : Test
arm_thread_state64_size = assert (state_size aarch64 == 272)

abbrev x86_state_count_calculation : Test
x86_state_count_calculation = assert (state_size x86_64 / 4 == 42)

abbrev arm_state_count_calculation : Test
arm_state_count_calculation = assert (state_size aarch64 / 4 == 68)

abbrev flavor_constants : Test
flavor_constants = do _ ← assert (flavor x86_64 == 4); assert (flavor aarch64 == 6)

-- `std::mem::zeroed()`
abbrev zeroed_x86 : X86ThreadState
zeroed_x86 = record {
  rax = 0;
  rbx = 0;
  rcx = 0;
  rdx = 0;
  rdi = 0;
  rsi = 0;
  rbp = 0;
  rsp = 0;
  r8 = 0;
  r9 = 0;
  r10 = 0;
  r11 = 0;
  r12 = 0;
  r13 = 0;
  r14 = 0;
  r15 = 0;
  rip = 0;
  rflags = 0;
  cs = 0;
  fs = 0;
  gs = 0;
}

abbrev zeroed_arm : ArmThreadState
zeroed_arm = record { x = λ i. 0; fp = 0; lr = 0; sp = 0; pc = 0; cpsr = 0; pad = 0 }

abbrev x86_thread_state64_zeroed : Test
x86_thread_state64_zeroed = do
  _ ← assert (zeroed_x86.rax == 0)
  _ ← assert (zeroed_x86.rip == 0)
  _ ← assert (zeroed_x86.rsp == 0)
  assert (zeroed_x86.rflags == 0)

abbrev arm_thread_state64_zeroed : Test
arm_thread_state64_zeroed = do
  _ ← assert (zeroed_arm.x 0 == 0)
  _ ← assert (zeroed_arm.x 28 == 0)
  _ ← assert (zeroed_arm.pc == 0)
  _ ← assert (zeroed_arm.sp == 0)
  _ ← assert (zeroed_arm.cpsr == 0)
  assert (zeroed_arm.pad == 0)

All-Passes : All Passes (
    x86_thread_state64_size ∷ arm_thread_state64_size ∷ x86_state_count_calculation
    ∷ arm_state_count_calculation ∷ x86_thread_state64_zeroed ∷ arm_thread_state64_zeroed
    ∷ flavor_constants ∷ [])
unfolding state_size flavor
All-Passes = (refl, (refl, (refl, (refl, (refl, (refl, (refl, tt)))))))
