-- ===== src/Tui/Panes/Shown.antt =====
-- The registers in the order in which they are shown.
use mathlib.Core.List.{Perm}
use mathlib.Core.List.Perm
use mathlib.Core.Path.{subst}
use tiny_binary_debugger.Base.{◌≡◌, refl, true, List, [], ◌∷◌, map}
use tiny_binary_debugger.Os.{Arch, x86_64, aarch64, ThreadState}
use tiny_binary_debugger.Text.{Text, codes}
use tiny_binary_debugger.Tracer.Registers.{registers}
use tiny_binary_debugger.Tui.{Host, App, current_regs}
use tiny_binary_debugger.Tui.Panes.Registers.{reg_sort_key, sort_names, register_names}
use tiny_binary_debugger.Tui.Panes.Order.{
  sorted_unique, sort_names-Follows, sort_names-perm, ascending-Follows, ascending,
}

-- The names under which the tracer records the registers.
abbrev pub names_of : (arch : Arch) → ThreadState arch → List Text
names_of arch state = map (λ r. r.0) (registers arch state)

-- The order in which they are shown.
abbrev pub shown_order : Arch → List Text
shown_order x86_64 =
    codes "rax"
    ∷ codes "rbx"
    ∷ codes "rcx"
    ∷ codes "rdx"
    ∷ codes "rdi"
    ∷ codes "rsi"
    ∷ codes "rbp"
    ∷ codes "rsp"
    ∷ codes "r8"
    ∷ codes "r9"
    ∷ codes "r10"
    ∷ codes "r11"
    ∷ codes "r12"
    ∷ codes "r13"
    ∷ codes "r14"
    ∷ codes "r15"
    ∷ codes "rip"
    ∷ codes "rflags"
    ∷ []
shown_order aarch64 =
    codes "x0"
    ∷ codes "x1"
    ∷ codes "x2"
    ∷ codes "x3"
    ∷ codes "x4"
    ∷ codes "x5"
    ∷ codes "x6"
    ∷ codes "x7"
    ∷ codes "x8"
    ∷ codes "x9"
    ∷ codes "x10"
    ∷ codes "x11"
    ∷ codes "x12"
    ∷ codes "x13"
    ∷ codes "x14"
    ∷ codes "x15"
    ∷ codes "x16"
    ∷ codes "x17"
    ∷ codes "x18"
    ∷ codes "x19"
    ∷ codes "x20"
    ∷ codes "x21"
    ∷ codes "x22"
    ∷ codes "x23"
    ∷ codes "x24"
    ∷ codes "x25"
    ∷ codes "x26"
    ∷ codes "x27"
    ∷ codes "x28"
    ∷ codes "pc"
    ∷ codes "fp"
    ∷ codes "lr"
    ∷ codes "sp"
    ∷ codes "cpsr"
    ∷ []

shown_order-ascending : (arch : Arch) → ascending (shown_order arch) ≡ true
unfolding reg_sort_key
shown_order-ascending x86_64 = refl
shown_order-ascending aarch64 = refl

sort_names-names_of :
    (arch : Arch) (state : ThreadState arch) → sort_names (names_of arch state) ≡ shown_order arch
unfolding sort_names registers
sort_names-names_of x86_64 state = refl
sort_names-names_of aarch64 state = refl

-- If the registers of the current entry have the names that the tracer records, they are shown in one
-- order, that of `shown_order`, in whatever order the hash map is walked.
pub register_names-order :
    (host : Host) (app : App host) (arch : Arch) (state : ThreadState arch)
    → Perm (host.walk_regs (current_regs host app)) (current_regs host app)
    → Perm (map (λ r. r.0) (current_regs host app)) (names_of arch state)
    → register_names host app ≡ shown_order arch
unfolding register_names
register_names-order host app arch state walk names =
    sorted_unique _ (shown_order arch)
      (sort_names-Follows (map (λ r. r.0) (host.walk_regs (current_regs host app))))
      (ascending-Follows (shown_order arch) (shown_order-ascending arch))
      (Perm.trans (sort_names-perm _) (
        Perm.trans (Perm.map (λ r. r.0) walk) (
          Perm.trans names (
            Perm.trans (Perm.symm (sort_names-perm (names_of arch state))) (
              subst (λ l. Perm (sort_names (names_of arch state)) l)
                (sort_names-names_of arch state) (Perm.refl _))))))
