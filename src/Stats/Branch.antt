-- ===== src/Stats/Branch.antt =====
-- Which mnemonics count as jumps.
use tiny_binary_debugger.Base.{◌≡◌, refl, ◌⊎◌, inl, inr, true, false, All}
use tiny_binary_debugger.Os.{Arch, x86_64, aarch64}
use tiny_binary_debugger.Stats.{is_branch_mnemonic}
use tiny_binary_debugger.Text.{Text}
use tiny_binary_debugger.Text.Laws.{one_of-elim}
use tiny_binary_debugger.Tracer.Annotation.{is_call, is_return, call_mnemonics, return_mnemonics}

-- No call and no return counts as a jump.
pub calls-not-branches :
    (arch : Arch) (m : Text)
    → (is_call arch m ≡ true) ⊎ (is_return arch m ≡ true)
    → is_branch_mnemonic m ≡ false
unfolding is_call is_return is_branch_mnemonic
calls-not-branches arch m (inl h) =
    one_of-elim (λ t. is_branch_mnemonic t ≡ false) m (call_mnemonics arch) (each arch) h
  where
    each : (a : Arch) → All (λ t. is_branch_mnemonic t ≡ false) (call_mnemonics a)
    each x86_64 = (refl, (refl, tt))
    each aarch64 = (refl, (refl, (refl, (refl, tt))))
calls-not-branches arch m (inr h) =
    one_of-elim (λ t. is_branch_mnemonic t ≡ false) m (return_mnemonics arch) (each arch) h
  where
    each : (a : Arch) → All (λ t. is_branch_mnemonic t ≡ false) (return_mnemonics a)
    each x86_64 = (refl, (refl, tt))
    each aarch64 = (refl, (refl, (refl, tt)))
