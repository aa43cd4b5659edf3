-- ===== src/Suite/Branches.antt =====
-- The tests of src/stats/mod.rs on `is_branch_mnemonic`.
use tiny_binary_debugger.Base.{refl, Bool, not, List, [], ◌∷◌, All, done, ◌>>=◌}
use tiny_binary_debugger.Stats.{is_branch_mnemonic}
use tiny_binary_debugger.Suite.{Test, Passes, assert}
use tiny_binary_debugger.Text.{Text, codes}

-- `for m in &[…] { assert!(…); }`
abbrev assert_all : (Text → Bool) → List Text → Test
assert_all check [] = done tt
assert_all check (m ∷ ms) = do _ ← assert (check m); assert_all check ms

abbrev branch_mnemonic_x86_jmp : Test
branch_mnemonic_x86_jmp = assert (is_branch_mnemonic (codes "jmp"))

abbrev branch_mnemonic_x86_conditional : Test
branch_mnemonic_x86_conditional = assert_all is_branch_mnemonic (
    codes "je"
    ∷ codes "jne"
    ∷ codes "jz"
    ∷ codes "jnz"
    ∷ codes "jg"
    ∷ codes "jge"
    ∷ codes "jl"
    ∷ codes "jle"
    ∷ codes "ja"
    ∷ codes "jb"
    ∷ codes "jbe"
    ∷ codes "jae"
    ∷ [])

abbrev branch_mnemonic_arm64_unconditional : Test
branch_mnemonic_arm64_unconditional = do
  _ ← assert (is_branch_mnemonic (codes "b"))
  assert (is_branch_mnemonic (codes "br"))

abbrev branch_mnemonic_arm64_conditional : Test
branch_mnemonic_arm64_conditional = assert_all is_branch_mnemonic (
    codes "b.eq"
    ∷ codes "b.ne"
    ∷ codes "b.cs"
    ∷ codes "b.cc"
    ∷ codes "b.mi"
    ∷ codes "b.pl"
    ∷ codes "b.vs"
    ∷ codes "b.vc"
    ∷ codes "b.hi"
    ∷ codes "b.ls"
    ∷ codes "b.ge"
    ∷ codes "b.lt"
    ∷ codes "b.gt"
    ∷ codes "b.le"
    ∷ codes "b.al"
    ∷ [])

abbrev branch_mnemonic_arm64_compare_branch : Test
branch_mnemonic_arm64_compare_branch = do
  _ ← assert (is_branch_mnemonic (codes "cbz"))
  _ ← assert (is_branch_mnemonic (codes "cbnz"))
  _ ← assert (is_branch_mnemonic (codes "tbz"))
  assert (is_branch_mnemonic (codes "tbnz"))

abbrev not_branch_calls : Test
not_branch_calls = do
  _ ← assert (not (is_branch_mnemonic (codes "bl")))
  _ ← assert (not (is_branch_mnemonic (codes "blr")))
  _ ← assert (not (is_branch_mnemonic (codes "blraa")))
  assert (not (is_branch_mnemonic (codes "blrab")))

abbrev not_branch_alu_starting_with_b : Test
not_branch_alu_starting_with_b = do
  _ ← assert (not (is_branch_mnemonic (codes "bic")))
  _ ← assert (not (is_branch_mnemonic (codes "bfm")))
  _ ← assert (not (is_branch_mnemonic (codes "bfi")))
  assert (not (is_branch_mnemonic (codes "bfxil")))

abbrev not_branch_common_insns : Test
not_branch_common_insns =
    assert_all (λ m. not (is_branch_mnemonic m))
      (codes "mov"
        ∷ codes "add"
        ∷ codes "sub"
        ∷ codes "ldr"
        ∷ codes "str"
        ∷ codes "nop"
        ∷ codes "ret"
        ∷ codes "svc"
        ∷ codes "adr"
        ∷ codes "adrp"
        ∷ [])

All-Passes : All Passes (
    branch_mnemonic_x86_jmp ∷ branch_mnemonic_x86_conditional ∷ branch_mnemonic_arm64_unconditional
    ∷ branch_mnemonic_arm64_conditional ∷ branch_mnemonic_arm64_compare_branch ∷ not_branch_calls
    ∷ not_branch_alu_starting_with_b ∷ not_branch_common_insns ∷ [])
unfolding is_branch_mnemonic
All-Passes = (refl, (refl, (refl, (refl, (refl, (refl, (refl, (refl, tt))))))))
