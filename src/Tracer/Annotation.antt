-- ===== src/Tracer/Annotation.antt =====
-- The text of an instruction, and the detection of calls and returns with the depth of calls.
use tiny_binary_debugger.Base.{
  ℕ, ◌+◌, ◌-◌, ◌%◌, ◌^◌, Bool, Option, none, some, List, [], ◌∷◌, ◌++◌, is_empty, ltb,
  if◌then◌else◌,
}
use tiny_binary_debugger.Text.{Text, codes, one_of}
use tiny_binary_debugger.Text.Number.{decimal}
use tiny_binary_debugger.Os.{Arch, x86_64, aarch64}

unfoldable pub call_mnemonics : Arch → List Text
call_mnemonics x86_64 = codes "call" ∷ codes "callq" ∷ []
call_mnemonics aarch64 = codes "bl" ∷ codes "blr" ∷ codes "blraa" ∷ codes "blrab" ∷ []

unfoldable pub return_mnemonics : Arch → List Text
return_mnemonics x86_64 = codes "ret" ∷ codes "retq" ∷ []
return_mnemonics aarch64 = codes "ret" ∷ codes "retab" ∷ codes "retaa" ∷ []

unfoldable pub is_call : Arch → Text → Bool
unfolding one_of call_mnemonics
is_call arch mnemonic = one_of mnemonic (call_mnemonics arch)

unfoldable pub is_return : Arch → Text → Bool
unfolding one_of return_mnemonics
is_return arch mnemonic = one_of mnemonic (return_mnemonics arch)

-- `unwrap_or("")`
unfoldable pub or_empty : Option Text → Text
or_empty none = []
or_empty (some t) = t

unfoldable pub insn_text : Text → Text → Text
insn_text mnemonic operands =
    if is_empty operands then mnemonic else mnemonic ++ codes " " ++ operands

unfoldable pub call_annotation : ℕ → Text
call_annotation depth = codes "CALL [depth:" ++ (decimal depth ++ codes "]")

unfoldable pub return_annotation : ℕ → Text
return_annotation depth = codes "RETURN [depth:" ++ (decimal depth ++ codes "]")

-- The depth of calls after the instruction. The counter is a `u64`.
unfoldable pub next_depth : Arch → Text → ℕ → ℕ
next_depth arch mnemonic depth =
    if is_call arch mnemonic
    then (depth + 1) % 2 ^ 64
    else if is_return arch mnemonic
    then (if ltb 0 depth then depth - 1 else depth)
    else depth

unfoldable pub annotation : Arch → Text → ℕ → Text
annotation arch mnemonic depth =
    if is_call arch mnemonic
    then call_annotation (next_depth arch mnemonic depth)
    else if is_return arch mnemonic
    then return_annotation (next_depth arch mnemonic depth)
    else []

unfoldable pub full_text : Text → Text → Text
full_text text note = if is_empty note then text else text ++ (codes " ; " ++ note)
