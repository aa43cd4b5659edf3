-- ===== src/Suite/Statistics.antt =====
-- The tests of src/stats/mod.rs on `TraceStats::analyze`. The hash maps are walked in the order in
-- which their keys were first counted.
use tiny_binary_debugger.Base.{
  ℕ, ◌+◌, ◌*◌, ◌%◌, ◌^◌, refl, List, [], ◌∷◌, ◌++◌, All, length, is_empty, leb, ◌==◌, ◌>>=◌,
}
use tiny_binary_debugger.BTreeMap
use tiny_binary_debugger.Stats.{
  Orders, analyze, is_call_text, is_return_text, is_jump, mnemonic_of, is_branch_mnemonic,
}
use tiny_binary_debugger.Storage.{MemChange, TraceEntry}
use tiny_binary_debugger.Suite.{Test, Passes, assert, unwrap, item, insert_all, db_with, collect}
use tiny_binary_debugger.Suite.Database.{is_none}
use tiny_binary_debugger.Text.{Text, codes, text_eq, contains, first_word}
use tiny_binary_debugger.Text.Number.{decimal}

abbrev first_counted : Orders
first_counted = record { walk_addrs = λ m. m; walk_insns = λ m. m }

abbrev entry : ℕ → ℕ → Text → TraceEntry
entry step pc insn = record {
  step = step;
  pc = pc;
  insn_bytes = 0x00 ∷ [];
  insn_text = insn;
  regs = codes "{\"x0\":0,\"sp\":4096}";
  mem_changes = [];
}

-- The cast of `i` to `u8` wraps.
abbrev pub some_changes : ℕ → List MemChange
some_changes n = collect (λ i. record { addr = 0x1000 + i; old_val = 0; new_val = i % 2 ^ 8 }) 0 n

abbrev entry_with_mem : ℕ → ℕ → Text → ℕ → TraceEntry
entry_with_mem step pc insn n = record {
  step = step;
  pc = pc;
  insn_bytes = 0x00 ∷ [];
  insn_text = insn;
  regs = codes "{\"x0\":0,\"sp\":4096}";
  mem_changes = some_changes n;
}

abbrev empty_trace_gives_all_zeros : Test
empty_trace_gives_all_zeros = do
  db ← db_with []
  let s = analyze first_counted db
  _ ← assert (s.total_steps == 0)
  _ ← assert (s.unique_addresses == 0)
  _ ← assert (s.call_count == 0)
  _ ← assert (s.ret_count == 0)
  _ ← assert (s.jump_count == 0)
  _ ← assert (s.mem_change_count == 0)
  _ ← assert (is_none s.most_executed_address)
  assert (is_empty s.instruction_counts)

abbrev single_step_counted : Test
single_step_counted = do
  db ← db_with (entry 0 0x1000 (codes "mov x0, #1") ∷ [])
  let s = analyze first_counted db
  _ ← assert (s.total_steps == 1)
  assert (s.unique_addresses == 1)

abbrev call_annotation_counted : Test
call_annotation_counted = do
  db ← db_with (
      entry 0 0x1000 (codes "bl #0x2000 ; CALL [depth:1]")
      ∷ entry 1 0x2000 (codes "mov x0, #0")
      ∷ entry 2 0x2004 (codes "bl #0x3000 ; CALL [depth:2]")
      ∷ [])
  let s = analyze first_counted db
  assert (s.call_count == 2)

abbrev return_annotation_counted : Test
return_annotation_counted = do
  db ← db_with (
      entry 0 0x1000 (codes "ret ; RETURN [depth:0]")
      ∷ entry 1 0x2000 (codes "mov x0, #0")
      ∷ entry 2 0x2004 (codes "ret ; RETURN [depth:0]")
      ∷ [])
  let s = analyze first_counted db
  assert (s.ret_count == 2)

abbrev call_and_return_are_independent_counts : Test
call_and_return_are_independent_counts = do
  db ← db_with (
      entry 0 0x1000 (codes "bl #0x2000 ; CALL [depth:1]")
      ∷ entry 1 0x2000 (codes "ret ; RETURN [depth:0]")
      ∷ [])
  let s = analyze first_counted db
  _ ← assert (s.call_count == 1)
  assert (s.ret_count == 1)

abbrev x86_jumps_counted : Test
x86_jumps_counted = do
  db ← db_with (
      entry 0 0x1000 (codes "jmp 0x2000")
      ∷ entry 1 0x2000 (codes "je 0x3000")
      ∷ entry 2 0x3000 (codes "jne 0x4000")
      ∷ entry 3 0x4000 (codes "mov eax, 1")
      ∷ [])
  let s = analyze first_counted db
  assert (s.jump_count == 3)

abbrev arm64_branches_counted : Test
arm64_branches_counted = do
  db ← db_with (
      entry 0 0x1000 (codes "b #0x2000")
      ∷ entry 1 0x2000 (codes "b.eq #0x3000")
      ∷ entry 2 0x3000 (codes "br x16")
      ∷ entry 3 0x4000 (codes "cbz x0, #0x5000")
      ∷ entry 4 0x5000 (codes "cbnz x1, #0x6000")
      ∷ entry 5 0x6000 (codes "tbz x2, #3, #0x7000")
      ∷ entry 6 0x7000 (codes "tbnz x3, #5, #0x8000")
      ∷ [])
  let s = analyze first_counted db
  assert (s.jump_count == 7)

abbrev bl_blr_not_counted_as_jumps : Test
bl_blr_not_counted_as_jumps = do
  db ← db_with (
      entry 0 0x1000 (codes "bl #0x2000 ; CALL [depth:1]")
      ∷ entry 1 0x2000 (codes "blr x8 ; CALL [depth:2]")
      ∷ [])
  let s = analyze first_counted db
  assert (s.jump_count == 0)

abbrev bic_bfm_not_counted_as_jumps : Test
bic_bfm_not_counted_as_jumps = do
  db ← db_with (
      entry 0 0x1000 (codes "bic x0, x1, x2")
      ∷ entry 1 0x1004 (codes "bfm x0, x1, #2, #5")
      ∷ entry 2 0x1008 (codes "bfi x3, x4, #0, #8")
      ∷ entry 3 0x100c (codes "bfxil x5, x6, #0, #16")
      ∷ [])
  let s = analyze first_counted db
  assert (s.jump_count == 0)

abbrev memory_changes_summed : Test
memory_changes_summed = do
  db ← db_with (
      entry_with_mem 0 0x1000 (codes "str x0, [sp]") 3
      ∷ entry 1 0x1004 (codes "mov x1, #0")
      ∷ entry_with_mem 2 0x1008 (codes "stp x0, x1, [sp, #-16]!") 5
      ∷ [])
  let s = analyze first_counted db
  assert (s.mem_change_count == 8)

abbrev unique_addresses_with_repeats : Test
unique_addresses_with_repeats = do
  db ← db_with (
      entry 0 0x1000 (codes "mov x0, #1")
      ∷ entry 1 0x1004 (codes "mov x1, #2")
      ∷ entry 2 0x1000 (codes "mov x0, #1")
      ∷ entry 3 0x1008 (codes "mov x2, #3")
      ∷ entry 4 0x1000 (codes "mov x0, #1")
      ∷ [])
  let s = analyze first_counted db
  assert (s.unique_addresses == 3)

abbrev most_executed_address_is_correct : Test
most_executed_address_is_correct = do
  db ← db_with (
      entry 0 0xa (codes "nop")
      ∷ entry 1 0xb (codes "nop")
      ∷ entry 2 0xa (codes "nop")
      ∷ entry 3 0xa (codes "nop")
      ∷ entry 4 0xb (codes "nop")
      ∷ [])
  let s = analyze first_counted db
  best ← unwrap s.most_executed_address
  _ ← assert (best.0 == 0xa)
  assert (best.1 == 3)

abbrev instruction_counts_sorted_descending : Test
instruction_counts_sorted_descending = do
  db ← db_with (
      entry 0 0x1000 (codes "mov x0, #1")
      ∷ entry 1 0x1004 (codes "add x0, x0, #1")
      ∷ entry 2 0x1008 (codes "mov x1, #2")
      ∷ entry 3 0x100c (codes "add x0, x0, #2")
      ∷ entry 4 0x1010 (codes "add x0, x0, #3")
      ∷ [])
  let s = analyze first_counted db
  first ← item s.instruction_counts 0
  _ ← assert (text_eq first.0 (codes "add"))
  _ ← assert (first.1 == 3)
  second ← item s.instruction_counts 1
  _ ← assert (text_eq second.0 (codes "mov"))
  assert (second.1 == 2)

abbrev instruction_counts_truncated_to_20 : Test
instruction_counts_truncated_to_20 = do
  let entries =
      collect (λ i. entry i (0x1000 + i * 4) (codes "insn" ++ decimal i ++ codes " x0, #1")) 0 25
  db ← db_with entries
  let s = analyze first_counted db
  assert (leb (length s.instruction_counts) 20)

All-Passes : All Passes (
    empty_trace_gives_all_zeros ∷ single_step_counted ∷ call_annotation_counted
    ∷ return_annotation_counted ∷ call_and_return_are_independent_counts ∷ x86_jumps_counted
    ∷ arm64_branches_counted ∷ bl_blr_not_counted_as_jumps ∷ bic_bfm_not_counted_as_jumps
    ∷ memory_changes_summed ∷ unique_addresses_with_repeats ∷ most_executed_address_is_correct
    ∷ instruction_counts_sorted_descending ∷ instruction_counts_truncated_to_20 ∷ [])
unfolding db_with insert_all analyze BTreeMap.insert decimal is_call_text contains is_return_text
    is_jump is_branch_mnemonic mnemonic_of first_word
All-Passes = (
  refl,
  (
    refl,
    (
      refl,
      (refl, (refl, (refl, (refl, (refl, (refl, (refl, (refl, (refl, (refl, (refl, tt))))))))))),
    ),
  ),
)
