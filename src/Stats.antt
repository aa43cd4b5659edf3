-- ===== src/Stats.antt =====
-- src/stats/mod.rs: the statistics of a trace.
pub mod Counter
pub mod Top
pub mod Branch
pub mod Analyze
pub mod Listed
pub mod Traced
use tiny_binary_debugger.Base.{
  ℕ, ◌+◌, Bool, true, false, ◌||◌, Option, none, some, List, [], ◌∷◌, ◌++◌, length, take, leb,
  if◌then◌else◌,
}
use mathlib.Core.List.{foldl, map}
use tiny_binary_debugger.Eq.{Eq, eq_ℕ, eq_Text}
use tiny_binary_debugger.Storage
use tiny_binary_debugger.Storage.{TraceEntry, TraceDb}
use tiny_binary_debugger.Text.{Text, codes, text_eq, one_of, starts_with, contains, first_word}
use tiny_binary_debugger.Text.Number.{decimal, hex_lower, pad_left, pad_right}

pub record TraceStats : Type 0 where
  pub total_steps : ℕ
  pub unique_addresses : ℕ
  pub instruction_counts : List (Text × ℕ)
  pub most_executed_address : Option (ℕ × ℕ)
  pub call_count : ℕ
  pub ret_count : ℕ
  pub jump_count : ℕ
  pub mem_change_count : ℕ

unfoldable pub is_branch_mnemonic : Text → Bool
unfolding one_of starts_with text_eq
is_branch_mnemonic m =
    if starts_with m (codes "j")
    then true
    else if text_eq m (codes "b") || text_eq m (codes "br") || starts_with m (codes "b.")
    then true
    else one_of m (codes "cbz" ∷ codes "cbnz" ∷ codes "tbz" ∷ codes "tbnz" ∷ [])

-- The counters of `analyze` are `HashMap`s. A `HashMap` is the list of its entries, each key once;
-- the order in which it is walked is not this list's but the one that `Orders` gives it.
module _ {K : Type 0} ⦃e : Eq K⦄ where
  -- `*m.entry(k).or_insert(0) += 1`
  unfoldable pub bump : K → List (K × ℕ) → List (K × ℕ)
  bump k [] = (k, 1) ∷ []
  bump k ((j, c) ∷ m) = if e.beq k j then (j, c + 1) ∷ m else (j, c) ∷ bump k m

-- The walk over each of the two maps: some order of its entries.
pub record Orders : Type 0 where
  pub walk_addrs : List (ℕ × ℕ) → List (ℕ × ℕ)
  pub walk_insns : List (Text × ℕ) → List (Text × ℕ)

-- The variables of the loop of `analyze`.
pub record Tally : Type 0 where
  pub addr_counts : List (ℕ × ℕ)
  pub insn_counts : List (Text × ℕ)
  pub call_count : ℕ
  pub ret_count : ℕ
  pub jump_count : ℕ
  pub mem_change_count : ℕ

abbrev pub start : Tally
start = record {
  addr_counts = [];
  insn_counts = [];
  call_count = 0;
  ret_count = 0;
  jump_count = 0;
  mem_change_count = 0;
}

unfoldable pub is_call_text : TraceEntry → Bool
is_call_text entry = contains entry.insn_text (codes "CALL")

unfoldable pub is_return_text : TraceEntry → Bool
is_return_text entry = contains entry.insn_text (codes "RETURN")

unfoldable pub mnemonic_of : TraceEntry → Text
mnemonic_of entry = first_word entry.insn_text

unfoldable pub is_jump : TraceEntry → Bool
is_jump entry = is_branch_mnemonic (mnemonic_of entry)

-- The body of the loop.
unfoldable pub tally_entry : Tally → TraceEntry → Tally
unfolding bump
tally_entry t entry = record {
  addr_counts = bump entry.pc t.addr_counts;
  insn_counts = bump (mnemonic_of entry) t.insn_counts;
  call_count = if is_call_text entry then t.call_count + 1 else t.call_count;
  ret_count = if is_return_text entry then t.ret_count + 1 else t.ret_count;
  jump_count = if is_jump entry then t.jump_count + 1 else t.jump_count;
  mem_change_count = t.mem_change_count + length entry.mem_changes;
}

unfoldable pub tally : List TraceEntry → Tally
unfolding tally_entry
tally = foldl tally_entry start

module _ {K : Type 0} where
  -- `max_by_key(|(_, &count)| count)`: of several greatest items the last one that is walked.
  unfoldable pub max_from : K × ℕ → List (K × ℕ) → K × ℕ
  max_from best [] = best
  max_from best (x ∷ xs) = max_from (if leb best.1 x.1 then x else best) xs

  unfoldable pub max_by_count : List (K × ℕ) → Option (K × ℕ)
  unfolding max_from
  max_by_count [] = none
  max_by_count (x ∷ xs) = some (max_from x xs)

  unfoldable pub insert_sorted : K × ℕ → List (K × ℕ) → List (K × ℕ)
  insert_sorted x [] = x ∷ []
  insert_sorted x (y ∷ ys) = if leb y.1 x.1 then x ∷ y ∷ ys else y ∷ insert_sorted x ys

  -- `sort_by(|a, b| b.1.cmp(&a.1))`, a stable sort: items of equal count keep their order.
  unfoldable pub sort_by_count : List (K × ℕ) → List (K × ℕ)
  unfolding insert_sorted
  sort_by_count [] = []
  sort_by_count (x ∷ xs) = insert_sorted x (sort_by_count xs)

unfoldable pub analyze_entries : Orders → List TraceEntry → TraceStats
unfolding tally max_by_count sort_by_count
analyze_entries orders entries =
    let t = tally entries in
    record {
      total_steps = length entries;
      unique_addresses = length t.addr_counts;
      instruction_counts = take 20 (sort_by_count (orders.walk_insns t.insn_counts));
      most_executed_address = max_by_count (orders.walk_addrs t.addr_counts);
      call_count = t.call_count;
      ret_count = t.ret_count;
      jump_count = t.jump_count;
      mem_change_count = t.mem_change_count;
    }

unfoldable pub analyze : Orders → TraceDb → TraceStats
unfolding analyze_entries Storage.get_all
analyze orders db = analyze_entries orders (Storage.get_all db)

most_executed_line : Option (ℕ × ℕ) → List Text
most_executed_line none = []
most_executed_line (some (addr, count)) =
    (codes "  Most executed:    0x"
      ++ hex_lower addr
      ++ codes " ("
      ++ decimal count
      ++ codes " times)")
    ∷ []

insn_line : Text × ℕ → Text
insn_line (insn, count) =
    codes "    " ++ pad_right 12 insn ++ codes " " ++ pad_left b' ' 8 (decimal count)

-- The lines that `print` writes; "\n" in a format begins a new line.
unfoldable pub print : TraceStats → List Text
unfolding most_executed_line insn_line
print s =
    codes "  Trace Statistics"
    ∷ codes "  ----------------"
    ∷ (codes "  Total steps:      " ++ decimal s.total_steps)
    ∷ (codes "  Unique addresses: " ++ decimal s.unique_addresses)
    ∷ (codes "  Function calls:   " ++ decimal s.call_count)
    ∷ (codes "  Returns:          " ++ decimal s.ret_count)
    ∷ (codes "  Jumps/branches:   " ++ decimal s.jump_count)
    ∷ (codes "  Memory changes:   " ++ decimal s.mem_change_count)
    ∷ (most_executed_line s.most_executed_address
        ++ (codes "" ∷ codes "  Top instructions:" ∷ map insn_line s.instruction_counts))
