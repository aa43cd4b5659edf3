-- ===== src/Stats/Analyze.antt =====
-- What `analyze` reports, whatever the order in which the hash maps are walked.
use mathlib.Core.List.{foldl, map, Perm}
use mathlib.Core.List.Perm
use tiny_binary_debugger.Base.{
  inr, inl, ◌⊎◌, ℕ, ◌+◌, ◌≤◌, ◌<◌, ◌≡◌, refl, ◌∙◌, some, List, [], ◌∷◌, length, length-map, arith,
}
use tiny_binary_debugger.Eq.{eq_ℕ, eq_Text}
use tiny_binary_debugger.Stats.{
  Orders, Tally, start, is_call_text, is_return_text, is_jump, mnemonic_of, tally_entry, tally,
  analyze_entries,
}
use tiny_binary_debugger.Stats.Counter.{
  count_if, occurrences, count_of, total, IsCounter, count_all, count_of-count_all,
  count_all-IsCounter, total-count_all, length-le-total, mem-count_of, count_of-mem,
}
use tiny_binary_debugger.Stats.Top.{IsBound, max_by_count_lem}
use tiny_binary_debugger.Storage.{TraceEntry}
use tiny_binary_debugger.Text.{Text}

unfoldable pub sum_changes : List TraceEntry → ℕ
sum_changes [] = 0
sum_changes (e ∷ es) = length e.mem_changes + sum_changes es

abbrev pub pcs : List TraceEntry → List ℕ
pcs = map (λ e. e.pc)

abbrev pub mnemonics : List TraceEntry → List Text
mnemonics = map mnemonic_of

-- The loop adds to each variable what it counts.
record Adds (t u : Tally) (es : List TraceEntry) : Type 0 where
  addrs : u.addr_counts ≡ count_all t.addr_counts (pcs es)
  insns : u.insn_counts ≡ count_all t.insn_counts (mnemonics es)
  calls : u.call_count ≡ t.call_count + count_if is_call_text es
  returns : u.ret_count ≡ t.ret_count + count_if is_return_text es
  jumps : u.jump_count ≡ t.jump_count + count_if is_jump es
  changes : u.mem_change_count ≡ t.mem_change_count + sum_changes es

Adds-cons :
    (t u : Tally) (e : TraceEntry) (es : List TraceEntry)
    → Adds (tally_entry t e) u es
    → Adds t u (e ∷ es)
unfolding count_if sum_changes count_all tally_entry
Adds-cons t u e es h = record {
  addrs = h.addrs;
  insns = h.insns;
  calls = ground (arith, h.calls);
  returns = ground (arith, h.returns);
  jumps = ground (arith, h.jumps);
  changes = omega (arith, h.changes);
}

foldl-Adds : (t : Tally) (es : List TraceEntry) → Adds t (foldl tally_entry t es) es
unfolding count_if sum_changes count_all
foldl-Adds t [] = record {
  addrs = refl;
  insns = refl;
  calls = omega arith;
  returns = omega arith;
  jumps = omega arith;
  changes = omega arith;
}
foldl-Adds t (e ∷ es) =
    Adds-cons t (foldl tally_entry t (e ∷ es)) e es (foldl-Adds (tally_entry t e) es)

tally-Adds : (es : List TraceEntry) → Adds start (tally es) es
unfolding tally
tally-Adds es = foldl-Adds start es

-- The walks of the maps leave out nothing and add nothing.
pub record IsWalk (orders : Orders) : Type 0 where
  pub addrs : (m : List (ℕ × ℕ)) → Perm (orders.walk_addrs m) m
  pub insns : (m : List (Text × ℕ)) → Perm (orders.walk_insns m) m

addr-IsCounter : (es : List TraceEntry) → IsCounter (tally es).addr_counts
addr-IsCounter es = rw (tally-Adds es).addrs (count_all-IsCounter [] (pcs es) tt)

pub insn-IsCounter : (es : List TraceEntry) → IsCounter (tally es).insn_counts
insn-IsCounter es = rw (tally-Adds es).insns (count_all-IsCounter [] (mnemonics es) tt)

pub addr_count :
    (es : List TraceEntry) (a : ℕ) → count_of a (tally es).addr_counts ≡ occurrences a (pcs es)
addr_count es a =
    rw (tally-Adds es).addrs (count_of-count_all a [] (pcs es) ∙ unfold count_of in omega arith)

pub insn_count :
    (es : List TraceEntry) (t : Text)
    → count_of t (tally es).insn_counts ≡ occurrences t (mnemonics es)
insn_count es t =
    rw (tally-Adds es).insns
      (count_of-count_all t [] (mnemonics es) ∙ unfold count_of in omega arith)

-- The totals are the number of entries, and of those with a call annotation, with a return
-- annotation and with a jump, and the sum of their memory changes; there are at most as many
-- addresses as steps.
pub analyze_totals :
    (orders : Orders) (es : List TraceEntry)
    → ((analyze_entries orders es).total_steps ≡ length es)
      × ((analyze_entries orders es).call_count ≡ count_if is_call_text es)
      × ((analyze_entries orders es).ret_count ≡ count_if is_return_text es)
      × ((analyze_entries orders es).jump_count ≡ count_if is_jump es)
      × ((analyze_entries orders es).mem_change_count ≡ sum_changes es)
      × ((analyze_entries orders es).unique_addresses ≤ (analyze_entries orders es).total_steps)
unfolding analyze_entries
analyze_totals orders es =
    let h = tally-Adds es in
    (
      refl,
      h.calls ∙ omega arith,
      h.returns ∙ omega arith,
      h.jumps ∙ omega arith,
      h.changes ∙ omega arith,
      distinct,
    )
  where
    distinct : length (tally es).addr_counts ≤ length es
    distinct =
        let bound = length-le-total (tally es).addr_counts (addr-IsCounter es) in
        let sum : total (tally es).addr_counts ≡ length es = rw (tally-Adds es).addrs (
          total-count_all [] (pcs es)
          ∙ unfold total in (omega (arith, length-map es (λ e. e.pc)))) in
        omega arith

-- The most executed address is one whose number of executions no address exceeds, with that number.
pub most_executed_lem :
    (orders : Orders) (es : List TraceEntry) (a n : ℕ)
    → IsWalk orders
    → (analyze_entries orders es).most_executed_address ≡ some (a, n)
    → (n ≡ occurrences a (pcs es)) × (0 < n) × ((b : ℕ) → occurrences b (pcs es) ≤ n)
unfolding analyze_entries
most_executed_lem orders es a n walk h =
    let (i, bound) = max_by_count_lem (orders.walk_addrs (tally es).addr_counts) (a, n) h in
    let (count, pos) =
      mem-count_of a n (tally es).addr_counts (addr-IsCounter es)
        ((Perm.mem_iff (walk.addrs (tally es).addr_counts)).0 i) in
    (count ∙ addr_count es a, pos, λ b. below b bound (zero_or_pos (occurrences b (pcs es))))
  where
    zero_or_pos : (k : ℕ) → (k ≡ 0) ⊎ (0 < k)
    zero_or_pos k = omega arith

    below :
        (b : ℕ)
        → IsBound n (orders.walk_addrs (tally es).addr_counts)
        → (occurrences b (pcs es) ≡ 0) ⊎ (0 < occurrences b (pcs es))
        → occurrences b (pcs es) ≤ n
    below b bound (inl z) = omega arith
    below b bound (inr pos) =
        let pos' : 0 < count_of b (tally es).addr_counts = rw (addr_count es b) pos in
        let i = count_of-mem b (tally es).addr_counts pos' in
        let le =
          bound.at (b, count_of b (tally es).addr_counts)
            ((Perm.mem_iff (walk.addrs (tally es).addr_counts)).1 i) in
        rw (addr_count es b) at le
