-- ===== src/Stats/Listed.antt =====
-- The list of the most frequent mnemonics.
use mathlib.Core.List.{Mem, Perm}
use mathlib.Core.List.Perm
use mathlib.Core.Path.{subst}
use tiny_binary_debugger.Base.{
  ℕ, zero, suc, [], ◌∷◌, refl, ap, sym, take, ◌≤◌, ◌<◌, ◌≡◌, ◌∙◌, List, length, length-take, arith,
  ◌⊎◌, inl, inr,
}
use tiny_binary_debugger.Eq.{eq_Text}
use tiny_binary_debugger.Stats.{Orders, tally, analyze_entries, sort_by_count}
use tiny_binary_debugger.Stats.Counter.{occurrences, mem-count_of, count_of-mem}
use tiny_binary_debugger.Stats.Top.{
  IsDescending, sort_by_count-perm, sort_by_count-IsDescending, take-IsDescending, take-greatest,
  mem_of_mem-take,
}
use tiny_binary_debugger.Stats.Analyze.{IsWalk, mnemonics, insn_count, insn-IsCounter}
use tiny_binary_debugger.Storage.{TraceEntry}
use tiny_binary_debugger.Text.{Text}

take-short {ℓ} : {A : Type ℓ} (n : ℕ) (xs : List A) → length (take n xs) < n → take n xs ≡ xs
take-short zero xs h = elim h [ ]
take-short (suc n) [] h = refl
take-short (suc n) (x ∷ xs) h = ap (λ ys. x ∷ ys) (take-short n xs (omega arith))

-- The most frequent of what `amount` counts, at most `n` of it, each with its number; with fewer
-- than `n` listed, nothing that occurs is left out.
pub record IsTop (n : ℕ) (amount : Text → ℕ) (top : List (Text × ℕ)) : Type 0 where
  pub descending : IsDescending top
  pub few : length top ≤ n
  pub exact : (t : Text) (k : ℕ) → Mem (t, k) top → (k ≡ amount t) × (0 < k)
  pub greatest : (u t : Text) (k : ℕ) → ¬ Mem (u, amount u) top → Mem (t, k) top → amount u ≤ k
  pub whole : (u : Text) → length top < n → 0 < amount u → Mem (u, amount u) top

module _ (orders : Orders) (es : List TraceEntry) (walk : IsWalk orders) where
  abbrev sorted : List (Text × ℕ)
  sorted = sort_by_count (orders.walk_insns (tally es).insn_counts)

  abbrev amount : Text → ℕ
  amount t = occurrences t (mnemonics es)

  sorted_perm : Perm sorted (tally es).insn_counts
  sorted_perm = Perm.trans (sort_by_count-perm _) (walk.insns (tally es).insn_counts)

  sorted_exact : (t : Text) (k : ℕ) → Mem (t, k) sorted → (k ≡ amount t) × (0 < k)
  sorted_exact t k i =
      let (count, pos) =
        mem-count_of t k (tally es).insn_counts (insn-IsCounter es)
          ((Perm.mem_iff sorted_perm).0 i) in
      (count ∙ insn_count es t, pos)

  sorted_whole : (u : Text) → 0 < amount u → Mem (u, amount u) sorted
  sorted_whole u pos = (Perm.mem_iff sorted_perm).1 (
      subst (λ k. Mem (u, k) (tally es).insn_counts) (insn_count es u)
        (count_of-mem u (tally es).insn_counts (rw (insn_count es u) pos)))

  sorted_greatest :
      (u t : Text) (k : ℕ)
      → ¬ Mem (u, amount u) (take 20 sorted)
      → Mem (t, k) (take 20 sorted)
      → amount u ≤ k
  sorted_greatest u t k out i = elim (zero_or_pos (amount u)) [
    | inl z ↦ omega arith
    | inr pos ↦
        take-greatest 20 sorted (u, amount u) (t, k)
          (sort_by_count-IsDescending {K = Text} (orders.walk_insns (tally es).insn_counts))
          (sorted_whole u pos) out i
  ]
    where
      zero_or_pos : (m : ℕ) → (m ≡ 0) ⊎ (0 < m)
      zero_or_pos m = omega arith

  -- The statistics list the twenty most frequent mnemonics: their counts do not ascend, each is the
  -- number of the occurrences of the mnemonic and not zero, none that is left out occurs more often
  -- than one that is listed, and none is left out while there is room. The hash map is to be walked
  -- in some order.
  pub instruction_counts-IsTop :
      IsTop 20 (λ t. occurrences t (mnemonics es)) (analyze_entries orders es).instruction_counts
  unfolding analyze_entries
  instruction_counts-IsTop = record {
    descending =
        take-IsDescending 20 sorted
          (sort_by_count-IsDescending {K = Text} (orders.walk_insns (tally es).insn_counts));
    few = omega (arith, length-take 20 sorted);
    exact = λ t k i. sorted_exact t k (mem_of_mem-take 20 (t, k) sorted i);
    greatest = sorted_greatest;
    whole = λ u room pos.
        subst (λ l. Mem (u, amount u) l) (sym (take-short 20 sorted room)) (sorted_whole u pos);
  }
