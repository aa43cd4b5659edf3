-- ===== src/TraceLoop/Counts.antt =====
-- The totals that the loop prints against the statistics of the trace that it saved.
use mathlib.Core.Path.{subst}
use tiny_binary_debugger.Base.{
  ◌+◌, ◌%◌, ◌^◌, ◌≡◌, inl, inr, List, [], ◌∷◌, ◌++◌, length, Outcome, done, panicked, ◌>>=◌, arith,
  Bool-cases,
}
use tiny_binary_debugger.Stats.{is_call_text, is_return_text}
use tiny_binary_debugger.Stats.Counter.{count_if, count_if-snoc}
use tiny_binary_debugger.Stats.Analyze.{sum_changes}
use tiny_binary_debugger.Storage.{TraceEntry}
use tiny_binary_debugger.Text.{Text}
use tiny_binary_debugger.TraceLoop.{Counters, shortened, progress_line, is_due, counted, on_entry}

-- The counters are the statistics of the entries, as 64-bit words.
pub record Tallies (c : Counters) (es : List TraceEntry) : Type 0 where
  pub calls : c.call_count ≡ count_if is_call_text es % 2 ^ 64
  pub returns : c.return_count ≡ count_if is_return_text es % 2 ^ 64
  pub changes : c.mem_change_count ≡ sum_changes es % 2 ^ 64

sum_changes-snoc :
    (es : List TraceEntry) (e : TraceEntry)
    → sum_changes (es ++ e ∷ []) ≡ sum_changes es + length e.mem_changes
unfolding sum_changes
sum_changes-snoc [] e = omega arith
sum_changes-snoc (d ∷ es) e = omega (arith, sum_changes-snoc es e)

counted-Tallies :
    (c : Counters) (es : List TraceEntry) (e : TraceEntry)
    → Tallies c es
    → Tallies (counted c e) (es ++ e ∷ [])
unfolding counted
counted-Tallies c es e h = record {
  calls = ground (arith, h.calls, count_if-snoc is_call_text es e);
  returns = ground (arith, h.returns, count_if-snoc is_return_text es e);
  changes = omega (arith, h.changes, sum_changes-snoc es e);
}

-- Printing a line changes none of the three counters.
printed :
    (c' : Counters) (entry : TraceEntry) (o : Outcome Text) (es : List TraceEntry) (d : Counters)
    (lines : List Text)
    → Tallies c' es
    → ◌>>=◌ {B = Counters × List Text} o
        (λ insn. done (record c' { last_print_step = entry.step }, progress_line entry insn ∷ []))
      ≡ done (d, lines)
    → Tallies d es
printed c' entry panicked es d lines h p = absurd (grind arith)
printed c' entry (done insn) es d lines h p =
    let same : record c' { last_print_step = entry.step } ≡ d = cc in
    subst (λ k. Tallies k es) same
      (record { calls = h.calls; returns = h.returns; changes = h.changes })

pub on_entry-Tallies :
    (c : Counters) (e : TraceEntry) (es : List TraceEntry) (d : Counters) (lines : List Text)
    → Tallies c es
    → on_entry c e ≡ done (d, lines)
    → Tallies d (es ++ e ∷ [])
unfolding on_entry
on_entry-Tallies c e es d lines h p = elim (Bool-cases (is_due (counted c e) e)) [
  | inl due ↦
      printed (counted c e) e (shortened e.insn_text) (es ++ e ∷ []) d lines
        (counted-Tallies c es e h) (rw (due, on_entry) at p)
  | inr quiet ↦
      let p' = rw (quiet, on_entry) at p in
      let same : counted c e ≡ d = cc in
      subst (λ k. Tallies k (es ++ e ∷ [])) same (counted-Tallies c es e h)
]
