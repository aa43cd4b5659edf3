-- ===== src/Tests/StatsAt.antt =====
-- The statistics at a concrete trace.
use tiny_binary_debugger.Base.{ℕ, ◌≤◌, ◌<◌, ◌≡◌, refl, List, [], ◌∷◌}
use tiny_binary_debugger.Stats.{analyze_entries}
use tiny_binary_debugger.Stats.Analyze.{pcs, mnemonics, most_executed_lem}
use tiny_binary_debugger.Stats.Counter.{occurrences}
use tiny_binary_debugger.Stats.Listed.{IsTop, instruction_counts-IsTop}
use tiny_binary_debugger.Storage.{TraceEntry}
use tiny_binary_debugger.Tests.Machine.{in_order, in_order-IsWalk, entry_at}
use tiny_binary_debugger.Text.{codes}
use tiny_binary_debugger.Eq.{eq_ℕ, eq_Text}

abbrev three : List TraceEntry
three =
    entry_at 0 (codes "nop")
    ∷ entry_at 1 (codes "call 0x10 ; CALL [depth:1]")
    ∷ entry_at 2 (codes "nop")
    ∷ []

most_executed_lem_example :
    (3 ≡ occurrences 4096 (pcs three)) × (0 < 3) × ((b : ℕ) → occurrences b (pcs three) ≤ 3)
most_executed_lem_example =
    most_executed_lem in_order three 4096 3 in_order-IsWalk (unfold analyze_entries in refl)

instruction_counts-IsTop_example :
    IsTop 20
      (λ t. occurrences t (mnemonics three))
      (analyze_entries in_order three).instruction_counts
instruction_counts-IsTop_example = instruction_counts-IsTop in_order three in_order-IsWalk
