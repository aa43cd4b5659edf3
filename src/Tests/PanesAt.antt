-- ===== src/Tests/PanesAt.antt =====
-- The panes at concrete registers.
use mathlib.Core.List.Perm
use tiny_binary_debugger.Base.{
  ℕ, ◌+◌, ◌-◌, ◌%◌, ◌^◌, ◌≤◌, ◌<◌, ◌≡◌, ◌⊎◌, refl, false, none, some, List, [], ◌∷◌, length, map,
  ◌==◌, arith,
}
use tiny_binary_debugger.Base.Int.{pos_part, neg_part}
use tiny_binary_debugger.Storage.{TraceEntry}
use tiny_binary_debugger.Stats.{analyze_entries}
use tiny_binary_debugger.Tests.Machine.{in_order}
use tiny_binary_debugger.Text.{Text, codes}
use tiny_binary_debugger.Tui.{Host, App, normal, select, current_regs}
use tiny_binary_debugger.Tui.Panes.Changes.{
  value_style, lines_of, style_of, is_other, select-highlights,
}
use tiny_binary_debugger.Tui.Panes.Delta.{IsFar, IsDistance, sp_delta_bounds}
use tiny_binary_debugger.Tui.Panes.Detail.{sp_delta}
use tiny_binary_debugger.Tui.Panes.Registers.{register_names, render_registers}

-- The stack has grown down by 32 bytes.
sp_delta_bounds_example :
    (pos_part (sp_delta 0x6fe0 (some 0x7000)) < 2 ^ 63)
    × (neg_part (sp_delta 0x6fe0 (some 0x7000)) ≤ 2 ^ 63)
    × ((0x7000
            + pos_part (sp_delta 0x6fe0 (some 0x7000))
            + 2 ^ 64
            - neg_part (sp_delta 0x6fe0 (some 0x7000)))
          % 2 ^ 64
        ≡ 0x6fe0)
    × (IsFar 0x6fe0 0x7000 ⊎ IsDistance 0x6fe0 0x7000 (sp_delta 0x6fe0 (some 0x7000)))
sp_delta_bounds_example = sp_delta_bounds 0x6fe0 0x7000 (omega arith) (omega arith)

-- A text stands for an object with its length in `x0`, and 7 in `sp`.
abbrev lengths : Host
lengths = record {
  Value = ℕ;
  from_str = λ t. some (length t);
  null = 0;
  get = λ v t. none;
  as_u64 = λ v. some v;
  as_object = λ v. some ((codes "x0", v) ∷ (codes "sp", 7) ∷ []);
  to_lowercase = λ t. t;
  to_uppercase = λ t. t;
  value_eq = λ v w. v == w;
  walk_regs = λ m. m;
}

abbrev entry_of : ℕ → Text → TraceEntry
entry_of step regs = record {
  step = step;
  pc = 4096;
  insn_bytes = [];
  insn_text = codes "nop";
  regs = regs;
  mem_changes = [];
}

abbrev first : TraceEntry
first = entry_of 0 (codes "a")

abbrev app : App lengths
app = record {
  trace = first ∷ entry_of 1 (codes "ab") ∷ [];
  current = 0;
  selected = some 0;
  prev_regs = none;
  mode = normal;
  stats = analyze_entries in_order [];
  arch = codes "arm64";
  base_sp = some 7;
  should_quit = false;
  filtered_indices = 0 ∷ 1 ∷ [];
  trace_file = codes "t.tdb";
}

abbrev before : List (Text × ℕ)
before = (codes "x0", 1) ∷ (codes "sp", 7) ∷ []

select-highlights_example :
    map value_style (lines_of (render_registers lengths (select lengths app 1)))
    ≡ map
        (λ name.
          some
            (style_of (is_other lengths before (current_regs lengths (select lengths app 1)) name)))
        (register_names lengths (select lengths app 1))
select-highlights_example =
    select-highlights lengths app 1 first 1 before (omega arith) refl refl refl (Perm.refl _)
