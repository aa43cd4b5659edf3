-- ===== src/Tests/TuiAt.antt =====
-- The viewer on a concrete trace.
use tiny_binary_debugger.Base.{true, Bool, ℕ, ◌≡◌, refl, none, some, [], ◌∷◌, get_elem?, arith}
use tiny_binary_debugger.Storage.{TraceDb}
use tiny_binary_debugger.Tests.Machine.{entry_at}
use tiny_binary_debugger.Text.{codes}
use tiny_binary_debugger.Tui.{Host, App, search, apply_search}
use tiny_binary_debugger.Tui.Filter.{first_or, has_row, Ascends, passing, is_hit, apply_search_lem}
use tiny_binary_debugger.Tui.Find.{FindsPrev, FindsNext, find_lem}
use tiny_binary_debugger.Tui.Keys.{cancel_search}
use tiny_binary_debugger.Tui.Sync.{InSync, cancel_search-out_of_sync}

-- Registers that are no JSON, and texts in lower case already.
abbrev pub plain : Host
plain = record {
  Value = Unit {0};
  from_str = λ t. none;
  null = tt;
  get = λ v t. none;
  as_u64 = λ v. none;
  as_object = λ v. none;
  to_lowercase = λ t. t;
  to_uppercase = λ t. t;
  value_eq = λ v w. true;
  walk_regs = λ m. m;
}

abbrev pub three : TraceDb
three = record {
  entries =
      (0, entry_at 0 (codes "call 0x10 ; CALL [depth:1]"))
      ∷ (1, entry_at 1 (codes "nop"))
      ∷ (2, entry_at 2 (codes "ret ; RETURN [depth:0]"))
      ∷ [];
  path = codes "t.tdb";
}

abbrev pub middle : App plain
middle = record {
  trace =
      entry_at 0 (codes "call 0x10 ; CALL [depth:1]")
      ∷ entry_at 1 (codes "nop")
      ∷ entry_at 2 (codes "ret ; RETURN [depth:0]")
      ∷ [];
  current = 1;
  -- the first row of the list that a search for "nop" left
  selected = some 0;
  prev_regs = none;
  mode = search (codes "nop");
  stats = record {
    total_steps = 3;
    unique_addresses = 1;
    instruction_counts = [];
    most_executed_address = none;
    call_count = 1;
    ret_count = 1;
    jump_count = 0;
    mem_change_count = 0;
  };
  arch = codes "arm64";
  base_sp = none;
  should_quit = Bool.false;
  filtered_indices = 1 ∷ [];
  trace_file = codes "t.tdb";
}

cancel_search-out_of_sync_example : ¬ InSync plain (cancel_search plain middle)
cancel_search-out_of_sync_example =
    cancel_search-out_of_sync plain middle 0 (omega arith) refl (λ p. omega arith)

find_lem_example : FindsNext plain middle (codes "ret") × FindsPrev plain middle (codes "ret")
find_lem_example = find_lem plain middle (codes "ret")

apply_search_lem_example :
    Ascends 0 (apply_search plain middle (codes "0x1")).filtered_indices
    × ((k : ℕ)
        → has_row k (apply_search plain middle (codes "0x1")).filtered_indices
          ≡ passing (is_hit plain (codes "0x1")) (get_elem? middle.trace k))
    × ((apply_search plain middle (codes "0x1")).current
        ≡ first_or 1 (apply_search plain middle (codes "0x1")).filtered_indices)
apply_search_lem_example = apply_search_lem plain middle (codes "0x1")
