-- ===== src/Tui.antt =====
-- src/tui.rs: the state of the terminal viewer, its navigation, its search and its keys.
pub mod Keys
pub mod Screen
pub mod Panes
pub mod Draw
pub mod Loop
pub mod Terminal
pub mod Frames
pub mod Ending
pub mod Valid
pub mod Sync
pub mod Find
pub mod Filter
use tiny_binary_debugger.Base.{
  ℕ, zero, suc, ◌+◌, ◌-◌, ◌^◌, min, Bool, true, false, not, Option, none, some, List, [], ◌∷◌,
  length, is_empty, get_elem?, take, drop, ltb, leb, ◌==◌, if◌then◌else◌,
}
use tiny_binary_debugger.Base.Int.{ℤ, pos, pos_part, ◌+ℤ◌}
use tiny_binary_debugger.Stats.{Orders, TraceStats, analyze, is_call_text, is_return_text}
use tiny_binary_debugger.Storage
use tiny_binary_debugger.Storage.{TraceEntry, TraceDb}
use tiny_binary_debugger.Text.{Text, codes, text_eq, contains}

-- serde_json, as far as the viewer reads the recorded registers with it, and of the standard library
-- the Unicode cases and the order of a hash map.
pub record Host : Type 1 where
  pub Value : Type 0
  -- `from_str(…).ok()`
  pub from_str : Text → Option Value
  -- `Value::default()`
  pub null : Value
  pub get : Value → Text → Option Value
  pub as_u64 : Value → Option ℕ
  pub as_object : Value → Option (List (Text × Value))
  pub to_lowercase : Text → Text
  pub to_uppercase : Text → Text
  -- `==` of values, and the order in which a hash map of registers is walked
  pub value_eq : Value → Value → Bool
  pub walk_regs : List (Text × Value) → List (Text × Value)

pub data Mode : Type 0 where
  normal : Mode
  search : Text → Mode
  help : Mode

-- The indices from `i` on, `n` of them.
unfoldable pub indices : ℕ → ℕ → List ℕ
indices i zero = []
indices i (suc n) = i ∷ indices (i + 1) n

-- `iter().position(|&j| j == idx)`, counted from `p`.
unfoldable pub position : ℕ → ℕ → List ℕ → Option ℕ
position idx p [] = none
position idx p (j ∷ js) = if j == idx then some p else position idx (p + 1) js

unfoldable pub matches_filter : TraceEntry → Text → Bool
unfolding text_eq
matches_filter entry what =
    if text_eq what (codes "call")
    then is_call_text entry
    else if text_eq what (codes "ret")
    then is_return_text entry
    else if text_eq what (codes "mem")
    then not (is_empty entry.mem_changes)
    else false

-- The first entry that passes, the entries being numbered from `i`, and the last one.
unfoldable pub first_match : (TraceEntry → Bool) → ℕ → List TraceEntry → Option ℕ
first_match p i [] = none
first_match p i (e ∷ es) = if p e then some i else first_match p (i + 1) es

or_else : Option ℕ → Option ℕ → Option ℕ
or_else (some i) other = some i
or_else none other = other

unfoldable pub last_match : (TraceEntry → Bool) → ℕ → List TraceEntry → Option ℕ
unfolding or_else
last_match p i [] = none
last_match p i (e ∷ es) = or_else (last_match p (i + 1) es) (if p e then some i else none)

-- `filter` over the enumerated entries, the indices alone.
unfoldable pub matching : (TraceEntry → Bool) → ℕ → List TraceEntry → List ℕ
matching p i [] = []
matching p i (e ∷ es) = let rest = matching p (i + 1) es in if p e then i ∷ rest else rest

-- `(current as i64 + delta).max(0).min(len as i64 - 1) as usize`: of an empty trace the bound is
-- -1, which is the greatest `usize`.
unfoldable pub step_target : ℕ → ℤ → ℕ → ℕ
step_target current delta len =
    if len == 0 then 2 ^ 64 - 1 else min (pos_part (pos current +ℤ delta)) (len - 1)

-- The highlighted row, given the row that the selected entry has, if it has one.
unfoldable pub sync : Option ℕ → Option ℕ → Option ℕ
sync old none = old
sync old (some p) = some p

-- `first()` of the filtered indices.
unfoldable pub first_of : List ℕ → Option ℕ
first_of [] = none
first_of (i ∷ is) = some i

module _ (host : Host) where
  open host use {Value, from_str, null, get, as_u64, as_object, to_lowercase}

  pub record App : Type 0 where
    pub trace : List TraceEntry
    pub current : ℕ
    -- `list_state.selected()`
    pub selected : Option ℕ
    pub prev_regs : Option (List (Text × Value))
    pub mode : Mode
    pub stats : TraceStats
    pub arch : Text
    pub base_sp : Option ℕ
    pub should_quit : Bool
    pub filtered_indices : List ℕ
    pub trace_file : Text

  -- `unwrap_or_default()`
  unfoldable pub value_of : Option Value → Value
  value_of none = null
  value_of (some v) = v

  unfoldable pub arch_of : Option Value → Text
  arch_of (some v) = codes "x86_64"
  arch_of none = codes "arm64"

  either : Option Value → Option Value → Option Value
  either (some v) other = some v
  either none other = other

  number : Option Value → Option ℕ
  number none = none
  number (some v) = as_u64 v

  -- The stack pointer among recorded registers.
  unfoldable pub recorded_sp : Value → Option ℕ
  unfolding either number
  recorded_sp regs = number (either (get regs (codes "sp")) (get regs (codes "rsp")))

  unfoldable pub arch_of_trace : List TraceEntry → Text
  unfolding value_of arch_of
  arch_of_trace [] = codes "unknown"
  arch_of_trace (e ∷ es) = arch_of (get (value_of (from_str e.regs)) (codes "rax"))

  unfoldable pub base_sp_of : List TraceEntry → Option ℕ
  unfolding value_of recorded_sp
  base_sp_of [] = none
  base_sp_of (e ∷ es) = recorded_sp (value_of (from_str e.regs))

  -- `App::new`
  unfoldable pub new : Orders → TraceDb → Text → App
  unfolding indices arch_of_trace base_sp_of Storage.get_all
  new orders db trace_file =
      let trace = Storage.get_all db in
      record {
        trace = trace;
        current = 0;
        selected = if is_empty trace then none else some 0;
        prev_regs = none;
        mode = normal;
        stats = analyze orders db;
        arch = arch_of_trace trace;
        base_sp = base_sp_of trace;
        should_quit = false;
        filtered_indices = indices 0 (length trace);
        trace_file = trace_file;
      }

  keep_regs :
      Option (List (Text × Value)) → Option (List (Text × Value)) → Option (List (Text × Value))
  keep_regs old none = old
  keep_regs old (some regs) = some regs

  object_of : Option Value → Option (List (Text × Value))
  object_of none = none
  object_of (some v) = as_object v

  regs_of : Option TraceEntry → Option (List (Text × Value))
  unfolding object_of
  regs_of none = none
  regs_of (some e) = object_of (from_str e.regs)

  unfoldable pub select : App → ℕ → App
  unfolding keep_regs regs_of sync position
  select app idx = if leb (length app.trace) idx then app else record app {
    prev_regs = keep_regs app.prev_regs (regs_of (get_elem? app.trace app.current));
    current = idx;
    selected = sync app.selected (position idx 0 app.filtered_indices);
  }

  unfoldable pub step : App → ℤ → App
  unfolding select step_target
  step app delta = select app (step_target app.current delta (length app.trace))

  unfoldable pub select_found : App → Option ℕ → App
  unfolding select
  select_found app none = app
  select_found app (some i) = select app i

  unfoldable pub find_next : App → Text → App
  unfolding select_found first_match
  find_next app what = select_found app (
      first_match (λ e. matches_filter e what) (app.current + 1) (drop (app.current + 1) app.trace))

  -- With `current` 0 there is nothing before it to look at.
  unfoldable pub find_prev : App → Text → App
  unfolding select_found last_match
  find_prev app what =
      select_found app (last_match (λ e. matches_filter e what) 0 (take app.current app.trace))

  -- The indices that a query leaves; `matches` is on the lower-case texts.
  unfoldable pub filter_by : Text → List TraceEntry → List ℕ
  unfolding indices matching
  filter_by query trace =
      let q = to_lowercase query in
      if is_empty q
      then indices 0 (length trace)
      else matching (λ e. contains (to_lowercase e.insn_text) q) 0 trace

  unfoldable pub apply_search : App → Text → App
  unfolding select_found filter_by first_of
  apply_search app query =
      let filtered = filter_by query app.trace in
      select_found (record app { filtered_indices = filtered }) (first_of filtered)

  unfoldable pub current_entry : App → Option TraceEntry
  current_entry app = get_elem? app.trace app.current

  -- `unwrap_or_default()`
  or_empty_map : Option (List (Text × Value)) → List (Text × Value)
  or_empty_map none = []
  or_empty_map (some regs) = regs

  unfoldable pub current_regs : App → List (Text × Value)
  unfolding or_empty_map regs_of current_entry
  current_regs app = or_empty_map (regs_of (current_entry app))
