-- ===== src/Suite/Answers.antt =====
-- The tests of src/server/mod.rs at a router that finds its paths as axum documents it.
use tiny_binary_debugger.Base.{ℕ, ◌≡◌, refl, ℕ, ◌+◌, ◌*◌, some, none, List, [], ◌∷◌, map, arith}
use tiny_binary_debugger.BTreeMap
use tiny_binary_debugger.Server.{AppState, RangeQuery, get_trace, get_step, get_count, get_stats}
use tiny_binary_debugger.Server.Routes.{Axum, create_router, respond, answer}
use tiny_binary_debugger.Server.Routing.{Documented, respond_lem}
use tiny_binary_debugger.Stats.{Orders, analyze, is_call_text, is_return_text}
use tiny_binary_debugger.Storage.{TraceEntry}
use tiny_binary_debugger.Suite.{Passes, insert_all, db_with, collect}
use tiny_binary_debugger.Suite.Requests.{
  no_range, make_entry, make_entry_with_mem, trace_returns_all_entries, trace_empty_db,
  trace_range_query, get_step_existing, get_step_not_found, count_endpoint, count_empty_db,
  stats_endpoint, unknown_route_returns_404,
}
use tiny_binary_debugger.Text.{Text, codes, text_eq, contains}
use tiny_binary_debugger.Text.Number.{decimal}

-- The server over a database of these entries, each under its step.
abbrev over : List TraceEntry → AppState
over es = record { db = record { entries = map (λ e. (e.step, e)) es; path = codes ":memory:" } }

module _ (axum : Axum) (documented : Documented axum create_router) (orders : Orders)
    (json_text : List (Text × ℕ) → Text) where
  trace_empty_db-Passes : Passes (trace_empty_db axum orders json_text)
  unfolding db_with insert_all get_trace
  trace_empty_db-Passes =
      rw ((respond_lem axum documented orders (over []) 0 no_range (omega arith)).2) refl

  trace_returns_all_entries-Passes : Passes (trace_returns_all_entries axum orders json_text)
  unfolding db_with insert_all get_trace BTreeMap.insert
  trace_returns_all_entries-Passes =
      let es =
        make_entry json_text 0 0x1000 (codes "nop")
        ∷ make_entry json_text 1 0x1004 (codes "mov x0, #1")
        ∷ make_entry json_text 2 0x1008 (codes "ret")
        ∷ [] in
      rw ((respond_lem axum documented orders (over es) 0 no_range (omega arith)).2) refl

  trace_range_query-Passes : Passes (trace_range_query axum orders json_text)
  unfolding db_with insert_all get_trace BTreeMap.insert BTreeMap.range BTreeMap.between
  trace_range_query-Passes =
      let es = collect (λ i. make_entry json_text i (0x1000 + i * 4) (codes "nop")) 0 10 in
      let range : RangeQuery = record { start = some 3; end = some 7 } in
      rw ((respond_lem axum documented orders (over es) 0 range (omega arith)).2) refl

  get_step_existing-Passes : Passes (get_step_existing axum orders json_text)
  unfolding db_with insert_all get_step BTreeMap.insert BTreeMap.get decimal text_eq
  get_step_existing-Passes =
      let es = make_entry json_text 42 0xcafe (codes "add x0, x1, x2") ∷ [] in
      rw ((respond_lem axum documented orders (over es) 42 no_range (omega arith)).0) refl

  get_step_not_found-Passes : Passes (get_step_not_found axum orders json_text)
  unfolding db_with insert_all get_step BTreeMap.insert BTreeMap.get decimal
  get_step_not_found-Passes =
      let es = make_entry json_text 0 0x1000 (codes "nop") ∷ [] in
      rw ((respond_lem axum documented orders (over es) 999 no_range (omega arith)).0) refl

  count_endpoint-Passes : Passes (count_endpoint axum orders json_text)
  unfolding db_with insert_all get_count BTreeMap.insert
  count_endpoint-Passes =
      let es = collect (λ i. make_entry json_text i (0x1000 + i * 4) (codes "nop")) 0 5 in
      rw ((respond_lem axum documented orders (over es) 0 no_range (omega arith)).1) refl

  count_empty_db-Passes : Passes (count_empty_db axum orders json_text)
  unfolding db_with insert_all get_count
  count_empty_db-Passes =
      rw ((respond_lem axum documented orders (over []) 0 no_range (omega arith)).1) refl

  stats_endpoint-Passes : Passes (stats_endpoint axum orders json_text)
  unfolding db_with insert_all get_stats analyze BTreeMap.insert is_call_text is_return_text
      contains
  stats_endpoint-Passes =
      let es =
        make_entry json_text 0 0x1000 (codes "bl #0x2000 ; CALL [depth:1]")
        ∷ make_entry json_text 1 0x2000 (codes "mov x0, #0")
        ∷ make_entry_with_mem json_text 2 (codes "str x0, [sp]") 3
        ∷ make_entry json_text 3 0x2008 (codes "ret ; RETURN [depth:0]")
        ∷ [] in
      rw ((respond_lem axum documented orders (over es) 0 no_range (omega arith)).3) refl

  -- No path of the table is to match the request.
  unknown_route_returns_404-Passes :
      axum.find create_router (codes "/api/nonexistent") ≡ none
      → Passes (unknown_route_returns_404 axum orders json_text)
  unfolding db_with respond answer
  unknown_route_returns_404-Passes unknown = rw unknown refl
