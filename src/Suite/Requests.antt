-- ===== src/Suite/Requests.antt =====
-- The tests of src/server/mod.rs. A request is its path with its query, and a body that is read
-- back as JSON is the value that was sent; the router is the record `Axum`. The headers
-- that axum adds and the text of the page are not part of the model.
use tiny_binary_debugger.Base.{
  ℕ, ◌+◌, ◌*◌, none, some, List, [], ◌∷◌, length, is_empty, ◌==◌, Outcome, done, panicked, ◌>>=◌,
}
use tiny_binary_debugger.Server.{RangeQuery, TraceResponse, CountResponse}
use tiny_binary_debugger.Server.Routes.{
  Axum, Response, trace, step, total, stats, missing, bad_request, respond,
}
use tiny_binary_debugger.Stats.{Orders, TraceStats}
use tiny_binary_debugger.Storage.{TraceEntry}
use tiny_binary_debugger.Suite.{Test, assert, item, db_with, collect}
use tiny_binary_debugger.Suite.Statistics.{some_changes}
use tiny_binary_debugger.Text.{Text, codes, text_eq}

-- `resp.status()`
abbrev status : Response → ℕ
status missing = 404
status bad_request = 400
status response = 200

-- The body as what the test asks for; `unwrap` of anything else panics.
abbrev json_trace : Response → Outcome TraceResponse
json_trace (trace r) = done r
json_trace response = panicked

abbrev json_step : Response → Outcome TraceEntry
json_step (step e) = done e
json_step response = panicked

abbrev json_count : Response → Outcome CountResponse
json_count (total r) = done r
json_count response = panicked

abbrev json_stats : Response → Outcome TraceStats
json_stats (stats s) = done s
json_stats response = panicked

-- No query.
abbrev pub no_range : RangeQuery
no_range = record { start = none; end = none }

module _ (json_text : List (Text × ℕ) → Text) where
  abbrev pub make_entry : ℕ → ℕ → Text → TraceEntry
  make_entry n pc insn = record {
    step = n;
    pc = pc;
    insn_bytes = 0xaa ∷ [];
    insn_text = insn;
    regs = json_text ((codes "x0", n) ∷ (codes "sp", 0x7000) ∷ []);
    mem_changes = [];
  }

  abbrev pub make_entry_with_mem : ℕ → Text → ℕ → TraceEntry
  make_entry_with_mem k insn n = record {
    step = k;
    pc = 0x1000 + k * 4;
    insn_bytes = 0xbb ∷ [];
    insn_text = insn;
    regs = json_text ((codes "x0", 42) ∷ []);
    mem_changes = some_changes n;
  }

module _ (axum : Axum) (orders : Orders) (json_text : List (Text × ℕ) → Text) where
  -- `create_router(test_db(entries)).oneshot(request("GET", uri))`
  abbrev oneshot : List TraceEntry → Text → RangeQuery → Outcome Response
  oneshot entries path range = do
    db ← db_with entries
    respond axum orders (record { db = db }) path range

  abbrev pub trace_returns_all_entries : Test
  trace_returns_all_entries = do
    resp ←
        oneshot
          (make_entry json_text 0 0x1000 (codes "nop")
            ∷ make_entry json_text 1 0x1004 (codes "mov x0, #1")
            ∷ make_entry json_text 2 0x1008 (codes "ret")
            ∷ [])
          (codes "/api/trace") no_range
    _ ← assert (status resp == 200)
    json ← json_trace resp
    _ ← assert (json.total == 3)
    assert (length json.entries == 3)

  abbrev pub trace_empty_db : Test
  trace_empty_db = do
    resp ← oneshot [] (codes "/api/trace") no_range
    _ ← assert (status resp == 200)
    json ← json_trace resp
    _ ← assert (json.total == 0)
    assert (is_empty json.entries)

  abbrev pub trace_range_query : Test
  trace_range_query = do
    resp ←
        oneshot (collect (λ i. make_entry json_text i (0x1000 + i * 4) (codes "nop")) 0 10)
          (codes "/api/trace") (record { start = some 3; end = some 7 })
    _ ← assert (status resp == 200)
    json ← json_trace resp
    _ ← assert (length json.entries == 5)
    first ← item json.entries 0
    _ ← assert (first.step == 3)
    last ← item json.entries 4
    _ ← assert (last.step == 7)
    assert (json.total == 10)

  abbrev pub get_step_existing : Test
  get_step_existing = do
    resp ←
        oneshot (make_entry json_text 42 0xcafe (codes "add x0, x1, x2") ∷ [])
          (codes "/api/trace/42") no_range
    _ ← assert (status resp == 200)
    entry ← json_step resp
    _ ← assert (entry.step == 42)
    _ ← assert (entry.pc == 0xcafe)
    assert (text_eq entry.insn_text (codes "add x0, x1, x2"))

  abbrev pub get_step_not_found : Test
  get_step_not_found = do
    resp ←
        oneshot (make_entry json_text 0 0x1000 (codes "nop") ∷ []) (codes "/api/trace/999") no_range
    assert (status resp == 404)

  abbrev pub count_endpoint : Test
  count_endpoint = do
    resp ←
        oneshot (collect (λ i. make_entry json_text i (0x1000 + i * 4) (codes "nop")) 0 5)
          (codes "/api/trace/count") no_range
    _ ← assert (status resp == 200)
    json ← json_count resp
    assert (json.count == 5)

  abbrev pub count_empty_db : Test
  count_empty_db = do
    resp ← oneshot [] (codes "/api/trace/count") no_range
    _ ← assert (status resp == 200)
    json ← json_count resp
    assert (json.count == 0)

  abbrev pub stats_endpoint : Test
  stats_endpoint = do
    resp ←
        oneshot
          (make_entry json_text 0 0x1000 (codes "bl #0x2000 ; CALL [depth:1]")
            ∷ make_entry json_text 1 0x2000 (codes "mov x0, #0")
            ∷ make_entry_with_mem json_text 2 (codes "str x0, [sp]") 3
            ∷ make_entry json_text 3 0x2008 (codes "ret ; RETURN [depth:0]")
            ∷ [])
          (codes "/api/stats") no_range
    _ ← assert (status resp == 200)
    s ← json_stats resp
    _ ← assert (s.total_steps == 4)
    _ ← assert (s.call_count == 1)
    _ ← assert (s.ret_count == 1)
    assert (s.mem_change_count == 3)

  abbrev pub unknown_route_returns_404 : Test
  unknown_route_returns_404 = do
    resp ← oneshot [] (codes "/api/nonexistent") no_range
    assert (status resp == 404)
