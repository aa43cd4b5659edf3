-- ===== src/Server/Routes.antt =====
-- `create_router` and `serve` of src/server/mod.rs: which handler answers which path. The router
-- itself is axum's: the record `Axum`.
use tiny_binary_debugger.Base.{
  ℕ, Option, none, some, List, [], ◌∷◌, ◌++◌, Result, Outcome, done, expect, ◌>>=◌,
}
use tiny_binary_debugger.Stats.{Orders, TraceStats}
use tiny_binary_debugger.Storage.{TraceEntry}
use tiny_binary_debugger.Server.{
  AppState, RangeQuery, TraceResponse, CountResponse, Reply, json, not_found, get_trace, get_step,
  get_count, get_stats,
}
use tiny_binary_debugger.Text.{Text, codes}
use tiny_binary_debugger.Text.Number.{decimal}

-- The handlers, all of them for GET.
pub data Handler : Type 0 where
  index_handler get_trace_handler get_count_handler get_step_handler get_stats_handler : Handler

-- The paths with their handlers.
unfoldable pub create_router : List (Text × Handler)
create_router =
    (codes "/", index_handler)
    ∷ (codes "/api/trace", get_trace_handler)
    ∷ (codes "/api/trace/count", get_count_handler)
    ∷ (codes "/api/trace/:step", get_step_handler)
    ∷ (codes "/api/stats", get_stats_handler)
    ∷ []

-- `find` gives the handler of a path with what its parameters matched; `path_u64` is the extractor
-- `Path<u64>`; `index_html` is the page that is built into the program.
pub record Axum : Type 0 where
  pub find : List (Text × Handler) → Text → Option (Handler × List Text)
  pub path_u64 : Text → Option ℕ
  pub index_html : Text

pub data Response : Type 0 where
  html : Text → Response
  trace : TraceResponse → Response
  step : TraceEntry → Response
  total : CountResponse → Response
  stats : TraceStats → Response
  -- 404, and 400 for a parameter that the extractor refuses
  missing : Response
  bad_request : Response

abbrev pub step_reply : Reply TraceEntry → Response
step_reply (json e) = step e
step_reply not_found = missing

module _ (axum : Axum) (orders : Orders) (state : AppState) where
  open axum use {find, path_u64, index_html}

  unfoldable pub step_of : Option ℕ → Response
  unfolding get_step
  step_of none = bad_request
  step_of (some n) = step_reply (get_step state n)

  unfoldable pub answer : RangeQuery → Option (Handler × List Text) → Outcome Response
  unfolding step_of get_trace get_count get_stats
  answer range none = done missing
  answer range (some (index_handler, matched)) = done (html index_html)
  answer range (some (get_trace_handler, matched)) = do
    reply ← get_trace state range
    done (trace reply)
  answer range (some (get_count_handler, matched)) = done (total (get_count state))
  answer range (some (get_step_handler, [])) = done missing
  answer range (some (get_step_handler, s ∷ matched)) = done (step_of (path_u64 s))
  answer range (some (get_stats_handler, matched)) = done (stats (get_stats orders state))

  -- What a GET request for a path is answered.
  unfoldable pub respond : Text → RangeQuery → Outcome Response
  unfolding answer create_router
  respond path range = answer range (find create_router path)

-- `serve`, up to the first request: `bind` may fail, and then `unwrap` panics.
unfoldable pub serve : (Text → Result (Unit {0})) → ℕ → Outcome (List Text)
unfolding decimal
serve bind port = do
  let addr = codes "127.0.0.1:" ++ decimal port
  bound ← expect (bind addr)
  done (
      codes ""
      ∷ (codes "  Server running at http://" ++ addr)
      ∷ codes "  Press Ctrl+C to stop"
      ∷ codes ""
      ∷ [])
