-- ===== src/Server.antt =====
-- src/server/mod.rs: the handlers of the HTTP interface. axum parses the requests and serializes
-- what the handlers return; a handler that panics answers nothing.
pub mod Replies
pub mod Routes
pub mod Routing
use tiny_binary_debugger.Base.{ℕ, Option, none, some, List, Outcome, done, ◌>>=◌}
use tiny_binary_debugger.Stats.{Orders, TraceStats, analyze}
use tiny_binary_debugger.Storage
use tiny_binary_debugger.Storage.{TraceEntry, TraceDb}

pub record AppState : Type 0 where
  pub db : TraceDb

pub record RangeQuery : Type 0 where
  pub start : Option ℕ
  pub end : Option ℕ

pub record TraceResponse : Type 0 where
  pub entries : List TraceEntry
  pub total : ℕ

pub record CountResponse : Type 0 where
  pub count : ℕ

-- What a handler sends back: JSON, or the status 404.
pub data Reply {ℓ} (A : Type ℓ) : Type ℓ where
  json : A → Reply A
  not_found : Reply A

entries_of : TraceDb → Option ℕ → Option ℕ → Outcome (List TraceEntry)
unfolding Storage.get_range Storage.get_all
entries_of db (some start) (some stop) = Storage.get_range db start stop
entries_of db (some start) none = done (Storage.get_all db)
entries_of db none stop = done (Storage.get_all db)

unfoldable pub get_trace : AppState → RangeQuery → Outcome TraceResponse
unfolding entries_of Storage.count
get_trace state range = do
  entries ← entries_of state.db range.start range.end
  done (record { entries = entries; total = Storage.count state.db })

ok_or_not_found : Option TraceEntry → Reply TraceEntry
ok_or_not_found none = not_found
ok_or_not_found (some e) = json e

unfoldable pub get_step : AppState → ℕ → Reply TraceEntry
unfolding ok_or_not_found Storage.get
get_step state step = ok_or_not_found (Storage.get state.db step)

unfoldable pub get_count : AppState → CountResponse
unfolding Storage.count
get_count state = record { count = Storage.count state.db }

unfoldable pub get_stats : Orders → AppState → TraceStats
unfolding analyze
get_stats orders state = analyze orders state.db
