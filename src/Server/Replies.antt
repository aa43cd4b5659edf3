-- ===== src/Server/Replies.antt =====
-- What the handlers reply.
use tiny_binary_debugger.Base.{
  ℕ, ◌<◌, ◌≡◌, ◌≢◌, ◌⊎◌, ◌↔◌, inl, inr, refl, sym, Option, none, some, List, [], ◌∷◌, length,
  length-map, Outcome, done, panicked, ◌>>=◌, arith,
}
use tiny_binary_debugger.BTreeMap
use tiny_binary_debugger.BTreeMap.{BTreeMap}
use tiny_binary_debugger.Stats.{Orders, analyze_entries}
use tiny_binary_debugger.Storage
use tiny_binary_debugger.Storage.{TraceEntry, TraceDb, IsValid, IsKeyed, get_range, count}
use tiny_binary_debugger.Storage.Db.{get_range-panics}
use tiny_binary_debugger.Server.{
  AppState, TraceResponse, json, not_found, get_trace, get_step, get_count, get_stats,
}

respond_panics :
    (r : Outcome (List TraceEntry)) (n : ℕ)
    → (◌>>=◌ {B = TraceResponse} r (λ es. done (record { entries = es; total = n })) ≡ panicked)
      ↔ (r ≡ panicked)
respond_panics panicked n = ((λ _. refl), (λ _. refl))
respond_panics (done es) n = ((λ p. cc), (λ p. cc))

-- A request with both ends panics exactly when the range ends before it starts and the trace is not
-- empty.
pub get_trace-panics :
    (state : AppState) (start stop : ℕ)
    → (get_trace state (record { start = some start; end = some stop }) ≡ panicked)
      ↔ ((stop < start) × (count state.db ≢ 0))
unfolding get_trace
get_trace-panics state start stop =
    let (a, b) = respond_panics (get_range state.db start stop) (count state.db) in
    let (c, d) = get_range-panics state.db start stop in ((λ p. c (a p)), (λ p. b (d p)))

get-step :
    (m : BTreeMap TraceEntry) (k : ℕ) (e : TraceEntry)
    → IsKeyed m
    → BTreeMap.get m k ≡ some e
    → e.step ≡ k
unfolding BTreeMap.get
get-step [] k e h p = absurd (cc)
get-step ((j, d) ∷ m) k e h p = ground (arith, get-step m k e h.1)

-- Of a valid database, a step is answered by the entry with that number or by 404, and 404 exactly
-- if the step is not in the database; the count and the total of the statistics are the number of
-- entries of the whole trace.
replies_agree :
    (orders : Orders) (state : AppState) (step : ℕ)
    → IsValid state.db
    → (((get_step state step ≡ not_found) × (Storage.get state.db step ≡ none))
        ⊎ ((e : TraceEntry) × (get_step state step ≡ json e)
            × (e.step ≡ step)
            × (Storage.get state.db step ≡ some e)))
      × ((get_count state).count ≡ length (Storage.get_all state.db))
      × ((get_stats orders state).total_steps ≡ (get_count state).count)
unfolding get_step get_count get_stats analyze_entries
replies_agree orders state step v = (by_step (Storage.get state.db step) refl, sym all, all)
  where
    all : length (Storage.get_all state.db) ≡ count state.db
    all = unfold Storage.get_all count in length-map state.db.entries (λ e. e.1)

    by_step :
        (o : Option TraceEntry)
        → Storage.get state.db step ≡ o
        → ((get_step state step ≡ not_found) × (Storage.get state.db step ≡ none))
          ⊎ ((e : TraceEntry) × (get_step state step ≡ json e)
              × (e.step ≡ step)
              × (Storage.get state.db step ≡ some e))
    by_step none p = inl (rw p refl, p)
    by_step (some e) p =
        inr (e, rw p refl, get-step state.db.entries step e v.keyed (unfold Storage.get in p), p)
