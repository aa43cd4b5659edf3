-- ===== src/Tests/RoutesAt.antt =====
-- The routes at a router for this one table.

use mathlib.Core.Path.{subst}
use tiny_binary_debugger.Base.{
  ◌≡◌, refl, ap, ◌∙◌, sym, Bool-cases, inl, inr, Option, none, some, List, [], ◌∷◌, ◌++◌, drop,
  done, ◌>>=◌, arith, All,
}
use tiny_binary_debugger.Server.{RangeQuery, get_trace, get_step, get_count, get_stats}
use tiny_binary_debugger.Server.Routes.{
  Handler, get_step_handler, create_router, Axum, html, trace, total, stats, respond, step_reply,
}
use tiny_binary_debugger.Server.Routing.{route_at, before_param, Documented, respond_lem}
use tiny_binary_debugger.Tests.CommandsAt.{serving}
use tiny_binary_debugger.Tests.Machine.{in_order}
use tiny_binary_debugger.Text.{Text, codes, text_eq}
use tiny_binary_debugger.Text.Laws.{text_eq→eq}
use tiny_binary_debugger.Text.Number.{decimal}
use tiny_binary_debugger.Text.Parse.{parse_u64}

-- A path that does not stand in the table is a step.
abbrev a_step : Option Handler → Text → Option (Handler × List Text)
a_step (some h) path = some (h, [])
a_step none path = some (get_step_handler, drop 11 path ∷ [])

abbrev router : Axum
router = record {
  find = λ routes path. a_step (route_at path routes) path;
  path_u64 = parse_u64;
  index_html = codes "<html></html>";
}

route_at-elim :
    (P : Text → Handler → Type 0) (path : Text) (h : Handler) (routes : List (Text × Handler))
    → All (λ r. P r.0 r.1) routes
    → route_at path routes ≡ some h
    → P path h
route_at-elim P path h [] all e = absurd (cc)
route_at-elim P path h ((p, g) ∷ routes) all e = elim (Bool-cases (text_eq path p)) [
  | inl same ↦
      let found = rw same at e in
      let handler : g ≡ h = cc in
      subst (λ q. P q h) (sym (text_eq→eq path p same)) (subst (P p) handler all.0)
  | inr other ↦ route_at-elim P path h routes all.1 (rw other at e)
]

-- What a path of the table with a parameter makes of a segment.
abbrev Captures : Text → Text → Text → Handler → Type 0
Captures before segment p h =
    before_param p ≡ some before
    → ◌≡◌ {A = Option (Handler × List Text)}
        (some (get_step_handler, drop 11 (before ++ segment) ∷ [])) (some (h, segment ∷ []))

All-Captures : (before segment : Text) → All (λ r. Captures before segment r.0 r.1) create_router
unfolding create_router
All-Captures before segment = (
  (λ p. absurd (cc)),
  ((λ p. absurd (cc)), ((λ p. absurd (cc)), (step_at, ((λ p. absurd (cc)), tt)))),
)
  where
    step_at : Captures before segment (codes "/api/trace/:step") get_step_handler
    step_at p =
        let same : codes "/api/trace/" ≡ before = cc in
        subst
          (λ b.
            ◌≡◌ {A = Option (Handler × List Text)}
              (some (get_step_handler, drop 11 (b ++ segment) ∷ []))
              (some (get_step_handler, segment ∷ [])))
          same refl

router-Documented : Documented router create_router
router-Documented = record {
  static = λ path h plain at. ap (λ o. a_step o path) at;
  capture = λ path before segment h at param one some_char fresh.
      ap (λ o. a_step o (before ++ segment)) fresh
      ∙ route_at-elim (Captures before segment) path h create_router (All-Captures before segment)
          at param;
  path_u64 = λ s plain. refl;
}

abbrev whole : RangeQuery
whole = record { start = none; end = none }

respond_lem_example :
    (respond router in_order serving (codes "/api/trace/" ++ decimal 4) whole
      ≡ done (step_reply (get_step serving 4)))
    × (respond router in_order serving (codes "/api/trace/count") whole
        ≡ done (total (get_count serving)))
    × (respond router in_order serving (codes "/api/trace") whole
        ≡ (do reply ← get_trace serving whole; done (trace reply)))
    × (respond router in_order serving (codes "/api/stats") whole
        ≡ done (stats (get_stats in_order serving)))
    × (respond router in_order serving (codes "/") whole ≡ done (html router.index_html))
respond_lem_example = respond_lem router router-Documented in_order serving 4 whole (omega arith)
