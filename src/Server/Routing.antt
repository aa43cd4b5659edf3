-- ===== src/Server/Routing.antt =====
-- Which request reaches which handler.
use tiny_binary_debugger.Base.{
  Bool-cases, inl, inr, ◌∙◌, ap, ℕ, ◌^◌, ◌<◌, ◌≡◌, refl, Bool, false, ◌||◌, Option, none, some,
  List, [], ◌∷◌, ◌++◌, length, ◌==◌, if◌then◌else◌, done, ◌>>=◌, arith,
}
use mathlib.Core.Option
use tiny_binary_debugger.Stats.{Orders}
use tiny_binary_debugger.Server.{AppState, RangeQuery, get_trace, get_step, get_count, get_stats}
use tiny_binary_debugger.Server.Routes.{
  step_of, step_reply, Handler, index_handler, get_trace_handler, get_count_handler,
  get_step_handler, get_stats_handler, create_router, Axum, html, trace, total, stats, respond,
  answer,
}
use tiny_binary_debugger.Text.{Text, codes, text_eq}
use tiny_binary_debugger.Text.Number.{decimal}
use tiny_binary_debugger.Text.Parse.{is_digit, parse_u64}
use tiny_binary_debugger.Text.RoundTrip.{AllDigits, decimal-AllDigits, parse_unsigned-decimal}

-- The handler of a path in the table, letter for letter.
abbrev pub route_at : Text → List (Text × Handler) → Option Handler
route_at path [] = none
route_at path ((p, h) ∷ routes) = if text_eq path p then some h else route_at path routes

abbrev pub has_char : ℕ → Text → Bool
has_char c [] = false
has_char c (d ∷ s) = d == c || has_char c s

-- What stands before the parameter of a path, if it has one.
abbrev pub before_param : Text → Option Text
before_param [] = none
before_param (c ∷ s) = if c == b':' then some [] else Option.map (λ t. c ∷ t) (before_param s)

-- What axum says of a router for the table `routes`: a path without a parameter is found as it
-- stands; else a parameter at the end of a path matches a whole segment that is not empty; and
-- `Path<u64>`, which decodes what is written with percent signs, parses a segment that has none as it
-- stands.
pub record Documented (axum : Axum) (routes : List (Text × Handler)) : Type 0 where
  pub static :
      (path : Text) (h : Handler)
      → before_param path ≡ none
      → route_at path routes ≡ some h
      → axum.find routes path ≡ some (h, [])
  pub capture :
      (path before segment : Text) (h : Handler)
      → route_at path routes ≡ some h
      → before_param path ≡ some before
      → has_char b'/' segment ≡ false
      → 0 < length segment
      → route_at (before ++ segment) routes ≡ none
      → axum.find routes (before ++ segment) ≡ some (h, segment ∷ [])
  pub path_u64 : (s : Text) → has_char b'%' s ≡ false → axum.path_u64 s ≡ parse_u64 s

digits_lack : (c : ℕ) (s : Text) → is_digit c ≡ false → AllDigits s → has_char c s ≡ false
digits_lack c [] other h = refl
digits_lack c (d ∷ s) other h = elim (Bool-cases (d == c)) [
  | inl same ↦ let e : d ≡ c = ground arith in absurd (let p = ap is_digit e in let q = h.0 in cc)
  | inr apart ↦ rw apart (digits_lack c s other h.1)
]

-- No number stands in the table.
digits_no_route :
    (s : Text)
    → AllDigits s
    → 0 < length s
    → route_at (codes "/api/trace/" ++ s) create_router ≡ none
unfolding create_router text_eq is_digit
digits_no_route [] h some_digit = elim some_digit [ ]
digits_no_route (c ∷ s) h some_digit = ground (arith, h.0)

module _ (axum : Axum) (documented : Documented axum create_router) (orders : Orders)
    (state : AppState) where
  respond-static :
      (path : Text) (h : Handler) (range : RangeQuery)
      → before_param path ≡ none
      → route_at path create_router ≡ some h
      → respond axum orders state path range ≡ answer axum orders state range (some (h, []))
  unfolding respond
  respond-static path h range plain at = rw (documented.static path h plain at) refl

  respond-step :
      (n : ℕ) (range : RangeQuery)
      → n < 2 ^ 64
      → respond axum orders state (codes "/api/trace/" ++ decimal n) range
        ≡ done (step_reply (get_step state n))
  unfolding respond answer step_of create_router text_eq parse_u64 is_digit
  respond-step n range small =
      let (digits, some_digit) = decimal-AllDigits n in
      let found =
        documented.capture (codes "/api/trace/:step") (codes "/api/trace/") (decimal n)
          get_step_handler refl refl (digits_lack b'/' (decimal n) refl digits) some_digit
          (digits_no_route (decimal n) digits some_digit) in
      ap (answer axum orders state range) found
      ∙ ap done (
          ap (step_of axum orders state) (
            documented.path_u64 (decimal n) (digits_lack b'%' (decimal n) refl digits)
            ∙ parse_unsigned-decimal (2 ^ 64) n small))

  -- The requests of the interface reach their handlers: a path that ends in a 64-bit number in
  -- decimal is answered with that step, or with 404 if there is none, and `/api/trace/count` is
  -- answered with the count and is not taken for a step. The router is to find a path without
  -- a parameter as it stands, and to match a parameter with a segment, and `Path<u64>` to parse a
  -- segment without percent signs as a decimal number of 64 bits.
  pub respond_lem :
      (n : ℕ) (range : RangeQuery)
      → n < 2 ^ 64
      → (respond axum orders state (codes "/api/trace/" ++ decimal n) range
          ≡ done (step_reply (get_step state n)))
        × (respond axum orders state (codes "/api/trace/count") range
            ≡ done (total (get_count state)))
        × (respond axum orders state (codes "/api/trace") range
            ≡ (do reply ← get_trace state range; done (trace reply)))
        × (respond axum orders state (codes "/api/stats") range
            ≡ done (stats (get_stats orders state)))
        × (respond axum orders state (codes "/") range ≡ done (html axum.index_html))
  unfolding answer create_router text_eq
  respond_lem n range small = (
    respond-step n range small,
    respond-static (codes "/api/trace/count") get_count_handler range refl refl,
    respond-static (codes "/api/trace") get_trace_handler range refl refl,
    respond-static (codes "/api/stats") get_stats_handler range refl refl,
    respond-static (codes "/") index_handler range refl refl,
  )
