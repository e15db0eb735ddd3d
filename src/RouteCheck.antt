-- ===== src/RouteCheck.antt =====
-- The check of a whole configuration's routes: operator/internal/renderer/routecheck.go. The JSON
-- decoder and the context are not part of the repository: the decoded configuration is an argument,
-- and `expired` says at which of the context's polls it has ended, and why.
pub mod Verdict
pub mod Options
mod Tests
use kraken_d_operator.Base.{
  ℕ, suc, ◌+◌, Bool, true, false, ◌&&◌, not, Option, none, some, List, [], ◌∷◌, ◌++◌, map, nat_eq,
  length, if◌then◌else◌,
}
use kraken_d_operator.Base.Int.{ℤ, pos, negsuc}
use kraken_d_operator.Base.Maps.{Eq, lookup, insert}
use kraken_d_operator.Base.Texts.{Text, codes, text_eq, text_lt, text_key}
use kraken_d_operator.Check.Verdicts.{decimal}
use kraken_d_operator.Route.Paths.{gin_path}
use kraken_d_operator.Route.Entries.{to_upper, sort_by}
use kraken_d_operator.Route.Gin.{
  GinRoute, Gin, gateway_route, options_method, plain_route, is_refusal, refuses, engine_with,
}
use kraken_d_operator.Route.Clashes.{describe}
use kraken_d_operator.Route.Admission.{max_route_refusals}

-- one line of a refusal
pub record RefusedRoute : Type 0 where
  pub index : ℤ
  pub message : Text

abbrev pub index_text : ℤ → Text
index_text (pos n) = decimal n
index_text (negsuc n) = codes "-" ++ decimal (suc n)

abbrev pub is_gateway_route : ℤ → Bool
is_gateway_route (pos n) = false
is_gateway_route (negsuc n) = nat_eq n 0

unfoldable pub line : RefusedRoute → GinRoute → Text
line f r =
    if is_gateway_route f.index
    then codes "- gateway route " ++ (describe r ++ (codes ": " ++ f.message))
    else codes "- at '/endpoints/" ++ (index_text f.index ++ (codes "/endpoint': " ++ f.message))

pub record RouterOptions : Type 0 where
  pub health_path : Text
  pub disable_health : Bool
  pub auto_options : Bool

pub record ConfigEndpoint : Type 0 where
  pub endpoint : Text
  pub method : Text

pub record RoutedConfig : Type 0 where
  pub debug : Bool
  pub echo : Bool
  -- the block under `router`, if there is one, and what it decodes to, if it does
  pub router : Option (Option RouterOptions)
  pub endpoints : List ConfigEndpoint

abbrev pub default_options : RouterOptions
default_options = record { health_path = []; disable_health = false; auto_options = false }

abbrev pub parse_router_options : Option RouterOptions → RouterOptions
parse_router_options none = default_options
parse_router_options (some opts) = opts

abbrev pub router_options : Option (Option RouterOptions) → RouterOptions
router_options none = default_options
router_options (some block) = parse_router_options block

abbrev pub default_health_path : Text
default_health_path = codes "/__health"

abbrev pub health_route : RouterOptions → Text
health_route opts =
    if opts.disable_health
    then []
    else if not (text_eq opts.health_path [])
    then opts.health_path
    else default_health_path

abbrev pub any_route : Text → GinRoute
any_route path = record { index = gateway_route; method = []; path = path; any_method = true }

abbrev pub gateway_routes : RoutedConfig → RouterOptions → List GinRoute
gateway_routes cfg opts =
    let health = health_route opts in
    (if not (text_eq health [])
      then record { index = gateway_route; method = codes "GET"; path = health; any_method = false }
        ∷ []
      else [])
    ++ ((if cfg.debug then any_route (codes "/__debug/*param") ∷ [] else [])
        ++ (if cfg.echo then any_route (codes "/__echo/*param") ∷ [] else []))

abbrev pub endpoint_route : ℕ → ConfigEndpoint → GinRoute
endpoint_route i ep = record {
  index = pos i;
  method = to_upper ep.method;
  path = gin_path ep.endpoint;
  any_method = false;
}

unfoldable pub endpoint_routes : ℕ → List ConfigEndpoint → List GinRoute
endpoint_routes i [] = []
endpoint_routes i (ep ∷ eps) = endpoint_route i ep ∷ endpoint_routes (suc i) eps

abbrev pub insert_new : Text → ℕ → List (Text × ℕ) → List (Text × ℕ)
insert_new p i first = elim (lookup p first) [ none ↦ insert p i first | some j ↦ first ]

-- the map `firstByPath`
unfoldable pub first_by_path : ℕ → List ConfigEndpoint → List (Text × ℕ) → List (Text × ℕ)
first_by_path i [] first = first
first_by_path i (ep ∷ eps) first =
    first_by_path (suc i) eps (insert_new (gin_path ep.endpoint) i first)

abbrev pub options_route : Text × ℕ → GinRoute
options_route (p, i) = record {
  index = pos i;
  method = options_method;
  path = p;
  any_method = false;
}

unfoldable pub options_routes : List ConfigEndpoint → List GinRoute
unfolding first_by_path
options_routes eps = map options_route (sort_by (λ a b. text_lt a.0 b.0) (first_by_path 0 eps []))

unfoldable pub gin_routes_of : RoutedConfig → List GinRoute
unfolding endpoint_routes options_routes
gin_routes_of cfg =
    let opts = router_options cfg.router in
    gateway_routes cfg opts
    ++ (endpoint_routes 0 cfg.endpoints
        ++ (if opts.auto_options then options_routes cfg.endpoints else []))

-- what the decoder makes of the document
pub data Decoded : Type 0 where
  config : RoutedConfig → Decoded
  wrongly_typed : Decoded
  undecodable : Text → Decoded

pub record RouteVerdict : Type 0 where
  pub refusals : List Text
  pub capped : Bool
  pub error : Option Text

abbrev pub unfinished : Text → Text
unfinished e = codes "route check did not finish: " ++ e

-- `strings.Join(lines, "\n")`
abbrev pub join_lines : List Text → Text
join_lines [] = []
join_lines (s ∷ []) = s
join_lines (s ∷ t ∷ lines) = s ++ 10 ∷ join_lines (t ∷ lines)

unfoldable pub group_refusal : GinRoute → List RefusedRoute → Text
unfolding line
group_refusal r clashes = join_lines (map (λ f. line f r) clashes)

abbrev same_index : ℤ → ℤ → Bool
same_index (pos m) (pos n) = nat_eq m n
same_index (negsuc m) (negsuc n) = nat_eq m n
same_index _ _ = false

-- What an accepted route adds that clashes with `r`.
unfoldable pub blame : GinRoute → GinRoute → Text → List RefusedRoute
blame a r refusal =
    if is_gateway_route a.index
    then record {
      index = r.index;
      message = refusal ++ (codes " (" ++ (describe a ++ codes " is the gateway's own route)"));
    }
      ∷ []
    else if not (same_index a.index r.index)
    then record { index = r.index; message = refusal }
      ∷ record {
        index = a.index;
        message = describe a ++ (codes " clashes with " ++ (describe r ++ (codes ": " ++ refusal)));
      }
      ∷ []
    else record { index = r.index; message = refusal } ∷ []

-- The lines, or the error, and the polls made.
abbrev pub Blamed : Type 0
Blamed = (List RefusedRoute × Option Text) × ℕ

abbrev pub verdict_of : List Text → Bool → RouteVerdict
verdict_of refusals capped = record { refusals = refusals; capped = capped; error = none }

abbrev pub failed_with : Text → RouteVerdict
failed_with e = record { refusals = []; capped = false; error = some e }

-- behind a poll of the context
abbrev pub unless_expired : Option Text → RouteVerdict → RouteVerdict
unless_expired (some e) v = failed_with (unfinished e)
unless_expired none v = v

module _ (gin : Gin) (expired : ℕ → Option Text) where
  unfoldable pub blame_first : List GinRoute → GinRoute → Text → ℕ → Blamed
  unfolding blame
  blame_first [] r refusal polls =
      ((record { index = r.index; message = refusal } ∷ [], none), polls)
  blame_first (a ∷ accepted) r refusal polls = elim (expired polls) [
    | some e ↦ (([], some (unfinished e)), suc polls)
    | none ↦
        if not (refuses gin (engine_with gin (a ∷ [])) r)
        then blame_first accepted r refusal (suc polls)
        else ((blame a r refusal, none), suc polls)
  ]

  unfoldable pub clash_refusals : List GinRoute → GinRoute → Text → ℕ → Blamed
  unfolding blame_first
  clash_refusals accepted r refusal polls =
      if refuses gin gin.new r
      then ((record { index = r.index; message = refusal } ∷ [], none), polls)
      else blame_first accepted r refusal polls

  pub record Checking : Type 0 where
    pub accepted : List GinRoute
    pub engine : gin.Engine
    pub refusals : List Text
    pub polls : ℕ

  -- The refusal's lines are known; `rest` is the rest of the loop.
  unfoldable pub after_refusal :
      (Checking → RouteVerdict) → Checking → GinRoute → Blamed → RouteVerdict
  unfolding group_refusal
  after_refusal rest s r ((clashes, some e), polls) = failed_with e
  after_refusal rest s r ((clashes, none), polls) =
      let refusals = s.refusals ++ group_refusal r clashes ∷ [] in
      if nat_eq (length refusals) max_route_refusals
      then verdict_of refusals true
      else rest (record {
        accepted = s.accepted;
        engine = engine_with gin s.accepted;
        refusals = refusals;
        polls = polls;
      })

  -- one registration
  abbrev pub accept_route : GinRoute → Checking → Checking
  accept_route r s = record s {
    accepted = s.accepted ++ r ∷ [];
    engine = (gin.register s.engine r).0;
    polls = suc s.polls;
  }

  unfoldable pub check_routes : List GinRoute → Checking → RouteVerdict
  unfolding after_refusal clash_refusals
  check_routes [] s = verdict_of s.refusals false
  check_routes (r ∷ routes) s = unless_expired (expired s.polls) (
      if not (refuses gin s.engine r)
      then check_routes routes (accept_route r s)
      else after_refusal (check_routes routes) s r
          (clash_refusals s.accepted r (gin.register s.engine r).1 (suc s.polls)))

  abbrev pub checking_start : Checking
  checking_start = record { accepted = []; engine = gin.new; refusals = []; polls = 0 }

  unfoldable pub route_refusals : Decoded → RouteVerdict
  unfolding check_routes gin_routes_of
  route_refusals (undecodable e) = failed_with (codes "decoding config for the route check: " ++ e)
  route_refusals wrongly_typed = verdict_of [] false
  route_refusals (config cfg) = check_routes (gin_routes_of cfg) checking_start
