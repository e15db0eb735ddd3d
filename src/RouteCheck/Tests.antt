-- ===== src/RouteCheck/Tests.antt =====
-- The theorems about the route check at concrete configurations, and tests.
use kraken_d_operator.Base.{
  ℕ, true, false, Option, none, some, List, [], ◌∷◌, ◌≡◌, ◌↔◌, refl, Any, length,
}
use kraken_d_operator.Base.Texts.{codes}
use kraken_d_operator.Route.Paths.{gin_path}
use kraken_d_operator.Route.Gin.{engine_with, register_all}
use kraken_d_operator.Route.Examples.{first_comer}
use kraken_d_operator.RouteCheck.{
  RoutedConfig, gin_routes_of, options_route, options_routes, config, route_refusals,
}
use kraken_d_operator.RouteCheck.Verdict.{
  IsBounded, route_refusals-IsBounded, route_refusals-accepts,
}
use kraken_d_operator.RouteCheck.Options.{first_index, options_routes-first}

abbrev forever : ℕ → Option (List ℕ)
forever n = none

-- Its last endpoint has the first one's route, and its second one the health endpoint's.
abbrev clashing : RoutedConfig
clashing = record {
  debug = false;
  echo = true;
  router =
      some
        (some (record { health_path = codes "/up"; disable_health = false; auto_options = true }));
  endpoints =
      record { endpoint = codes "/a/{id}"; method = codes "get" }
      ∷ record { endpoint = codes "/up"; method = codes "GET" }
      ∷ record { endpoint = codes "/a/{id}"; method = codes "GET" }
      ∷ [];
}

two_refused :
    (length (route_refusals first_comer forever (config clashing)).refusals ≡ 2)
    × ((route_refusals first_comer forever (config clashing)).error ≡ none)
unfolding route_refusals gin_path engine_with
two_refused = (refl, refl)

route_refusals-accepts_example :
    ((route_refusals first_comer forever (config clashing)).refusals ≡ [])
    ↔ ((register_all first_comer first_comer.new (gin_routes_of clashing)).1 ≡ true)
unfolding route_refusals gin_path engine_with
route_refusals-accepts_example = route_refusals-accepts first_comer forever clashing refl

route_refusals-IsBounded_example : IsBounded (route_refusals first_comer forever (config clashing))
route_refusals-IsBounded_example = route_refusals-IsBounded first_comer forever (config clashing)

options_routes-first_example :
    Any (λ r. r ≡ options_route (codes "/a/:id", 0)) (options_routes clashing.endpoints)
    ↔ (first_index (codes "/a/:id") 0 clashing.endpoints ≡ some 0)
options_routes-first_example = options_routes-first clashing.endpoints (codes "/a/:id") 0
