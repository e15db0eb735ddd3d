-- ===== src/Route/Gin.antt =====
-- The router behind the route check. gin is not part of the repository: an engine is a parameter,
-- with the refusal that a registration answers (empty when it is accepted). Around it stand
-- `ginRoute`, `registerRoute` and `engineWith` of operator/internal/renderer/routecheck.go, and
-- `entryRoutes`, `refusedAlone`, `sharedOptions`, `registerAll` of routeadmit.go.
pub mod Registering
use kraken_d_operator.Base.{
  ℕ, Bool, true, false, ◌&&◌, ◌||◌, not, Option, none, some, List, [], ◌∷◌, ◌++◌, ◌≡◌, any,
  if◌then◌else◌,
}
use kraken_d_operator.Base.Int.{ℤ, pos, negsuc}
use kraken_d_operator.Base.Texts.{Text, codes, text_eq}
use kraken_d_operator.Route.Paths.{gin_path, route_shape}

pub record GinRoute : Type 0 where
  pub index : ℤ
  pub method : Text
  pub path : Text
  pub any_method : Bool

abbrev pub gateway_route : ℤ
gateway_route = negsuc 0

pub record Gin : Type 1 where
  pub Engine : Type 0
  pub new : Engine
  pub register : Engine → GinRoute → Engine × Text

abbrev pub is_refusal : Text → Bool
is_refusal [] = false
is_refusal (c ∷ message) = true

abbrev pub options_method : Text
options_method = codes "OPTIONS"

pub record RouteRules : Type 0 where
  pub auto_options : Bool
  pub ee_wildcards : Bool

abbrev pub contains : List Text → Text → Bool
contains paths p = any (λ q. text_eq q p) paths

abbrev pub plain_route : Text → Text → GinRoute
plain_route method path = record { index = pos 0; method = method; path = path; any_method = false }

-- the path that the validation copy registers
unfoldable pub registered_path : RouteRules → Text → Text
registered_path rules path = if rules.ee_wildcards then route_shape path else gin_path path

-- `options` are the paths whose OPTIONS route a served entry already added
unfoldable pub entry_routes : Text → Text → RouteRules → List Text → List GinRoute
entry_routes method path rules options =
    let p = registered_path rules path in
    plain_route method p
    ∷ (if rules.auto_options && not (contains options p)
        then plain_route options_method p ∷ []
        else [])

unfoldable pub shared_options : GinRoute → GinRoute → Bool
shared_options a b =
    text_eq a.method options_method && text_eq b.method options_method && text_eq a.path b.path

module _ (gin : Gin) where
  open gin use {Engine, new, register}

  abbrev pub refuses : Engine → GinRoute → Bool
  refuses e r = is_refusal (register e r).1

  unfoldable pub engine_from : Engine → List GinRoute → Engine
  engine_from e [] = e
  engine_from e (r ∷ routes) = engine_from (register e r).0 routes

  unfoldable pub engine_with : List GinRoute → Engine
  unfolding engine_from
  engine_with routes = engine_from new routes

  unfoldable pub refused_alone : List GinRoute → Bool
  refused_alone routes = any (λ r. refuses new r) routes

  -- the engine afterwards, and whether gin accepted every route
  unfoldable pub register_all : Engine → List GinRoute → Engine × Bool
  register_all e [] = (e, true)
  register_all e (r ∷ routes) =
      let rest = register_all (register e r).0 routes in
      if refuses e r then ((register e r).0, false) else rest
