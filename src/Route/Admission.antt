-- ===== src/Route/Admission.antt =====
-- `routeLosers` and `dropRouteLosers` of operator/internal/renderer/routeadmit.go. The loop's
-- variables are the fields of `State`; `break` is the field `capped`, after which a round changes
-- nothing. gin's engine is changed in place by a registration, refused or not: the model hands the
-- engine on.
mod Rule
pub mod Served
pub mod Bounds
pub mod Justified
pub mod Blamed
mod Runs
pub mod Reasons
use kraken_d_operator.Base.{
  ℕ, zero, suc, ◌+◌, ◌-◌, Bool, true, false, ◌&&◌, ◌||◌, not, Option, none, some, List, [], ◌∷◌,
  ◌++◌, leb, nat_eq, length, map, any, if◌then◌else◌,
}
use kraken_d_operator.Base.Maps.{nat_key, lookup, insert}
use kraken_d_operator.Base.Texts.{Text, codes, text_eq}
use kraken_d_operator.Route.Paths.{route_shape}
use kraken_d_operator.Route.Entries.{
  NamespacedName, source_key, FlatEndpoint, EntryConflict, serving_order, entry_method, sort_by,
  conflict_before,
}
use kraken_d_operator.Route.Gin.{
  GinRoute, Gin, RouteRules, options_method, entry_routes, engine_with, refused_alone, register_all,
}
use kraken_d_operator.Route.Clashes.{
  RoutedRoute, RoutedEntry, RouterClash, routes_of, routed_by, with_clashes, pairwise_clashes,
  older_clashes,
}

abbrev pub max_route_refusals : ℕ
max_route_refusals = 21

-- a map's `nil` slice for a missing key
abbrev pub or_empty {ℓ} : {A : Type ℓ} → Option (List A) → List A
or_empty none = []
or_empty (some xs) = xs

-- the paths of the OPTIONS routes among `routes`
abbrev pub options_paths : List GinRoute → List Text
options_paths [] = []
options_paths (r ∷ routes) =
    let rest = options_paths routes in
    if text_eq r.method options_method then r.path ∷ rest else rest

abbrev pub routed_entry : FlatEndpoint → RoutedEntry
routed_entry fe = record {
  method = entry_method fe.entry.method;
  path = fe.entry.endpoint;
  shape = route_shape fe.entry.endpoint;
  source = fe.source;
}

abbrev pub conflict_of : FlatEndpoint → RouterClash → EntryConflict
conflict_of fe c = record {
  endpoint = fe.entry.endpoint;
  method = fe.entry.method;
  winner = c.winner;
  detail = c.detail;
}

-- the routes of an entry with `nil` options: the OPTIONS route is always listed
abbrev pub pair_of : RouteRules → FlatEndpoint → List GinRoute
pair_of rules fe = entry_routes (entry_method fe.entry.method) fe.entry.endpoint rules []

module _ (gin : Gin) where
  pub record State : Type 0 where
    pub losers : List (ℕ × List EntryConflict)
    pub capped : Bool
    pub served : List RoutedRoute
    pub dropped : List RoutedRoute
    pub older : List RoutedEntry
    pub own : List (NamespacedName × List GinRoute)
    pub own_engines : List (NamespacedName × gin.Engine)
    pub options : List Text
    pub engine : gin.Engine
    pub refusals : ℕ

  abbrev pub start : State
  start = record {
    losers = [];
    capped = false;
    served = [];
    dropped = [];
    older = [];
    own = [];
    own_engines = [];
    options = [];
    engine = gin.new;
    refusals = 0;
  }

  abbrev or_new : Option gin.Engine → gin.Engine
  or_new none = gin.new
  or_new (some e) = e

  -- the source's own engines afterwards, and whether gin refused one of `routes` in it
  pub refused_by_own :
      List (NamespacedName × gin.Engine)
      → List (NamespacedName × List GinRoute)
      → NamespacedName
      → List GinRoute
      → List (NamespacedName × gin.Engine) × Bool
  refused_by_own engines own source routes =
      let tried = register_all gin (or_new (lookup source engines)) routes in
      if tried.1
      then (insert source tried.0 engines, false)
      else (insert source (engine_with gin (or_empty (lookup source own))) engines, true)

  -- an entry that lost a same-shape conflict is recorded as an older entry left out
  pub admit_shadowed : RouteRules → FlatEndpoint → State → State
  admit_shadowed rules fe s =
      if refused_alone gin (pair_of rules fe)
      then s
      else record s { dropped = s.dropped ++ routed_by fe.source (pair_of rules fe) }

  -- the entry is served: its routes are in the engine `e`
  pub serve_entry : FlatEndpoint → List GinRoute → gin.Engine → State → State
  serve_entry fe routes e s = record s {
    served = s.served ++ routed_by fe.source routes;
    options = s.options ++ options_paths routes;
    own = insert fe.source (or_empty (lookup fe.source s.own) ++ routes) s.own;
    older = s.older ++ routed_entry fe ∷ [];
    engine = e;
  }

  pub record_losses : ℕ → FlatEndpoint → List RouterClash → State → List (ℕ × List EntryConflict)
  record_losses i fe [] s = s.losers
  record_losses i fe (c ∷ clashes) s = insert i (map (conflict_of fe) (c ∷ clashes)) s.losers

  -- the entry is not served: it lost, or gin refuses it next to several routes together
  pub refuse_entry :
      RouteRules → ℕ → FlatEndpoint → List GinRoute → List RouterClash → State → State
  unfolding record_losses
  refuse_entry rules i fe routes clashes s =
      let all_clashes = with_clashes clashes (pairwise_clashes gin s.served fe.source routes) in
      record s {
        losers = record_losses i fe all_clashes s;
        refusals = s.refusals + 1;
        own_engines =
            insert fe.source (engine_with gin (or_empty (lookup fe.source s.own))) s.own_engines;
        dropped = s.dropped ++ routed_by fe.source (pair_of rules fe);
        older = s.older ++ routed_entry fe ∷ [];
      }

  -- after the entry's own checks
  pub by_clashes :
      RouteRules
      → ℕ
      → FlatEndpoint
      → List GinRoute
      → List RouterClash
      → gin.Engine × Bool
      → State
      → State
  by_clashes rules i fe routes [] (e, true) s = serve_entry fe routes e s
  by_clashes rules i fe routes [] (e, false) s =
      refuse_entry rules i fe routes [] (record s { engine = engine_with gin (routes_of s.served) })
  by_clashes rules i fe routes (c ∷ clashes) registered s =
      refuse_entry rules i fe routes (c ∷ clashes) s

  pub admit_entry : RouteRules → ℕ → FlatEndpoint → State → State
  admit_entry rules i fe s =
      let routes = entry_routes (entry_method fe.entry.method) fe.entry.endpoint rules s.options in
      let tried = refused_by_own s.own_engines s.own fe.source routes in
      let clashes =
        older_clashes gin rules s.older s.dropped (routed_entry fe) (pair_of rules fe) in
      let next =
        by_clashes rules i fe routes clashes (register_all gin s.engine routes)
          (record s { own_engines = tried.0 }) in
      if refused_alone gin routes
      then s
      else if tried.1
      then record s { own_engines = tried.0 }
      else next

  -- one round; positions from `count` on are the shadowed entries
  pub admit : RouteRules → ℕ → State → ℕ × FlatEndpoint → State
  admit rules count s (i, fe) =
      if s.capped
      then s
      else if leb count i
      then admit_shadowed rules fe s
      else if nat_eq s.refusals max_route_refusals
      then record s { capped = true }
      else admit_entry rules i fe s

  pub admit_all : RouteRules → ℕ → State → List (ℕ × FlatEndpoint) → State
  admit_all rules count s [] = s
  admit_all rules count s (item ∷ items) = admit_all rules count (admit rules count s item) items

  unfoldable pub route_losers : List FlatEndpoint → List FlatEndpoint → RouteRules → State
  unfolding admit_all
  route_losers flat shadowed rules =
      admit_all rules (length flat) start (serving_order (flat ++ shadowed))
