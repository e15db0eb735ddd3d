-- ===== src/Route/Admission/Served.antt =====
-- The routes of the served entries, in one router.
use kraken_d_operator.Base.{
  ℕ, Bool, true, false, List, [], ◌∷◌, ◌++◌, ◌≡◌, refl, ◌∙◌, ap, length, arith, sym,
}
use kraken_d_operator.Route.Entries.{NamespacedName, FlatEndpoint, serving_order}
use kraken_d_operator.Route.Gin.{GinRoute, Gin, RouteRules, engine_with, register_all}
use kraken_d_operator.Route.Gin.Registering.{register_all-append, engine_with-register_all}
use kraken_d_operator.Route.Clashes.{RoutedRoute, RouterClash, routes_of, routed_by}
use kraken_d_operator.Route.Admission.Rule.{routes_at, checked_at, admit_all_rule}
use kraken_d_operator.Route.Admission.{
  State, start, admit_shadowed, serve_entry, refuse_entry, by_clashes, route_losers,
}

routes_of-append : (xs ys : List RoutedRoute) → routes_of (xs ++ ys) ≡ routes_of xs ++ routes_of ys
routes_of-append [] ys = refl
routes_of-append (x ∷ xs) ys = rw (routes_of-append xs ys)

routes_of-routed_by :
    (n : NamespacedName) (routes : List GinRoute) → routes_of (routed_by n routes) ≡ routes
routes_of-routed_by n [] = refl
routes_of-routed_by n (r ∷ routes) = rw (routes_of-routed_by n routes)

module _ (gin : Gin) where
  -- The engine is the one in which gin accepted the served routes, one after the other.
  abbrev pub Holds : State gin → Type 0
  Holds s = register_all gin gin.new (routes_of s.served) ≡ (s.engine, true)

  by_clashes-Holds :
      (rules : RouteRules) (i : ℕ) (fe : FlatEndpoint) (routes : List GinRoute)
      (clashes : List RouterClash) (registered : gin.Engine × Bool) (s : State gin)
      → registered ≡ register_all gin s.engine routes
      → Holds s
      → Holds (by_clashes gin rules i fe routes clashes registered s)
  unfolding by_clashes serve_entry refuse_entry engine_with
  by_clashes-Holds rules i fe routes [] (e, true) s r h =
      rw (routes_of-append s.served (routed_by fe.source routes), routes_of-routed_by)
        (register_all-append gin gin.new s.engine (routes_of s.served) routes h ∙ sym r)
  by_clashes-Holds rules i fe routes [] (e, false) s r h =
      h
      ∙ ap (λ x. (x, true))
          (sym (engine_with-register_all gin gin.new s.engine (routes_of s.served) h))
  by_clashes-Holds rules i fe routes (c ∷ clashes) registered s r h = h

  admit_shadowed-Holds :
      (rules : RouteRules) (fe : FlatEndpoint) (s : State gin)
      → Holds s
      → Holds (admit_shadowed gin rules fe s)
  unfolding admit_shadowed
  admit_shadowed-Holds rules fe s h = ground (arith, h)

  -- In the order in which they were served, gin accepts the routes of all served entries in one
  -- engine, and it is the engine that the resolution ends with.
  pub route_losers-Holds :
      (flat shadowed : List FlatEndpoint) (rules : RouteRules)
      → Holds (route_losers gin flat shadowed rules)
  unfolding route_losers register_all
  route_losers-Holds flat shadowed rules =
      admit_all_rule gin rules (length flat) Holds (λ fe s h. admit_shadowed-Holds rules fe s h)
        (λ i fe s h e.
          by_clashes-Holds rules i fe (routes_at gin rules s fe) _ _ (checked_at gin rules s fe)
            refl h)
        (λ s e h. h) (λ s h. h) (start gin) (serving_order (flat ++ shadowed)) refl
