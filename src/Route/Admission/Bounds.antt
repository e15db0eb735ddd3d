-- ===== src/Route/Admission/Bounds.antt =====
-- How many entries the resolution refuses and records as losers.
use kraken_d_operator.Base.{
  ℕ, ◌+◌, ◌≤◌, Bool, true, false, List, [], ◌∷◌, ◌++◌, ◌≡◌, length, arith, nat_eq,
}
use kraken_d_operator.Base.Maps.{nat_key, insert}
use kraken_d_operator.Route.Entries.{FlatEndpoint, EntryConflict, serving_order}
use kraken_d_operator.Route.Gin.{GinRoute, Gin, RouteRules}
use kraken_d_operator.Route.Clashes.{RouterClash, with_clashes, pairwise_clashes}
use kraken_d_operator.Route.Admission.Rule.{checked_at, admit_all_rule}
use kraken_d_operator.Route.Admission.{
  max_route_refusals, State, start, admit_shadowed, record_losses, serve_entry, refuse_entry,
  by_clashes, route_losers,
}

length-insert :
    (i : ℕ) (v : List EntryConflict) (m : List (ℕ × List EntryConflict))
    → length (insert i v m) ≤ length m + 1
length-insert i v [] = omega arith
length-insert i v ((j, w) ∷ m) = ground (arith, length-insert i v m)

module _ (gin : Gin) where
  -- At most as many losers as refusals, and at most the cap of refusals.
  abbrev pub IsBounded : State gin → Type 0
  IsBounded s = (length s.losers ≤ s.refusals) × (s.refusals ≤ max_route_refusals)

  length-record_losses :
      (i : ℕ) (fe : FlatEndpoint) (clashes : List RouterClash) (s : State gin)
      → length (record_losses gin i fe clashes s) ≤ length s.losers + 1
  unfolding record_losses
  length-record_losses i fe [] s = omega arith
  length-record_losses i fe (c ∷ clashes) s = length-insert i _ s.losers

  by_clashes-IsBounded :
      (rules : RouteRules) (i : ℕ) (fe : FlatEndpoint) (routes : List GinRoute)
      (clashes : List RouterClash) (registered : gin.Engine × Bool) (s : State gin)
      → IsBounded s
      → nat_eq s.refusals max_route_refusals ≡ false
      → IsBounded (by_clashes gin rules i fe routes clashes registered s)
  unfolding by_clashes serve_entry refuse_entry
  by_clashes-IsBounded rules i fe routes [] (e, true) s h room = h
  by_clashes-IsBounded rules i fe routes [] (e, false) s h room = ground (
    arith,
    length-record_losses i fe (with_clashes [] (pairwise_clashes gin s.served fe.source routes)) s,
  )
  by_clashes-IsBounded rules i fe routes (c ∷ clashes) registered s h room = ground (
    arith,
    length-record_losses i fe
        (with_clashes (c ∷ clashes) (pairwise_clashes gin s.served fe.source routes)) s,
  )

  admit_shadowed-IsBounded :
      (rules : RouteRules) (fe : FlatEndpoint) (s : State gin)
      → IsBounded s
      → IsBounded (admit_shadowed gin rules fe s)
  unfolding admit_shadowed
  admit_shadowed-IsBounded rules fe s h = ground (arith, h)

  -- Whatever the entries, no more of them are recorded as losers than were refused, and at most 21
  -- are refused.
  pub route_losers-IsBounded :
      (flat shadowed : List FlatEndpoint) (rules : RouteRules)
      → IsBounded (route_losers gin flat shadowed rules)
  unfolding route_losers
  route_losers-IsBounded flat shadowed rules =
      admit_all_rule gin rules (length flat) IsBounded
        (λ fe s h. admit_shadowed-IsBounded rules fe s h)
        (λ i fe s h e. by_clashes-IsBounded rules i fe _ _ _ (checked_at gin rules s fe) h e)
        (λ s e h. h) (λ s h. h) (start gin) (serving_order (flat ++ shadowed)) (omega arith)
