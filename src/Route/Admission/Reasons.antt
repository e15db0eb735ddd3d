-- ===== src/Route/Admission/Reasons.antt =====
-- The conflicts of a recorded loss.
use kraken_d_operator.Base.{
  ℕ, Bool, true, false, some, List, [], ◌∷◌, ◌++◌, ◌≡◌, ◌≢◌, inl, inr, arith, All, Bool-cases,
  nat_eq, length,
}
use kraken_d_operator.Base.Maps.{nat_key, lookup, insert}
use kraken_d_operator.Route.Entries.{FlatEndpoint, EntryConflict, serving_order}
use kraken_d_operator.Route.Gin.{GinRoute, Gin, RouteRules}
use kraken_d_operator.Route.Clashes.{RouterClash, with_clashes, pairwise_clashes}
use kraken_d_operator.Route.Admission.Rule.{checked_at, admit_all_rule}
use kraken_d_operator.Route.Admission.{
  State, start, admit_shadowed, record_losses, serve_entry, refuse_entry, by_clashes, route_losers,
}

abbrev HaveReasons : List (ℕ × List EntryConflict) → Type 0
HaveReasons = All (λ l. l.1 ≢ [])

insert-HaveReasons :
    (i : ℕ) (c : List EntryConflict) (losers : List (ℕ × List EntryConflict))
    → c ≢ []
    → HaveReasons losers
    → HaveReasons (insert i c losers)
insert-HaveReasons i c [] some_c h = (some_c, tt)
insert-HaveReasons i c ((j, d) ∷ losers) some_c (p, h) = elim (Bool-cases (nat_eq j i)) [
  | inl same ↦ rw same (some_c, h)
  | inr other ↦ rw other (p, insert-HaveReasons i c losers some_c h)
]

lookup-HaveReasons :
    (i : ℕ) (c : List EntryConflict) (losers : List (ℕ × List EntryConflict))
    → HaveReasons losers
    → lookup i losers ≡ some c
    → c ≢ []
lookup-HaveReasons i c [] h e = ground arith
lookup-HaveReasons i c ((j, d) ∷ losers) (p, h) e = elim (Bool-cases (nat_eq j i)) [
  | inl same ↦ let it : d ≡ c = ground (arith, (rw same at e)) in rw (← it) p
  | inr other ↦ lookup-HaveReasons i c losers h (rw other at e)
]

module _ (gin : Gin) where
  record_losses-HaveReasons :
      (i : ℕ) (fe : FlatEndpoint) (clashes : List RouterClash) (s : State gin)
      → HaveReasons s.losers
      → HaveReasons (record_losses gin i fe clashes s)
  unfolding record_losses
  record_losses-HaveReasons i fe [] s h = h
  record_losses-HaveReasons i fe (c ∷ clashes) s h =
      insert-HaveReasons i _ s.losers (λ e. ground arith) h

  by_clashes-HaveReasons :
      (rules : RouteRules) (i : ℕ) (fe : FlatEndpoint) (routes : List GinRoute)
      (clashes : List RouterClash) (registered : gin.Engine × Bool) (s : State gin)
      → HaveReasons s.losers
      → HaveReasons (by_clashes gin rules i fe routes clashes registered s).losers
  unfolding by_clashes serve_entry refuse_entry
  by_clashes-HaveReasons rules i fe routes [] (e, true) s h = h
  by_clashes-HaveReasons rules i fe routes [] (e, false) s h =
      record_losses-HaveReasons i fe
        (with_clashes [] (pairwise_clashes gin s.served fe.source routes)) _ h
  by_clashes-HaveReasons rules i fe routes (c ∷ clashes) registered s h =
      record_losses-HaveReasons i fe
        (with_clashes (c ∷ clashes) (pairwise_clashes gin s.served fe.source routes)) s h

  admit_shadowed-HaveReasons :
      (rules : RouteRules) (fe : FlatEndpoint) (s : State gin)
      → HaveReasons s.losers
      → HaveReasons (admit_shadowed gin rules fe s).losers
  unfolding admit_shadowed
  admit_shadowed-HaveReasons rules fe s h = ground (arith, h)

  -- no entry is recorded as a loser without a conflict
  pub losers_have_reasons :
      (flat shadowed : List FlatEndpoint) (rules : RouteRules) (i : ℕ) (c : List EntryConflict)
      → lookup i (route_losers gin flat shadowed rules).losers ≡ some c
      → c ≢ []
  unfolding route_losers
  losers_have_reasons flat shadowed rules i c = lookup-HaveReasons i c _ (
      admit_all_rule gin rules (length flat) (λ s. HaveReasons s.losers)
        (λ fe s h. admit_shadowed-HaveReasons rules fe s h)
        (λ i fe s h e. by_clashes-HaveReasons rules i fe _ _ _ (checked_at gin rules s fe) h)
        (λ s e h. h) (λ s h. h) (start gin) (serving_order (flat ++ shadowed)) tt)
