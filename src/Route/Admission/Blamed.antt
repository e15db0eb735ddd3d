-- ===== src/Route/Admission/Blamed.antt =====
-- The loop of `routeLosers` and the account of Justified.
use kraken_d_operator.Base.{
  ℕ, Bool, true, false, List, [], ◌∷◌, ◌++◌, ◌≡◌, inl, inr, refl, ◌∙◌, ap, All, Any, map,
  All-append, All-self, All-map, All-at, Any-map, Any-elim, Any-of_mem, Any-of_subset,
  Any-append_right, Bool-cases, if◌then◌else◌, length, nat_eq,
}
use mathlib.Core.List.{append-nil, append_assoc}
use kraken_d_operator.Base.Maps.{nat_key, insert}
use kraken_d_operator.Route.Entries.{FlatEndpoint, EntryConflict, serving_order}
use kraken_d_operator.Route.Gin.{GinRoute, Gin, RouteRules, refused_alone}
use kraken_d_operator.Route.Clashes.{
  RoutedRoute, RoutedEntry, RouterClash, routed_by, ee_wildcard_overlaps, older_clashes,
}
use kraken_d_operator.Route.Clashes.Sound.{
  with_clashes-All, IsOverlapIn, ee_wildcard_overlaps-All, IsRefusedNextTo, IsClashIn,
  pairwise_clashes-All,
}
use kraken_d_operator.Route.Admission.{
  State, start, admit_shadowed, serve_entry, refuse_entry, record_losses, by_clashes, admit_all,
  admit, admit_entry, route_losers, pair_of, routed_entry, conflict_of,
}
use kraken_d_operator.Route.Admission.Rule.{
  routes_at, clashes_at, checked_at, admit_cases, admit_entry_cases,
}
use kraken_d_operator.Route.Admission.Justified.{
  Item, by_wildcard, by_route, LostTo, IsJustified, Placed, IsRouteOf, Sound, Placed-last,
  Sound-append, routed_by-IsRouteOf, entry_routes-subset,
}

All-insert :
    (P : ℕ × List EntryConflict → Type 0) (i : ℕ) (v : List EntryConflict)
    (m : List (ℕ × List EntryConflict))
    → P (i, v)
    → All P m
    → All P (insert i v m)
All-insert P i v [] p h = (p, tt)
All-insert P i v ((j, w) ∷ m) p (q, h) = elim (Bool-cases (nat_eq j i)) [
  | inl same ↦ rw same (p, h)
  | inr other ↦ rw other (q, All-insert P i v m p h)
]

module _ (gin : Gin) (rules : RouteRules) where
  -- clashes with the routes that the loop holds are clashes with entries it has seen
  clash-LostTo :
      (seen : List Item) (against : List RoutedRoute) (fe : FlatEndpoint) (routes : List GinRoute)
      (clashes : List RouterClash)
      → All (λ r. Any (λ x. x ≡ r) (pair_of rules fe)) routes
      → All (IsRouteOf gin rules seen) against
      → All (IsClashIn gin against fe.source routes) clashes
      → All (λ c. LostTo gin rules seen fe c.winner) clashes
  clash-LostTo seen against fe routes clashes subset h k =
      All-map _ _ clashes
        (λ c j. (
          j.0,
          Any-elim _ _ against
              (λ a p.
                Any-map _ _ seen
                  (λ o q. (
                    q.0 ∙ p.1.0,
                    by_route (
                        Any-of_mem (λ x. IsRefusedNextTo gin x (pair_of rules fe))
                          (pair_of rules o.1) a.route q.1
                          (Any-of_subset _ routes (pair_of rules fe) subset p.1.1)),
                  ))
                  p.0)
              (All-at _ _ against h j.1),
        ))
        k

  overlap-LostTo :
      (seen : List Item) (older : List RoutedEntry) (fe : FlatEndpoint) (clashes : List RouterClash)
      → rules.ee_wildcards ≡ true
      → All (λ e. Any (λ o. routed_entry o.1 ≡ e) seen) older
      → All (IsOverlapIn older (routed_entry fe)) clashes
      → All (λ c. LostTo gin rules seen fe c.winner) clashes
  overlap-LostTo seen older fe clashes on h k =
      All-map _ _ clashes
        (λ c j.
          Any-elim _ _ older
            (λ e p. (
              (λ same. p.1.1.other (p.1.0 ∙ same)),
              Any-map _ _ seen (λ o q. (ap (λ x. x.source) q ∙ p.1.0, by_wildcard on (rw q p.1.1)))
                  p.0,
            ))
            (All-at _ _ older h j))
        k

  record_losses-Placed :
      (seen : List Item) (i : ℕ) (fe : FlatEndpoint) (clashes : List RouterClash) (s : State gin)
      → All (λ c. LostTo gin rules seen fe c.winner) clashes
      → All (λ l. Placed gin rules [] (seen ++ (i, fe) ∷ []) l.0 l.1) s.losers
      → All
          (λ l. Placed gin rules [] (seen ++ (i, fe) ∷ []) l.0 l.1)
          (record_losses gin i fe clashes s)
  unfolding record_losses
  record_losses-Placed seen i fe [] s k h = h
  record_losses-Placed seen i fe (c ∷ clashes) s k h =
      All-insert (λ l. Placed gin rules [] (seen ++ (i, fe) ∷ []) l.0 l.1) i _ s.losers
        (Placed-last gin rules [] seen i fe _ (justified (c ∷ clashes) k)) h
    where
      justified :
          (cs : List RouterClash)
          → All (λ c. LostTo gin rules seen fe c.winner) cs
          → All (IsJustified gin rules seen fe) (map (conflict_of fe) cs)
      justified [] k = tt
      justified (c ∷ cs) (l, k) = ((refl, refl, l), justified cs k)

  routed_entry-seen :
      (seen : List Item) (i : ℕ) (fe : FlatEndpoint) (os : List RoutedEntry)
      → All (λ e. Any (λ o. routed_entry o.1 ≡ e) (seen ++ (i, fe) ∷ [])) os
      → All
          (λ e. Any (λ o. routed_entry o.1 ≡ e) (seen ++ (i, fe) ∷ []))
          (os ++ routed_entry fe ∷ [])
  routed_entry-seen seen i fe os h =
      All-append _ os (routed_entry fe ∷ []) h
        (Any-append_right _ seen ((i, fe) ∷ []) (inl refl), tt)

  pair-seen :
      (seen : List Item) (i : ℕ) (fe : FlatEndpoint) (routes : List GinRoute)
      (ds : List RoutedRoute)
      → All (λ r. Any (λ x. x ≡ r) (pair_of rules fe)) routes
      → All (IsRouteOf gin rules (seen ++ (i, fe) ∷ [])) ds
      → All (IsRouteOf gin rules (seen ++ (i, fe) ∷ [])) (ds ++ routed_by fe.source routes)
  pair-seen seen i fe routes ds subset h =
      All-append _ ds (routed_by fe.source routes) h
        (routed_by-IsRouteOf gin rules seen i fe routes subset)

  serve_entry-Sound :
      (seen : List Item) (i : ℕ) (fe : FlatEndpoint) (routes : List GinRoute) (e : gin.Engine)
      (s : State gin)
      → All (λ r. Any (λ x. x ≡ r) (pair_of rules fe)) routes
      → Sound gin rules seen s
      → Sound gin rules (seen ++ (i, fe) ∷ []) (serve_entry gin fe routes e s)
  unfolding serve_entry
  serve_entry-Sound seen i fe routes e s subset h =
      let w = Sound-append gin rules seen (i, fe) s h in
      record {
        losers = w.losers;
        served = pair-seen seen i fe routes s.served subset w.served;
        dropped = w.dropped;
        older = routed_entry-seen seen i fe s.older w.older;
      }

  refuse_entry-Sound :
      (seen : List Item) (i : ℕ) (fe : FlatEndpoint) (routes : List GinRoute)
      (clashes : List RouterClash) (s : State gin)
      → All (λ r. Any (λ x. x ≡ r) (pair_of rules fe)) routes
      → All (λ c. LostTo gin rules seen fe c.winner) clashes
      → Sound gin rules seen s
      → Sound gin rules (seen ++ (i, fe) ∷ []) (refuse_entry gin rules i fe routes clashes s)
  unfolding refuse_entry
  refuse_entry-Sound seen i fe routes clashes s subset k h =
      let w = Sound-append gin rules seen (i, fe) s h in
      record {
        losers =
            record_losses-Placed seen i fe _ s
              (with_clashes-All _ clashes _ k (
                clash-LostTo seen s.served fe routes _ subset h.served
                  (pairwise_clashes-All gin s.served fe.source routes)))
              w.losers;
        served = w.served;
        dropped =
            pair-seen seen i fe (pair_of rules fe) s.dropped (All-self (pair_of rules fe))
              w.dropped;
        older = routed_entry-seen seen i fe s.older w.older;
      }

  older_clashes-LostTo :
      (seen : List Item) (fe : FlatEndpoint) (s : State gin)
      → Sound gin rules seen s
      → All (λ c. LostTo gin rules seen fe c.winner) (clashes_at gin rules s fe)
  unfolding older_clashes
  older_clashes-LostTo seen fe s h = with_clashes-All _ _ _ (wildcards rules.ee_wildcards refl) (
      clash-LostTo seen s.dropped fe (pair_of rules fe) _ (All-self (pair_of rules fe)) h.dropped
        (pairwise_clashes-All gin s.dropped fe.source (pair_of rules fe)))
    where
      wildcards :
          (b : Bool)
          → rules.ee_wildcards ≡ b
          → All
              (λ c. LostTo gin rules seen fe c.winner)
              (if b then ee_wildcard_overlaps s.older (routed_entry fe) else [])
      wildcards false e = tt
      wildcards true e =
          overlap-LostTo seen s.older fe _ e h.older
            (ee_wildcard_overlaps-All s.older (routed_entry fe))

  by_clashes-Sound :
      (seen : List Item) (i : ℕ) (fe : FlatEndpoint) (routes : List GinRoute)
      (clashes : List RouterClash) (registered : gin.Engine × Bool) (s : State gin)
      → All (λ r. Any (λ x. x ≡ r) (pair_of rules fe)) routes
      → All (λ c. LostTo gin rules seen fe c.winner) clashes
      → Sound gin rules seen s
      → Sound gin rules
          (seen ++ (i, fe) ∷ [])
          (by_clashes gin rules i fe routes clashes registered s)
  unfolding by_clashes
  by_clashes-Sound seen i fe routes [] (e, true) s subset k h =
      serve_entry-Sound seen i fe routes e s subset h
  by_clashes-Sound seen i fe routes [] (e, false) s subset k h =
      refuse_entry-Sound seen i fe routes [] _ subset k h
  by_clashes-Sound seen i fe routes (c ∷ clashes) registered s subset k h =
      refuse_entry-Sound seen i fe routes (c ∷ clashes) s subset k h

  admit_shadowed-Sound :
      (seen : List Item) (i : ℕ) (fe : FlatEndpoint) (s : State gin)
      → Sound gin rules seen s
      → Sound gin rules (seen ++ (i, fe) ∷ []) (admit_shadowed gin rules fe s)
  unfolding admit_shadowed
  admit_shadowed-Sound seen i fe s h =
      let w = Sound-append gin rules seen (i, fe) s h in
      elim (Bool-cases (refused_alone gin (pair_of rules fe))) [
        | inl bad ↦ rw bad w
        | inr good ↦ rw good (record {
          losers = w.losers;
          served = w.served;
          dropped =
              pair-seen seen i fe (pair_of rules fe) s.dropped (All-self (pair_of rules fe))
                w.dropped;
          older = w.older;
        })
      ]

  admit_entry-Sound :
      (seen : List Item) (i : ℕ) (fe : FlatEndpoint) (s : State gin)
      → Sound gin rules seen s
      → Sound gin rules (seen ++ (i, fe) ∷ []) (admit_entry gin rules i fe s)
  admit_entry-Sound seen i fe s h = elim (admit_entry_cases gin rules i fe s) [
    | inl same ↦ rw same (Sound-append gin rules seen (i, fe) s h)
    | inr (inl tried) ↦ rw tried (Sound-append gin rules seen (i, fe) s h)
    | inr (inr passed) ↦ rw passed (
        by_clashes-Sound seen i fe (routes_at gin rules s fe) _ _ (checked_at gin rules s fe)
          (entry_routes-subset _ _ rules s.options) (older_clashes-LostTo seen fe s h) h)
  ]

  admit-Sound :
      (count : ℕ) (seen : List Item) (item : Item) (s : State gin)
      → Sound gin rules seen s
      → Sound gin rules (seen ++ item ∷ []) (admit gin rules count s item)
  admit-Sound count seen (i, fe) s h = elim (admit_cases gin rules count i fe s) [
    | inl same ↦ rw same (Sound-append gin rules seen (i, fe) s h)
    | inr (inl lost) ↦ rw lost (admit_shadowed-Sound seen i fe s h)
    | inr (inr (inl over)) ↦ rw over (Sound-append gin rules seen (i, fe) s h)
    | inr (inr (inr (room, entry))) ↦ rw entry (admit_entry-Sound seen i fe s h)
  ]

  admit_all-Sound :
      (count : ℕ) (seen items : List Item) (s : State gin)
      → Sound gin rules seen s
      → Sound gin rules (seen ++ items) (admit_all gin rules count s items)
  unfolding admit_all
  admit_all-Sound count seen [] s h = rw append-nil h
  admit_all-Sound count seen (item ∷ items) s h =
      let k =
        admit_all-Sound count (seen ++ item ∷ []) items (admit gin rules count s item)
          (admit-Sound count seen item s h) in
      rw append_assoc at k

-- Each recorded loss is at the position of an entry that was resolved, and every conflict that it
-- records names that entry's endpoint and method and a winner: another KrakenDEndpoint with an
-- entry earlier in serving order that this entry cannot be served with, under the EE wildcard
-- rule of an EE render or because gin refuses a route of the one next to a route of the other.
pub route_losers-Blamed :
    (gin : Gin) (flat shadowed : List FlatEndpoint) (rules : RouteRules)
    → All
        (λ l. Placed gin rules [] (serving_order (flat ++ shadowed)) l.0 l.1)
        (route_losers gin flat shadowed rules).losers
unfolding route_losers
route_losers-Blamed gin flat shadowed rules =
    let h =
      admit_all-Sound gin rules (length flat) [] (serving_order (flat ++ shadowed)) (start gin)
        (record { losers = tt; served = tt; dropped = tt; older = tt }) in
    h.losers
