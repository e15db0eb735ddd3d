-- ===== src/Route/Admission/Justified.antt =====
-- What justifies a recorded conflict: an older entry of another KrakenDEndpoint that clashes.
use mathlib.Core.List.{append-nil, append_assoc}
use kraken_d_operator.Base.{
  ℕ, Bool, true, false, ◌&&◌, not, List, [], ◌∷◌, ◌++◌, ◌≡◌, ◌≢◌, ◌⊎◌, inl, inr, refl, All, Any,
  All-map, Any-append_left, Any-append_right, if◌then◌else◌,
}
use kraken_d_operator.Base.Maps.{nat_key}
use kraken_d_operator.Base.Texts.{Text}
use kraken_d_operator.Route.Entries.{NamespacedName, FlatEndpoint, EntryConflict}
use kraken_d_operator.Route.Gin.{GinRoute, Gin, RouteRules, entry_routes, registered_path, contains}
use kraken_d_operator.Route.Clashes.{RoutedRoute, RoutedEntry, routed_by}
use kraken_d_operator.Route.Clashes.Sound.{Overlaps, IsRefusedNextTo}
use kraken_d_operator.Route.Admission.{State, pair_of, routed_entry}

abbrev pub Item : Type 0
Item = ℕ × FlatEndpoint

optional-subset :
    (auto there : Bool) (first options : GinRoute)
    → All
        (λ r. Any (λ x. x ≡ r) (first ∷ (if auto && not false then options ∷ [] else [])))
        (first ∷ (if auto && not there then options ∷ [] else []))
optional-subset false there first options = (inl refl, tt)
optional-subset true true first options = (inl refl, tt)
optional-subset true false first options = (inl refl, (inr (inl refl), tt))

-- the routes of an entry when some OPTIONS routes are there already are among all its routes
pub entry_routes-subset :
    (m p : Text) (rules : RouteRules) (options : List Text)
    → All (λ r. Any (λ x. x ≡ r) (entry_routes m p rules [])) (entry_routes m p rules options)
unfolding entry_routes
entry_routes-subset m p rules options =
    optional-subset rules.auto_options (contains options (registered_path rules p)) _ _

module _ (gin : Gin) (rules : RouteRules) where
  -- Two entries that the router cannot serve together: by the EE wildcard rule on an EE render,
  -- or because gin refuses a route of the one next to a route of the other.
  pub data Clash (o fe : FlatEndpoint) : Type 0 where
    by_wildcard :
        rules.ee_wildcards ≡ true → Overlaps (routed_entry fe) (routed_entry o) → Clash o fe
    by_route : Any (λ a. IsRefusedNextTo gin a (pair_of rules fe)) (pair_of rules o) → Clash o fe

  abbrev pub LostTo : List Item → FlatEndpoint → NamespacedName → Type 0
  LostTo older fe winner =
      (winner ≢ fe.source) × Any (λ o. (o.1.source ≡ winner) × Clash o.1 fe) older

  -- A conflict that names the entry and an older clashing entry's KrakenDEndpoint.
  abbrev pub IsJustified : List Item → FlatEndpoint → EntryConflict → Type 0
  IsJustified older fe c =
      (c.endpoint ≡ fe.entry.endpoint) × (c.method ≡ fe.entry.method) × LostTo older fe c.winner

  -- Position `i` stands among the items, and its conflicts are justified by the items before it.
  abbrev pub Placed : List Item → List Item → ℕ → List EntryConflict → Type 0
  Placed older [] i cs = ⊥
  Placed older ((j, fe) ∷ items) i cs =
      ((j ≡ i) × All (IsJustified older fe) cs) ⊎ Placed (older ++ (j, fe) ∷ []) items i cs

  abbrev pub IsRouteOf : List Item → RoutedRoute → Type 0
  IsRouteOf seen r =
      Any (λ o. (o.1.source ≡ r.source) × Any (λ a. a ≡ r.route) (pair_of rules o.1)) seen

  -- What the loop's lists hold once it has seen `seen`.
  pub record Sounds (seen : List Item) (ls : List (ℕ × List EntryConflict))
      (ss ds : List RoutedRoute) (os : List RoutedEntry) : Type 0 where
    pub losers : All (λ l. Placed [] seen l.0 l.1) ls
    pub served : All (IsRouteOf seen) ss
    pub dropped : All (IsRouteOf seen) ds
    pub older : All (λ e. Any (λ o. routed_entry o.1 ≡ e) seen) os

  abbrev pub Sound : List Item → State gin → Type 0
  Sound seen s = Sounds seen s.losers s.served s.dropped s.older

  pub Placed-append :
      (older items more : List Item) (i : ℕ) (cs : List EntryConflict)
      → Placed older items i cs
      → Placed older (items ++ more) i cs
  Placed-append older [] more i cs h = absurd h
  Placed-append older (x ∷ items) more i cs (inl h) = inl h
  Placed-append older (x ∷ items) more i cs (inr h) =
      inr (Placed-append (older ++ x ∷ []) items more i cs h)

  pub Placed-last :
      (older items : List Item) (i : ℕ) (fe : FlatEndpoint) (cs : List EntryConflict)
      → All (IsJustified (older ++ items) fe) cs
      → Placed older (items ++ (i, fe) ∷ []) i cs
  Placed-last older [] i fe cs h = inl (refl, rw (← append-nil older) h)
  Placed-last older (x ∷ items) i fe cs h =
      inr (Placed-last (older ++ x ∷ []) items i fe cs (rw append_assoc h))

  pub Sound-append :
      (seen : List Item) (item : Item) (s : State gin) → Sound seen s → Sound (seen ++ item ∷ []) s
  Sound-append seen item s h = record {
    losers = All-map _ _ s.losers (λ l p. Placed-append [] seen (item ∷ []) l.0 l.1 p) h.losers;
    served = All-map _ _ s.served (λ r p. Any-append_left _ seen (item ∷ []) p) h.served;
    dropped = All-map _ _ s.dropped (λ r p. Any-append_left _ seen (item ∷ []) p) h.dropped;
    older = All-map _ _ s.older (λ r p. Any-append_left _ seen (item ∷ []) p) h.older;
  }

  -- The routes of the last item are routes of an item.
  pub routed_by-IsRouteOf :
      (seen : List Item) (i : ℕ) (fe : FlatEndpoint) (routes : List GinRoute)
      → All (λ r. Any (λ x. x ≡ r) (pair_of rules fe)) routes
      → All (IsRouteOf (seen ++ (i, fe) ∷ [])) (routed_by fe.source routes)
  routed_by-IsRouteOf seen i fe [] h = tt
  routed_by-IsRouteOf seen i fe (r ∷ routes) (p, h) = (
    Any-append_right _ seen ((i, fe) ∷ []) (inl (refl, p)),
    routed_by-IsRouteOf seen i fe routes h,
  )
