-- ===== src/Route/Admission/Rule.antt =====
-- One rule for the properties that each round of the loop keeps.
use kraken_d_operator.Base.{ℕ, true, false, List, [], ◌∷◌, ◌≡◌, ◌⊎◌, inl, inr, nat_eq, arith}
use kraken_d_operator.Route.Entries.{NamespacedName, FlatEndpoint, entry_method}
use kraken_d_operator.Route.Gin.{GinRoute, Gin, RouteRules, entry_routes, register_all}
use kraken_d_operator.Route.Clashes.{RouterClash, older_clashes}
use kraken_d_operator.Route.Admission.{
  max_route_refusals, State, admit_shadowed, refused_by_own, by_clashes, admit_entry, admit,
  admit_all, pair_of, routed_entry,
}

module _ (gin : Gin) (rules : RouteRules) where
  -- the routes of an entry when the loop reaches it in `s`
  abbrev pub routes_at : State gin → FlatEndpoint → List GinRoute
  routes_at s fe = entry_routes (entry_method fe.entry.method) fe.entry.endpoint rules s.options

  abbrev pub clashes_at : State gin → FlatEndpoint → List RouterClash
  clashes_at s fe = older_clashes gin rules s.older s.dropped (routed_entry fe) (pair_of rules fe)

  -- the state behind the entry's own checks, if it passes them
  abbrev pub checked_at : State gin → FlatEndpoint → State gin
  checked_at s fe = record s {
    own_engines = (refused_by_own gin s.own_engines s.own fe.source (routes_at s fe)).0;
  }

  -- the round of an entry that passes its own checks
  abbrev pub judged_at : ℕ → State gin → FlatEndpoint → State gin
  judged_at i s fe =
      by_clashes gin rules i fe (routes_at s fe) (clashes_at s fe)
        (register_all gin s.engine (routes_at s fe)) (checked_at s fe)

  pub admit_entry_cases :
      (i : ℕ) (fe : FlatEndpoint) (s : State gin)
      → (admit_entry gin rules i fe s ≡ s)
        ⊎ ((admit_entry gin rules i fe s ≡ checked_at s fe)
            ⊎ (admit_entry gin rules i fe s ≡ judged_at i s fe))
  unfolding admit_entry
  admit_entry_cases i fe s = ground arith

  pub admit_cases :
      (count i : ℕ) (fe : FlatEndpoint) (s : State gin)
      → (admit gin rules count s (i, fe) ≡ s)
        ⊎ ((admit gin rules count s (i, fe) ≡ admit_shadowed gin rules fe s)
            ⊎ ((admit gin rules count s (i, fe) ≡ record s { capped = true })
                ⊎ ((nat_eq s.refusals max_route_refusals ≡ false)
                    × (admit gin rules count s (i, fe) ≡ admit_entry gin rules i fe s))))
  unfolding admit
  admit_cases count i fe s = ground arith

  module _ (count : ℕ) (P : State gin → Type 0)
      (shadowed : (fe : FlatEndpoint) (s : State gin) → P s → P (admit_shadowed gin rules fe s))
      (judged : (i : ℕ) (fe : FlatEndpoint) (s : State gin)
        → P s
        → nat_eq s.refusals max_route_refusals ≡ false
        → P (judged_at i s fe))
      (engines : (s : State gin) (e : List (NamespacedName × gin.Engine))
        → P s
        → P (record s { own_engines = e }))
      (stopped : (s : State gin) → P s → P (record s { capped = true })) where
    admit_entry_rule :
        (i : ℕ) (fe : FlatEndpoint) (s : State gin)
        → P s
        → nat_eq s.refusals max_route_refusals ≡ false
        → P (admit_entry gin rules i fe s)
    admit_entry_rule i fe s h room = elim (admit_entry_cases i fe s) [
      | inl same ↦ rw same h
      | inr (inl tried) ↦ rw tried (engines s _ h)
      | inr (inr passed) ↦ rw passed (judged i fe s h room)
    ]

    admit_rule : (s : State gin) (item : ℕ × FlatEndpoint) → P s → P (admit gin rules count s item)
    admit_rule s (i, fe) h = elim (admit_cases count i fe s) [
      | inl same ↦ rw same h
      | inr (inl lost) ↦ rw lost (shadowed fe s h)
      | inr (inr (inl over)) ↦ rw over (stopped s h)
      | inr (inr (inr (room, entry))) ↦ rw entry (admit_entry_rule i fe s h room)
    ]

    pub admit_all_rule :
        (s : State gin) (items : List (ℕ × FlatEndpoint))
        → P s
        → P (admit_all gin rules count s items)
    unfolding admit_all
    admit_all_rule s [] h = h
    admit_all_rule s (item ∷ items) h =
        admit_all_rule (admit gin rules count s item) items (admit_rule s item h)
