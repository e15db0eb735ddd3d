-- ===== src/Route/Drop/Reported.antt =====
-- What is reported about the entries that are left out.
use mathlib.Core.Path.{subst}
use kraken_d_operator.Base.{
  ℕ, suc, Option, none, some, Option-cases, Bool-cases, List, [], ◌∷◌, ◌++◌, ◌≡◌, ◌≢◌, inl, inr,
  refl, sym, All, Any, All-map, All-self, Any-append_left, Any-append_right,
}
use kraken_d_operator.Base.Maps.{nat_key, lookup, lookup-insert}
use kraken_d_operator.Route.Entries.{
  NamespacedName, source_eq, source_eq_lem, source_key, FlatEndpoint, EntryConflict,
  conflict_before, positions,
}
use kraken_d_operator.Route.Entries.Order.{sort_by-Any}
use kraken_d_operator.Route.Gin.{Gin, RouteRules}
use kraken_d_operator.Route.Admission.{route_losers}
use kraken_d_operator.Route.Admission.Reasons.{losers_have_reasons}
use kraken_d_operator.Route.Drop.{
  Conflicts, Losers, conflicts_of, report, drop_from, drop_losers, Dropped, drop_route_losers,
}

-- Something holds of a conflict that is reported of `source`.
abbrev pub IsReported : (EntryConflict → Type 0) → NamespacedName → Conflicts → Type 0
IsReported P source conflicted = Any P (conflicts_of source conflicted)

report-IsReported :
    (P : EntryConflict → Type 0) (source winner : NamespacedName) (c : List EntryConflict)
    (conflicted : Conflicts)
    → IsReported P source conflicted
    → IsReported P source (report winner c conflicted)
unfolding report
report-IsReported P source winner c conflicted h = elim (Bool-cases (source_eq winner source)) [
  | inl same ↦
      let e = (source_eq_lem winner source).0 same in
      rw (lookup-insert winner source _ conflicted, same)
        (sort_by-Any conflict_before P (conflicts_of winner conflicted ++ c)
          (Any-append_left P (conflicts_of winner conflicted) c (rw e h)))
  | inr other ↦ rw (lookup-insert winner source _ conflicted, other) h
]

report-new :
    (P : EntryConflict → Type 0) (source : NamespacedName) (c : List EntryConflict)
    (conflicted : Conflicts)
    → Any P c
    → IsReported P source (report source c conflicted)
unfolding report
report-new P source c conflicted h =
    let e = (source_eq_lem source source).1 refl in
    rw (lookup-insert source source _ conflicted, e)
      (sort_by-Any conflict_before P (conflicts_of source conflicted ++ c)
        (Any-append_right P (conflicts_of source conflicted) c h))

drop_from-IsReported :
    (P : EntryConflict → Type 0) (source : NamespacedName) (i : ℕ) (flat : List FlatEndpoint)
    (losers : Losers) (conflicted : Conflicts)
    → IsReported P source conflicted
    → IsReported P source (drop_from i flat losers conflicted).1
unfolding drop_from
drop_from-IsReported P source i [] losers conflicted h = h
drop_from-IsReported P source i (fe ∷ flat) losers conflicted h =
    elim (Option-cases (lookup i losers)) [
      | inl kept ↦
          rw (kept, drop_from) (drop_from-IsReported P source (suc i) flat losers conflicted h)
      | inr (c, lost) ↦
          rw (lost, drop_from)
            (drop_from-IsReported P source (suc i) flat losers (report fe.source c conflicted)
              (report-IsReported P source fe.source c conflicted h))
    ]

-- An entry that is kept, or left out with a conflict that it lost, and with every such conflict
-- reported of its KrakenDEndpoint.
pub IsAccounted :
    FlatEndpoint → Option (List EntryConflict) → List FlatEndpoint → Conflicts → Type 0
IsAccounted fe none kept conflicted = Any (λ x. x ≡ fe) kept
IsAccounted fe (some c) kept conflicted =
    (c ≢ []) × All (λ x. IsReported (λ y. y ≡ x) fe.source conflicted) c

IsAccounted-cons :
    (fe : FlatEndpoint) (lost : Option (List EntryConflict)) (other : FlatEndpoint)
    (kept : List FlatEndpoint) (conflicted : Conflicts)
    → IsAccounted fe lost kept conflicted
    → IsAccounted fe lost (other ∷ kept) conflicted
unfolding IsAccounted
IsAccounted-cons fe none other kept conflicted h = inr h
IsAccounted-cons fe (some c) other kept conflicted h = h

drop_from-none :
    (i : ℕ) (fe : FlatEndpoint) (flat : List FlatEndpoint) (losers : Losers)
    (conflicted : Conflicts)
    → lookup i losers ≡ none
    → drop_from i (fe ∷ flat) losers conflicted ≡ (
      fe ∷ (drop_from (suc i) flat losers conflicted).0,
      (drop_from (suc i) flat losers conflicted).1,
    )
unfolding drop_from
drop_from-none i fe flat losers conflicted e = rw (e, drop_from)

drop_from-some :
    (i : ℕ) (fe : FlatEndpoint) (flat : List FlatEndpoint) (losers : Losers)
    (conflicted : Conflicts) (c : List EntryConflict)
    → lookup i losers ≡ some c
    → drop_from i (fe ∷ flat) losers conflicted
      ≡ drop_from (suc i) flat losers (report fe.source c conflicted)
unfolding drop_from
drop_from-some i fe flat losers conflicted c e = rw (e, drop_from)

-- Every entry from position `i` on is accounted for.
abbrev pub AllAccounted : ℕ → List FlatEndpoint → Losers → List FlatEndpoint × Conflicts → Type 0
AllAccounted i flat losers out =
    All (λ p. IsAccounted p.1 (lookup p.0 losers) out.0 out.1) (positions i flat)

drop_from-IsAccounted :
    (i : ℕ) (flat : List FlatEndpoint) (losers : Losers) (conflicted : Conflicts)
    → ((j : ℕ) (c : List EntryConflict) → lookup j losers ≡ some c → c ≢ [])
    → AllAccounted i flat losers (drop_from i flat losers conflicted)
unfolding IsAccounted
drop_from-IsAccounted i [] losers conflicted r = tt
drop_from-IsAccounted i (fe ∷ flat) losers conflicted r = elim (Option-cases (lookup i losers)) [
  | inl kept ↦
      subst (AllAccounted i (fe ∷ flat) losers)
        (sym (drop_from-none i fe flat losers conflicted kept))
        (
          rw kept (inl refl),
          All-map _ _ (positions (suc i) flat)
              (λ p h. IsAccounted-cons p.1 (lookup p.0 losers) fe _ _ h)
              (drop_from-IsAccounted (suc i) flat losers conflicted r),
        )
  | inr (c, lost) ↦
      subst (AllAccounted i (fe ∷ flat) losers)
        (sym (drop_from-some i fe flat losers conflicted c lost))
        (
          rw lost (
            r i c lost,
            All-map _ _ c
                (λ x m.
                  drop_from-IsReported (λ y. y ≡ x) fe.source (suc i) flat losers _
                    (report-new (λ y. y ≡ x) fe.source c conflicted m))
                (All-self c),
          ),
          drop_from-IsAccounted (suc i) flat losers (report fe.source c conflicted) r,
        )
]

drop_losers-IsAccounted :
    (flat : List FlatEndpoint) (losers : Losers) (conflicted : Conflicts)
    → ((j : ℕ) (c : List EntryConflict) → lookup j losers ≡ some c → c ≢ [])
    → AllAccounted 0 flat losers (drop_losers flat losers conflicted)
unfolding IsAccounted
drop_losers-IsAccounted flat [] conflicted r =
    All-map _ _ (positions 0 flat) (λ p h. h) (kept 0 flat)
  where
    kept :
        (i : ℕ) (flat : List FlatEndpoint) → All (λ p. Any (λ x. x ≡ p.1) flat) (positions i flat)
    kept i [] = tt
    kept i (fe ∷ flat) =
        (inl refl, All-map _ _ (positions (suc i) flat) (λ p h. inr h) (kept (suc i) flat))
drop_losers-IsAccounted flat (l ∷ losers) conflicted r =
    drop_from-IsAccounted 0 flat (l ∷ losers) conflicted r

drop_losers-IsReported :
    (P : EntryConflict → Type 0) (source : NamespacedName) (flat : List FlatEndpoint)
    (losers : Losers) (conflicted : Conflicts)
    → IsReported P source conflicted
    → IsReported P source (drop_losers flat losers conflicted).1
drop_losers-IsReported P source flat [] conflicted h = h
drop_losers-IsReported P source flat (l ∷ losers) conflicted h =
    drop_from-IsReported P source 0 flat (l ∷ losers) conflicted h

module _ (gin : Gin) (flat shadowed : List FlatEndpoint) (conflicted : Conflicts)
    (rules : RouteRules) where
  abbrev outcome : Dropped
  outcome = drop_route_losers gin flat shadowed conflicted rules

  -- No entry disappears silently: every entry, by its position, is kept, or is recorded as a loser
  -- with at least one conflict, and each conflict of that record is among the conflicts of its
  -- KrakenDEndpoint afterwards. The conflicts that any KrakenDEndpoint had before stay.
  pub drop_route_losers-IsAccounted :
      (source : NamespacedName)
      → AllAccounted 0 flat
          (route_losers gin flat shadowed rules).losers
          (outcome.kept, outcome.conflicted)
        × All
            (λ c. IsReported (λ x. x ≡ c) source outcome.conflicted)
            (conflicts_of source conflicted)
  unfolding drop_route_losers
  drop_route_losers-IsAccounted source =
      let losers = (route_losers gin flat shadowed rules).losers in
      (
        drop_losers-IsAccounted flat losers conflicted
            (λ j c e. losers_have_reasons gin flat shadowed rules j c e),
        All-map _ _ (conflicts_of source conflicted)
            (λ c m. drop_losers-IsReported (λ x. x ≡ c) source flat losers conflicted m)
            (All-self (conflicts_of source conflicted)),
      )
