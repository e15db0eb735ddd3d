-- ===== src/Route/Drop/Counted.antt =====
-- How many entries `dropRouteLosers` leaves out.
use kraken_d_operator.Base.{
  ℕ, suc, ◌+◌, ◌≤◌, none, some, Option-cases, List, [], ◌∷◌, ◌≡◌, inl, inr, refl, length, arith,
}
use kraken_d_operator.Base.Maps.{nat_key, lookup}
use kraken_d_operator.Route.Entries.{source_key, FlatEndpoint, EntryConflict}
use kraken_d_operator.Route.Gin.{Gin, RouteRules}
use kraken_d_operator.Route.Admission.{max_route_refusals, route_losers}
use kraken_d_operator.Route.Admission.Bounds.{route_losers-IsBounded}
use kraken_d_operator.Route.Drop.{
  Conflicts, Losers, report, drop_from, drop_losers, Dropped, drop_route_losers,
}

-- how many of the positions from `i` on are lost
lost_count : ℕ → List FlatEndpoint → Losers → ℕ
lost_count i [] losers = 0
lost_count i (fe ∷ flat) losers =
    let rest = lost_count (suc i) flat losers in
    elim (lookup i losers) [ none ↦ rest | some c ↦ suc rest ]

-- a map entry for a position that is passed makes no difference
lost_count-skip :
    (i j : ℕ) (c : List EntryConflict) (flat : List FlatEndpoint) (losers : Losers)
    → suc j ≤ i
    → lost_count i flat ((j, c) ∷ losers) ≡ lost_count i flat losers
unfolding lost_count
lost_count-skip i j c [] losers h = refl
lost_count-skip i j c (fe ∷ flat) losers h =
    ground (arith, lost_count-skip (suc i) j c flat losers (omega (arith, h)), lookup i losers)

lost_count-cons :
    (i j : ℕ) (c : List EntryConflict) (flat : List FlatEndpoint) (losers : Losers)
    → lost_count i flat ((j, c) ∷ losers) ≤ suc (lost_count i flat losers)
unfolding lost_count
lost_count-cons i j c [] losers = omega arith
lost_count-cons i j c (fe ∷ flat) losers = ground (
  arith,
  lost_count-cons (suc i) j c flat losers,
  (λ (h : suc j ≤ suc i). lost_count-skip (suc i) j c flat losers h),
)

lost_count_le :
    (i : ℕ) (flat : List FlatEndpoint) (losers : Losers) → lost_count i flat losers ≤ length losers
unfolding lost_count
lost_count_le i [] losers = omega arith
lost_count_le i (fe ∷ flat) [] = lost_count_le (suc i) flat []
lost_count_le i (fe ∷ flat) ((j, c) ∷ losers) =
    omega (arith, lost_count-cons i j c (fe ∷ flat) losers, lost_count_le i (fe ∷ flat) losers)

length-drop_from :
    (i : ℕ) (flat : List FlatEndpoint) (losers : Losers) (conflicted : Conflicts)
    → length (drop_from i flat losers conflicted).0 + lost_count i flat losers ≡ length flat
unfolding drop_from lost_count
length-drop_from i [] losers conflicted = refl
length-drop_from i (fe ∷ flat) losers conflicted = elim (Option-cases (lookup i losers)) [
  | inl kept ↦
      rw (kept, drop_from, lost_count)
        (omega (arith, length-drop_from (suc i) flat losers conflicted))
  | inr (c, lost) ↦
      rw (lost, drop_from, lost_count)
        (omega (arith, length-drop_from (suc i) flat losers (report fe.source c conflicted)))
]

drop_losers-lengths :
    (flat : List FlatEndpoint) (losers : Losers) (conflicted : Conflicts)
    → (length (drop_losers flat losers conflicted).0 ≤ length flat)
      × (length flat ≤ length (drop_losers flat losers conflicted).0 + length losers)
drop_losers-lengths flat [] conflicted = (omega arith, omega arith)
drop_losers-lengths flat (l ∷ losers) conflicted =
    let a = length-drop_from 0 flat (l ∷ losers) conflicted in
    let b = lost_count_le 0 flat (l ∷ losers) in (omega (arith, a), omega (arith, a, b))

module _ (gin : Gin) (flat shadowed : List FlatEndpoint) (conflicted : Conflicts)
    (rules : RouteRules) where
  abbrev outcome : Dropped
  outcome = drop_route_losers gin flat shadowed conflicted rules

  -- No entry is added, and at most 21 are left out.
  drop_route_losers-lengths :
      (length outcome.kept ≤ length flat) × (length flat ≤ length outcome.kept + max_route_refusals)
  unfolding drop_route_losers
  drop_route_losers-lengths =
      let b = route_losers-IsBounded gin flat shadowed rules in
      let l = drop_losers-lengths flat (route_losers gin flat shadowed rules).losers conflicted in
      (l.0, omega (arith, l.1, b.0, b.1))
