-- ===== src/Route/Drop.antt =====
-- `dropRouteLosers` of operator/internal/renderer/routeadmit.go. The map of conflicts is handed on
-- in place of being changed in place.
pub mod Reported
pub mod Counted
use kraken_d_operator.Base.{
  ℕ, zero, suc, ◌+◌, Bool, true, false, Option, none, some, List, [], ◌∷◌, ◌++◌, length,
  if◌then◌else◌,
}
use kraken_d_operator.Base.Maps.{Eq, nat_key, lookup, insert}
use kraken_d_operator.Route.Entries.{
  NamespacedName, source_key, FlatEndpoint, EntryConflict, conflict_before, sort_by,
}
use kraken_d_operator.Route.Gin.{Gin, RouteRules}
use kraken_d_operator.Route.Admission.{State, route_losers, or_empty}

-- the conflicts of a KrakenDEndpoint
abbrev pub Conflicts : Type 0
Conflicts = List (NamespacedName × List EntryConflict)

abbrev pub Losers : Type 0
Losers = List (ℕ × List EntryConflict)

abbrev pub conflicts_of : NamespacedName → Conflicts → List EntryConflict
conflicts_of source conflicted = or_empty (lookup source conflicted)

-- one entry that is left out
pub report : NamespacedName → List EntryConflict → Conflicts → Conflicts
report source c conflicted =
    insert source (sort_by conflict_before (conflicts_of source conflicted ++ c)) conflicted

-- the loop from position `i` on
unfoldable pub drop_from :
    ℕ → List FlatEndpoint → Losers → Conflicts → List FlatEndpoint × Conflicts
unfolding report
drop_from i [] losers conflicted = ([], conflicted)
drop_from i (fe ∷ flat) losers conflicted = elim (lookup i losers) [
  | none ↦ let rest = drop_from (suc i) flat losers conflicted in (fe ∷ rest.0, rest.1)
  | some c ↦ drop_from (suc i) flat losers (report fe.source c conflicted)
]

pub record Dropped : Type 0 where
  pub kept : List FlatEndpoint
  pub capped : Bool
  pub conflicted : Conflicts

abbrev pub drop_losers : List FlatEndpoint → Losers → Conflicts → List FlatEndpoint × Conflicts
drop_losers flat [] conflicted = (flat, conflicted)
drop_losers flat (l ∷ losers) conflicted = drop_from 0 flat (l ∷ losers) conflicted

unfoldable pub drop_route_losers :
    Gin → List FlatEndpoint → List FlatEndpoint → Conflicts → RouteRules → Dropped
unfolding route_losers drop_from
drop_route_losers gin flat shadowed conflicted rules =
    let adm = route_losers gin flat shadowed rules in
    let left = drop_losers flat adm.losers conflicted in
    record { kept = left.0; capped = adm.capped; conflicted = left.1 }
