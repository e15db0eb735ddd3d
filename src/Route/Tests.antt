-- ===== src/Route/Tests.antt =====
-- Each theorem of the route resolution at a concrete input.
use kraken_d_operator.Base.{[], ◌∷◌, ◌++◌, ◌≡◌, All}
use kraken_d_operator.Base.Texts.{codes}
use kraken_d_operator.Route.Entries.{EntryConflict, serving_order}
use kraken_d_operator.Route.Admission.{route_losers}
use kraken_d_operator.Route.Admission.Served.{Holds, route_losers-Holds}
use kraken_d_operator.Route.Admission.Bounds.{IsBounded, route_losers-IsBounded}
use kraken_d_operator.Route.Admission.Justified.{Placed}
use kraken_d_operator.Route.Admission.Blamed.{route_losers-Blamed}
use kraken_d_operator.Route.Drop.{Conflicts, drop_route_losers}
use kraken_d_operator.Route.Drop.Reported.{IsReported, AllAccounted, drop_route_losers-IsAccounted}
use kraken_d_operator.Route.Examples.{first_comer, named, entries, rules}

route_losers-Holds_example : Holds first_comer (route_losers first_comer entries [] rules)
route_losers-Holds_example = route_losers-Holds first_comer entries [] rules

route_losers-IsBounded_example : IsBounded first_comer (route_losers first_comer entries [] rules)
route_losers-IsBounded_example = route_losers-IsBounded first_comer entries [] rules

route_losers-Blamed_example :
    All
      (λ l. Placed first_comer rules [] (serving_order (entries ++ [])) l.0 l.1)
      (route_losers first_comer entries [] rules).losers
route_losers-Blamed_example = route_losers-Blamed first_comer entries [] rules

-- a conflict that "young" lost before
abbrev lost_before : EntryConflict
lost_before = record {
  endpoint = codes "/v1/orders";
  method = codes "GET";
  winner = named "old";
  detail = [];
}

abbrev before : Conflicts
before = (named "young", lost_before ∷ []) ∷ []

drop_route_losers-IsAccounted_example :
    AllAccounted 0 entries (route_losers first_comer entries [] rules).losers (
      (drop_route_losers first_comer entries [] before rules).kept,
      (drop_route_losers first_comer entries [] before rules).conflicted,
    )
    × All
        (λ c.
          IsReported
            (λ x. x ≡ c)
            (named "young")
            (drop_route_losers first_comer entries [] before rules).conflicted)
        (lost_before ∷ [])
drop_route_losers-IsAccounted_example =
    drop_route_losers-IsAccounted first_comer entries [] before rules (named "young")
