-- ===== src/RouteCheck/Verdict.antt =====
-- What the route check's verdict says of the routes.
use kraken_d_operator.Base.{
  ℕ, suc, ◌≤◌, ◌<◌, true, Option, none, some, Option-cases, List, [], ◌∷◌, ◌++◌, ◌≡◌, ◌≢◌, ◌↔◌,
  refl, ap, arith, inl, inr, Bool-cases, nat_eq, nat_eq_iff, length, length-append,
}
use kraken_d_operator.Base.Texts.{Text, codes}
use kraken_d_operator.Route.Gin.{GinRoute, Gin, refuses, register_all}
use kraken_d_operator.Route.Admission.{max_route_refusals}
use kraken_d_operator.RouteCheck.{
  RoutedConfig, gin_routes_of, Decoded, config, wrongly_typed, undecodable, RouteVerdict,
  group_refusal, Blamed, clash_refusals, Checking, failed_with, unfinished, unless_expired,
  after_refusal, accept_route, check_routes, checking_start, route_refusals,
}

-- A verdict within the bound, that is capped exactly at the bound.
abbrev pub IsBounded : RouteVerdict → Type 0
IsBounded v = (length v.refusals ≤ 21) × ((v.capped ≡ true) ↔ (length v.refusals ≡ 21))

failed_with-IsBounded : (e : Text) → IsBounded (failed_with e)
failed_with-IsBounded e = ground arith

module _ (gin : Gin) (expired : ℕ → Option Text) where
  -- what a refused route is blamed on
  abbrev blamed_at : Checking gin expired → GinRoute → Blamed
  blamed_at s r = clash_refusals gin expired s.accepted r (gin.register s.engine r).1 (suc s.polls)

  after_refusal-IsBounded :
      (rest : Checking gin expired → RouteVerdict) (s : Checking gin expired) (r : GinRoute)
      (b : Blamed)
      → ((t : Checking gin expired) → length t.refusals < 21 → IsBounded (rest t))
      → length s.refusals < 21
      → IsBounded (after_refusal gin expired rest s r b)
  unfolding after_refusal
  after_refusal-IsBounded rest s r ((clashes, some e), polls) k h = failed_with-IsBounded e
  after_refusal-IsBounded rest s r ((clashes, none), polls) k h =
      let refusals = s.refusals ++ group_refusal r clashes ∷ [] in
      let longer = length-append s.refusals (group_refusal r clashes ∷ []) in
      elim (Bool-cases (nat_eq (length refusals) max_route_refusals)) [
        | inl full ↦
            let e = (nat_eq_iff (length refusals) 21).0 full in
            rw full (omega (arith, e), ((λ _. e), λ _. refl))
        | inr room ↦ rw room (k _ (ground (arith, longer, room, h)))
      ]

  check_routes-IsBounded :
      (routes : List GinRoute) (s : Checking gin expired)
      → length s.refusals < 21
      → IsBounded (check_routes gin expired routes s)
  unfolding check_routes
  check_routes-IsBounded [] s h = (omega arith, ((λ e. ground arith), λ e. ground (arith, e, h)))
  check_routes-IsBounded (r ∷ routes) s h =
      let ih = λ (t : Checking gin expired). check_routes-IsBounded routes t in
      elim (Option-cases (expired s.polls)) [
        | inr (e, over) ↦ rw (over, unless_expired) (failed_with-IsBounded (unfinished e))
        | inl on ↦ elim (Bool-cases (refuses gin s.engine r)) [
          | inr accepts ↦ rw (on, unless_expired, accepts) (ih (accept_route gin expired r s) h)
          | inl clash ↦
              rw (on, unless_expired, clash)
                (after_refusal-IsBounded (check_routes gin expired routes) s r (blamed_at s r) ih h)
        ]
      ]

  -- The route check reports at most 21 refused routes, and says that it stopped early exactly when
  -- it reports 21.
  pub route_refusals-IsBounded : (doc : Decoded) → IsBounded (route_refusals gin expired doc)
  unfolding route_refusals
  route_refusals-IsBounded (config cfg) =
      check_routes-IsBounded (gin_routes_of cfg) (checking_start gin expired) (omega arith)
  route_refusals-IsBounded wrongly_typed = ground arith
  route_refusals-IsBounded (undecodable e) =
      failed_with-IsBounded (codes "decoding config for the route check: " ++ e)

  -- a check that ends without an error reports what it found
  abbrev Reports : RouteVerdict → Type 0
  Reports v = v.error ≡ none → v.refusals ≢ []

  after_refusal-Reports :
      (rest : Checking gin expired → RouteVerdict) (s : Checking gin expired) (r : GinRoute)
      (b : Blamed)
      → ((t : Checking gin expired) → t.refusals ≢ [] → Reports (rest t))
      → Reports (after_refusal gin expired rest s r b)
  unfolding after_refusal
  after_refusal-Reports rest s r ((clashes, some e), polls) k d = ground arith
  after_refusal-Reports rest s r ((clashes, none), polls) k d =
      let refusals = s.refusals ++ group_refusal r clashes ∷ [] in
      let longer = length-append s.refusals (group_refusal r clashes ∷ []) in
      let some_of : refusals ≢ [] =
        λ e. absurd (omega (arith, longer, ap (λ (l : List Text). length l) e)) in
      elim (Bool-cases (nat_eq (length refusals) max_route_refusals)) [
        | inl full ↦ rw full some_of
        | inr room ↦ rw room (k _ some_of (rw room at d))
      ]

  check_routes-Reports :
      (routes : List GinRoute) (s : Checking gin expired)
      → s.refusals ≢ []
      → Reports (check_routes gin expired routes s)
  unfolding check_routes
  check_routes-Reports [] s h d = h
  check_routes-Reports (r ∷ routes) s h d =
      let ih = λ (t : Checking gin expired). check_routes-Reports routes t in
      elim (Option-cases (expired s.polls)) [
        | inr (e, over) ↦ let f = rw (over, unless_expired) at d in ground (arith, f)
        | inl on ↦ elim (Bool-cases (refuses gin s.engine r)) [
          | inr accepts ↦
              rw (on, unless_expired, accepts)
                (ih (accept_route gin expired r s) h (rw (on, unless_expired, accepts) at d))
          | inl clash ↦
              rw (on, unless_expired, clash)
                (after_refusal-Reports (check_routes gin expired routes) s r (blamed_at s r) ih
                  (rw (on, unless_expired, clash) at d))
        ]
      ]

  check_routes-accepts :
      (routes : List GinRoute) (s : Checking gin expired)
      → s.refusals ≡ []
      → (check_routes gin expired routes s).error ≡ none
      → ((check_routes gin expired routes s).refusals ≡ [])
        ↔ ((register_all gin s.engine routes).1 ≡ true)
  unfolding check_routes register_all
  check_routes-accepts [] s h d = ((λ _. refl), λ _. h)
  check_routes-accepts (r ∷ routes) s h d = elim (Option-cases (expired s.polls)) [
    | inr (e, over) ↦ let f = rw (over, unless_expired) at d in ground (arith, f)
    | inl on ↦ elim (Bool-cases (refuses gin s.engine r)) [
      | inr accepts ↦
          rw (on, unless_expired, accepts)
            (check_routes-accepts routes (accept_route gin expired r s) h
              (rw (on, unless_expired, accepts) at d))
      | inl clash ↦
          let reported =
            after_refusal-Reports (check_routes gin expired routes) s r (blamed_at s r)
              (λ t. check_routes-Reports routes t) (rw (on, unless_expired, clash) at d) in
          rw (on, unless_expired, clash) ((λ e. absurd (reported e)), λ e. ground (arith, e))
    ]
  ]

  -- A check of a decoded configuration that ends without an error reports no refused route exactly
  -- when gin accepts all of the configuration's routes in one engine, in the runtime's order.
  pub route_refusals-accepts :
      (cfg : RoutedConfig)
      → (route_refusals gin expired (config cfg)).error ≡ none
      → ((route_refusals gin expired (config cfg)).refusals ≡ [])
        ↔ ((register_all gin gin.new (gin_routes_of cfg)).1 ≡ true)
  unfolding route_refusals
  route_refusals-accepts cfg d =
      check_routes-accepts (gin_routes_of cfg) (checking_start gin expired) refl d
