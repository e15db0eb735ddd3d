-- ===== src/Route/Clashes/Sound.antt =====
-- What a clash that is found is with.
use kraken_d_operator.Base.{
  Bool, true, false, ◌||◌, not, some, List, [], ◌∷◌, ◌++◌, ◌≡◌, ◌≢◌, ◌⊎◌, inl, inr, refl, All, Any,
  All-append, All-self, Any-of_mem, Bool-cases, Option-cases, any, arith,
}
use kraken_d_operator.Base.Texts.{Text, text_eq, text_eq_iff}
use kraken_d_operator.Route.Entries.{NamespacedName, source_eq, source_eq_lem}
use kraken_d_operator.Route.Gin.{GinRoute, Gin, is_refusal, shared_options}
use kraken_d_operator.Route.Clashes.{
  RoutedRoute, RoutedEntry, RouterClash, has_winner, with_clashes, lies_under, overlap,
  overlaps_from, ee_wildcard_overlaps, refusal_next_to, first_clash, clashes_from, pairwise_clashes,
}

pub with_clashes-All :
    (P : RouterClash → Type 0) (clashes more : List RouterClash)
    → All P clashes
    → All P more
    → All P (with_clashes clashes more)
unfolding with_clashes
with_clashes-All P clashes [] h k = h
with_clashes-All P clashes (m ∷ more) h (p, k) = elim (Bool-cases (has_winner m.winner clashes)) [
  | inl known ↦ rw known (with_clashes-All P clashes more h k)
  | inr fresh ↦
      rw fresh
        (with_clashes-All P (clashes ++ m ∷ []) more (All-append P clashes (m ∷ []) h (p, tt)) k)
]

-- An older entry of another KrakenDEndpoint, of the same method, one under the other.
pub record Overlaps (entry o : RoutedEntry) : Type 0 where
  pub other : o.source ≢ entry.source
  pub method : o.method ≡ entry.method
  pub under : (lies_under entry.shape o.path ≡ true) ⊎ (lies_under o.shape entry.path ≡ true)

abbrev pub IsOverlapIn : List RoutedEntry → RoutedEntry → RouterClash → Type 0
IsOverlapIn older entry c = Any (λ o. (o.source ≡ c.winner) × Overlaps entry o) older

abbrev passes : RoutedEntry → RoutedEntry → Bool
passes entry o = not (text_eq o.method entry.method) || source_eq o.source entry.source

passes-false :
    (entry o : RoutedEntry)
    → passes entry o ≡ false
    → (o.source ≢ entry.source) × (o.method ≡ entry.method)
passes-false entry o h =
    ground (arith, text_eq_iff o.method entry.method, source_eq_lem o.source entry.source)

overlap-All :
    (all older : List RoutedEntry) (clashes : List RouterClash) (o entry : RoutedEntry)
    → Any (λ x. x ≡ o) all
    → All (IsOverlapIn all entry) clashes
    → All (IsOverlapIn all entry) (overlap clashes o entry)
unfolding overlap
overlap-All all older clashes o entry m h = elim (Bool-cases (passes entry o)) [
  | inl skip ↦ rw skip h
  | inr same ↦
      let (other, method) = passes-false entry o same in
      rw same (elim (Bool-cases (lies_under entry.shape o.path)) [
        | inl under ↦ rw under (with_clashes-All _ clashes _ h (found other method (inl under), tt))
        | inr out ↦ rw out (elim (Bool-cases (lies_under o.shape entry.path)) [
          | inl over ↦ rw over (with_clashes-All _ clashes _ h (found other method (inr over), tt))
          | inr clear ↦ rw clear h
        ])
      ])
]
  where
    found :
        o.source ≢ entry.source
        → o.method ≡ entry.method
        → (lies_under entry.shape o.path ≡ true) ⊎ (lies_under o.shape entry.path ≡ true)
        → Any (λ x. (x.source ≡ o.source) × Overlaps entry x) all
    found n e u = Any-of_mem _ all o m (refl, record { other = n; method = e; under = u })

overlaps_from-All :
    (all older : List RoutedEntry) (clashes : List RouterClash) (entry : RoutedEntry)
    → All (λ o. Any (λ x. x ≡ o) all) older
    → All (IsOverlapIn all entry) clashes
    → All (IsOverlapIn all entry) (overlaps_from clashes older entry)
unfolding overlaps_from
overlaps_from-All all [] clashes entry m h = h
overlaps_from-All all (o ∷ older) clashes entry (p, m) h =
    overlaps_from-All all older (overlap clashes o entry) entry m
      (overlap-All all older clashes o entry p h)

pub ee_wildcard_overlaps-All :
    (older : List RoutedEntry) (entry : RoutedEntry)
    → All (IsOverlapIn older entry) (ee_wildcard_overlaps older entry)
unfolding ee_wildcard_overlaps
ee_wildcard_overlaps-All older entry = overlaps_from-All older older [] entry (All-self older) tt

module _ (gin : Gin) where
  -- gin refuses one of `routes` in an engine that holds only `a`, and the two are not the OPTIONS
  -- route that entries of one path share.
  abbrev pub IsRefusedNextTo : GinRoute → List GinRoute → Type 0
  IsRefusedNextTo a routes =
      Any (λ r. (shared_options a r ≡ false) × (is_refusal (refusal_next_to gin a r) ≡ true)) routes

  abbrev pub IsClashIn : List RoutedRoute → NamespacedName → List GinRoute → RouterClash → Type 0
  IsClashIn against source routes c =
      (c.winner ≢ source)
      × Any (λ a. (a.source ≡ c.winner) × IsRefusedNextTo a.route routes) against

  first_clash-IsRefusedNextTo :
      (a : GinRoute) (routes : List GinRoute) (d : Text)
      → first_clash gin a routes ≡ some d
      → IsRefusedNextTo a routes
  unfolding first_clash
  first_clash-IsRefusedNextTo a [] d h = cc
  first_clash-IsRefusedNextTo a (r ∷ routes) d h =
      elim (Bool-cases (shared_options a r || not (is_refusal (refusal_next_to gin a r)))) [
        | inl skip ↦ inr (first_clash-IsRefusedNextTo a routes d (rw skip at h))
        | inr hit ↦ inl (ground arith, ground arith)
      ]

  clashes_from-All :
      (all against : List RoutedRoute) (seen : List NamespacedName) (source : NamespacedName)
      (routes : List GinRoute)
      → All (λ a. Any (λ x. x ≡ a) all) against
      → All (IsClashIn all source routes) (clashes_from gin seen against source routes)
  unfolding clashes_from
  clashes_from-All all [] seen source routes m = tt
  clashes_from-All all (a ∷ against) seen source routes (p, m) =
      elim (Bool-cases (source_eq a.source source || any (λ n. source_eq n a.source) seen)) [
        | inl skip ↦ rw skip (clashes_from-All all against seen source routes m)
        | inr try ↦ rw try (elim (Option-cases (first_clash gin a.route routes)) [
          | inl clear ↦ rw (clear, clashes_from) (clashes_from-All all against seen source routes m)
          | inr (d, hit) ↦ rw hit (
            (
              (λ e. ground (arith, try, (source_eq_lem a.source source).1 e)),
              Any-of_mem _ all a p (refl, first_clash-IsRefusedNextTo a.route routes d hit),
            ),
            clashes_from-All all against (a.source ∷ seen) source routes m,
          )
        ])
      ]

  pub pairwise_clashes-All :
      (against : List RoutedRoute) (source : NamespacedName) (routes : List GinRoute)
      → All (IsClashIn against source routes) (pairwise_clashes gin against source routes)
  unfolding pairwise_clashes
  pairwise_clashes-All against source routes =
      clashes_from-All against against [] source routes (All-self against)
