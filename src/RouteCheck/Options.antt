-- ===== src/RouteCheck/Options.antt =====
-- The OPTIONS routes of a configuration with auto_options.
use kraken_d_operator.Base.{
  ℕ, suc, Option, none, some, Option-cases, List, [], ◌∷◌, ◌≡◌, ◌↔◌, ◌∙◌, sym, ap, refl, inl, inr,
  Any, Any-map, Bool-cases, map, if◌then◌else◌,
}
use kraken_d_operator.Base.Int.{pos_part}
use kraken_d_operator.Base.Maps.{
  lookup, lookup-insert, IsKeyed, insert-IsKeyed, lookup-entry, entry-lookup,
}
use kraken_d_operator.Base.Texts.{Text, text_eq, text_eq_iff, text_lt, text_key}
use kraken_d_operator.Route.Paths.{gin_path}
use kraken_d_operator.Route.Entries.Order.{sort_by-Any, Any-sort_by}
use kraken_d_operator.Route.Gin.{GinRoute}
use kraken_d_operator.RouteCheck.{
  ConfigEndpoint, insert_new, first_by_path, options_route, options_routes,
}

-- the position of the first endpoint with the path, counted from `i`
unfoldable pub first_index : Text → ℕ → List ConfigEndpoint → Option ℕ
first_index p i [] = none
first_index p i (ep ∷ eps) =
    let rest = first_index p (suc i) eps in
    if text_eq (gin_path ep.endpoint) p then some i else rest

abbrev or_else : Option ℕ → Option ℕ → Option ℕ
or_else none b = b
or_else (some a) b = some a

lookup-insert_new :
    (p q : Text) (i : ℕ) (first : List (Text × ℕ))
    → lookup p (insert_new q i first)
      ≡ or_else (lookup p first) (if text_eq q p then some i else none)
lookup-insert_new p q i first = elim (Option-cases (lookup q first)) [
  | inl new ↦
      rw (insert_new, new)
        (rw (lookup-insert q p i first) (elim (Bool-cases (text_eq q p)) [
          | inl same ↦
              let e = (text_eq_iff q p).0 same in
              let free : lookup p first ≡ none = rw e at new in rw (same, free) refl
          | inr other ↦ rw (other, or_else_none (lookup p first)) refl
        ]))
  | inr (j, there) ↦
      rw (insert_new, there)
        (elim (Bool-cases (text_eq q p)) [
          | inl same ↦
              let e = (text_eq_iff q p).0 same in
              let here : lookup p first ≡ some j = rw e at there in rw (same, here) refl
          | inr other ↦ rw (other, or_else_none (lookup p first)) refl
        ])
]
  where
    or_else_none : (a : Option ℕ) → or_else a none ≡ a
    or_else_none none = refl
    or_else_none (some a) = refl

or_else_assoc : (a b c : Option ℕ) → or_else (or_else a b) c ≡ or_else a (or_else b c)
or_else_assoc none b c = refl
or_else_assoc (some a) b c = refl

lookup-first_by_path :
    (p : Text) (i : ℕ) (eps : List ConfigEndpoint) (first : List (Text × ℕ))
    → lookup p (first_by_path i eps first) ≡ or_else (lookup p first) (first_index p i eps)
unfolding first_by_path first_index
lookup-first_by_path p i [] first = elim (Option-cases (lookup p first)) [
  | inl e ↦ rw e refl
  | inr (j, e) ↦ rw e refl
]
lookup-first_by_path p i (ep ∷ eps) first =
    let q = gin_path ep.endpoint in
    lookup-first_by_path p (suc i) eps (insert_new q i first)
    ∙ rw (lookup-insert_new p q i first) (
        or_else_assoc (lookup p first) (if text_eq q p then some i else none)
          (first_index p (suc i) eps)
        ∙ ap (or_else (lookup p first)) (elim (Bool-cases (text_eq q p)) [
          | inl same ↦ rw same refl
          | inr other ↦ rw other refl
        ]))

insert_new-IsKeyed :
    (p : Text) (i : ℕ) (first : List (Text × ℕ)) → IsKeyed first → IsKeyed (insert_new p i first)
insert_new-IsKeyed p i first h = elim (Option-cases (lookup p first)) [
  | inl new ↦ rw (insert_new, new) (insert-IsKeyed p i first h)
  | inr (j, there) ↦ rw (insert_new, there) h
]

first_by_path-IsKeyed :
    (i : ℕ) (eps : List ConfigEndpoint) (first : List (Text × ℕ))
    → IsKeyed first
    → IsKeyed (first_by_path i eps first)
unfolding first_by_path
first_by_path-IsKeyed i [] first h = h
first_by_path-IsKeyed i (ep ∷ eps) first h =
    first_by_path-IsKeyed (suc i) eps (insert_new (gin_path ep.endpoint) i first)
      (insert_new-IsKeyed (gin_path ep.endpoint) i first h)

Any-of_map :
    (P : GinRoute → Type 0) (xs : List (Text × ℕ))
    → Any P (map options_route xs)
    → Any (λ x. P (options_route x)) xs
Any-of_map P [] h = h
Any-of_map P (x ∷ xs) (inl p) = inl p
Any-of_map P (x ∷ xs) (inr h) = inr (Any-of_map P xs h)

map-Any :
    (P : GinRoute → Type 0) (xs : List (Text × ℕ))
    → Any (λ x. P (options_route x)) xs
    → Any P (map options_route xs)
map-Any P [] h = h
map-Any P (x ∷ xs) (inl p) = inl p
map-Any P (x ∷ xs) (inr h) = inr (map-Any P xs h)

-- Among the OPTIONS routes there is one of a path that points at an endpoint exactly when that
-- endpoint is the first with the path.
pub options_routes-first :
    (eps : List ConfigEndpoint) (p : Text) (i : ℕ)
    → Any (λ r. r ≡ options_route (p, i)) (options_routes eps) ↔ (first_index p 0 eps ≡ some i)
unfolding options_routes
options_routes-first eps p i =
    let first = first_by_path 0 eps [] in
    let found = lookup-first_by_path p 0 eps [] in
    (
      λ h.
          let a =
            Any-sort_by (λ a b. text_lt a.0 b.0) (λ x. options_route x ≡ options_route (p, i)) first
              (Any-of_map _ _ h) in
          let b : Any (λ x. x ≡ (p, i)) first =
            Any-map _ _ first
              (λ x e.
                let path : x.0 ≡ p = ap (λ (r : GinRoute). r.path) e in
                let index : x.1 ≡ i = ap (λ (r : GinRoute). pos_part r.index) e in
                λ j. (path j, index j))
              a in
          sym found ∙ lookup-entry p i first (first_by_path-IsKeyed 0 eps [] tt) b,
      λ e. map-Any _ _ (
          sort_by-Any (λ a b. text_lt a.0 b.0) _ first
            (Any-map _ _ first (λ x d. ap options_route d) (entry-lookup p i first (found ∙ e)))),
    )
