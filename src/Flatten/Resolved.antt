-- ===== src/Flatten/Resolved.antt =====
-- The flattened list against its specification: one entry for each key, the first in serving order.
use mathlib.Core.List.{Perm, append_assoc, perm_append_comm}
use mathlib.Core.List.Perm
use mathlib.Core.List.Permᴰ
use mathlib.Core.List.{Permᴰ}
use kraken_d_operator.Base.{
  ◌+◌, ◌≤◌, ◌≡◌, ◌⊎◌, false, Option-cases, List, [], ◌∷◌, ◌++◌, inl, inr, refl, ◌∙◌, ap, All,
  All-map, All-at, Any, Any-map, Any-elim, All-of_mem, All-self, Bool-cases, length, length-append,
}
use kraken_d_operator.Base.Maps.{lookup, lookup-entry, entry-lookup}
use kraken_d_operator.Base.Texts.{Text}
use kraken_d_operator.Route.Entries.{FlatEndpoint, served_before, sort_by}
use kraken_d_operator.Route.Entries.Order.{sort_by-Any, Any-sort_by, sort_by-Perm, IsSorted}
use kraken_d_operator.Flatten.{
  KrakenDEndpoint, EndpointKey, same_key, same_key_iff, endpoint_key, EntryGroups, key_of,
  add_entries, Flattened, path_before, nothing_flat, flatten_endpoints,
}
use kraken_d_operator.Flatten.Groups.{
  valid_entries, of_key, group_endpoints-add_entries, lookup-add_entries, add_entries-IsKeyed,
  grouped, grouped-add_entries,
}
use kraken_d_operator.Flatten.Counts.{Any-Permᴰ, length-Permᴰ, of_key-append, length-sort_by}
use kraken_d_operator.Route.Entries.Order.{
  IsNamed, served_before-asym, served_before-trans_false, sort_by-IsSorted,
}
use kraken_d_operator.Flatten.Winners.{
  first_of, rest_of, winners, losers, resolve_groups-parts, Visits, Any-first_of, first-rest,
  Any-winners, winners-Any, HasKey, length-winners,
}

of_key-Any :
    (P : FlatEndpoint → Type 0) (k : EndpointKey) (fes : List FlatEndpoint)
    → Any P (of_key k fes)
    → Any (λ x. P x × (key_of x ≡ k)) fes
unfolding of_key
of_key-Any P k [] h = h
of_key-Any P k (fe ∷ fes) h = elim (Bool-cases (same_key (key_of fe) k)) [
  | inl same ↦ elim (let u : P fe ⊎ Any P (of_key k fes) = rw same at h in u) [
    | inl p ↦ inl (p, (same_key_iff (key_of fe) k).0 same)
    | inr r ↦ inr (of_key-Any P k fes r)
  ]
  | inr other ↦ inr (of_key-Any P k fes (rw other at h))
]

Any-of_key :
    (P : FlatEndpoint → Type 0) (k : EndpointKey) (fes : List FlatEndpoint)
    → Any (λ x. P x × (key_of x ≡ k)) fes
    → Any P (of_key k fes)
unfolding of_key
Any-of_key P k [] h = h
Any-of_key P k (fe ∷ fes) (inl (p, e)) = rw ((same_key_iff (key_of fe) k).1 e) (inl p)
Any-of_key P k (fe ∷ fes) (inr h) = elim (Bool-cases (same_key (key_of fe) k)) [
  | inl same ↦ rw same (inr (Any-of_key P k fes h))
  | inr other ↦ rw other (Any-of_key P k fes h)
]

-- the first of a sorted list is before all, and there is one if there is anything
first-IsFirst :
    (es : List FlatEndpoint) (w : FlatEndpoint)
    → IsSorted served_before es
    → Any (λ x. x ≡ w) (first_of es)
    → All (λ o. served_before o w ≡ false) es
first-IsFirst [] w s h = absurd h
first-IsFirst (x ∷ es) w (a, s) (inr h) = absurd h
first-IsFirst (x ∷ es) w (a, s) (inl e) =
    let self : served_before x x ≡ false = elim (Bool-cases (served_before x x)) [
      | inl t ↦ served_before-asym x x t
      | inr f ↦ f
    ] in
    (rw (← e) self, All-map _ _ es (λ y h. rw (← e) h) a)

first-nonempty :
    (P : FlatEndpoint → Type 0) (es : List FlatEndpoint)
    → Any P es
    → (w : FlatEndpoint) × Any (λ x. x ≡ w) (first_of es)
first-nonempty P [] h = absurd h
first-nonempty P (x ∷ es) h = (x, inl refl)

length-step :
    (k : EndpointKey) (g : EndpointKey × List FlatEndpoint) (gs : EntryGroups)
    → length (of_key k (winners (g ∷ gs)))
      ≡ length (of_key k (first_of (sort_by served_before g.1))) + length (of_key k (winners gs))
unfolding winners
length-step k (j, es) gs =
    rw (of_key-append k (first_of (sort_by served_before es)) (winners gs))
      (length-append (of_key k (first_of (sort_by served_before es))) (of_key k (winners gs)))

regroup : (a b c d : List FlatEndpoint) → Perm ((a ++ b) ++ (c ++ d)) ((a ++ c) ++ (b ++ d))
regroup a b c d =
    rw (append_assoc a b (c ++ d), append_assoc a c (b ++ d))
      (Perm.append_left a (
        rw (← append_assoc b c d, ← append_assoc c b d)
          (Perm.append_right d (perm_append_comm b c))))

winners-losers : (gs : EntryGroups) → Perm (winners gs ++ losers gs) (grouped gs)
unfolding winners losers grouped
winners-losers [] = Perm.refl []
winners-losers ((k, es) ∷ gs) =
    let sorted = sort_by served_before es in
    Perm.trans (regroup (first_of sorted) (winners gs) (rest_of sorted) (losers gs))
      (Perm.append (rw (first-rest sorted) (sort_by-Perm served_before es)) (winners-losers gs))

grouped-Permᴰ : (xs ys : EntryGroups) → Permᴰ xs ys → Perm (grouped xs) (grouped ys)
unfolding grouped
grouped-Permᴰ _ _ Permᴰ.nil = Perm.refl []
grouped-Permᴰ _ _ (Permᴰ.cons {a} {b} {l₁ = xs} {l₂ = ys} e p) =
    rw e (Perm.append_left b.1 (grouped-Permᴰ xs ys p))
grouped-Permᴰ _ _ (Permᴰ.swap {a} {b} {a' = c} {b' = d} {l} e h) =
    rw (e, h)
      (rw (← append_assoc d.1 c.1 (grouped l), ← append_assoc c.1 d.1 (grouped l))
        (Perm.append_right (grouped l) (perm_append_comm d.1 c.1)))
grouped-Permᴰ _ _ (Permᴰ.trans p q) = Perm.trans (grouped-Permᴰ _ _ p) (grouped-Permᴰ _ _ q)

-- One of the entries, that no entry of its key is served before.
abbrev pub IsWinner : List FlatEndpoint → FlatEndpoint → Type 0
IsWinner fes w = Any (λ x. x ≡ w) fes × All (λ o. served_before o w ≡ false) (of_key (key_of w) fes)

module _ (visit : EntryGroups → EntryGroups) (visits : Visits visit)
    (endpoints : List KrakenDEndpoint) (policies : List Text) where
  abbrev entries : List FlatEndpoint
  entries = valid_entries policies endpoints

  abbrev groups : EntryGroups
  groups = add_entries [] entries

  abbrev result : Flattened
  result = (flatten_endpoints visit endpoints policies).0

  flat-winners : result.flat ≡ sort_by path_before (winners (visit groups))
  unfolding flatten_endpoints
  flat-winners =
      rw (group_endpoints-add_entries policies endpoints [] [])
        (ap (sort_by path_before) (resolve_groups-parts nothing_flat (visit groups)).0)

  shadowed-losers : result.shadowed ≡ losers (visit groups)
  unfolding flatten_endpoints
  shadowed-losers =
      rw (group_endpoints-add_entries policies endpoints [] [])
        ((resolve_groups-parts nothing_flat (visit groups)).1)

  -- a group has its key's entries
  group-of_key :
      (k : EndpointKey) (es : List FlatEndpoint)
      → Any (λ g. g ≡ (k, es)) groups
      → es ≡ of_key k entries
  group-of_key k es m =
      let there = lookup-entry k es groups (add_entries-IsKeyed [] entries tt) m in
      let all = lookup-add_entries [] entries k in rw there at all

  visited : (P : EndpointKey × List FlatEndpoint → Type 0) → Any P (visit groups) → Any P groups
  visited P h = Any-Permᴰ P (visit groups) groups (visits groups) h

  by_served_before-IsSorted :
      (es : List FlatEndpoint) → All IsNamed es → IsSorted served_before (sort_by served_before es)
  by_served_before-IsSorted es n =
      sort_by-IsSorted served_before IsNamed served_before-asym served_before-trans_false es n

  All-of_key :
      (P : FlatEndpoint → Type 0) (k : EndpointKey) → All P entries → All P (of_key k entries)
  All-of_key P k h = All-of_mem P (of_key k entries) (λ x m.
      Any-elim _ (P x) entries (λ y (p, (e, _)). rw (← e) p)
        (All-at P _ entries h (of_key-Any (λ y. y ≡ x) k entries m)))

  first_of-IsWinner :
      (k : EndpointKey) (es : List FlatEndpoint) (w : FlatEndpoint)
      → All IsNamed entries
      → es ≡ of_key k entries
      → Any (λ x. x ≡ w) (first_of (sort_by served_before es))
      → IsWinner entries w
  first_of-IsWinner k es w n e h =
      let m =
        Any-sort_by served_before (λ x. x ≡ w) es (Any-first_of _ (sort_by served_before es) h) in
      let here = of_key-Any (λ x. x ≡ w) k entries (rw e at m) in
      let key : key_of w ≡ k = Any-elim _ (key_of w ≡ k) entries (λ x (d, c). rw (← d) c) here in
      let named : All IsNamed es = rw e (All-of_key IsNamed k n) in
      let first =
        first-IsFirst (sort_by served_before es) w (by_served_before-IsSorted es named) h in
      let all : All (λ o. served_before o w ≡ false) es = All-of_mem _ es (λ x m.
        Any-elim _ (served_before x w ≡ false) (sort_by served_before es) (λ y (p, d). rw (← d) p)
          (All-at _ (λ y. y ≡ x) (sort_by served_before es) first
            (sort_by-Any served_before (λ y. y ≡ x) es m))) in
      (Any-map _ _ entries (λ x p. p.0) here, rw (key, ← e) all)

  flat-IsWinner : All IsNamed entries → All (IsWinner entries) result.flat
  flat-IsWinner n = rw flat-winners (
      All-of_mem (IsWinner entries) (sort_by path_before (winners (visit groups))) (λ w m.
        let a =
          Any-winners (λ x. x ≡ w) (visit groups)
            (Any-sort_by path_before (λ x. x ≡ w) (winners (visit groups)) m) in
        Any-elim _ (IsWinner entries w) groups
          (λ g (there, h). first_of-IsWinner g.0 g.1 w n (group-of_key g.0 g.1 there) h)
          (All-at (λ g. Any (λ x. x ≡ g) groups) _ groups (All-self groups) (visited _ a))))

  -- An entry has a winner.
  entry-covered :
      (e : FlatEndpoint) → Any (λ x. x ≡ e) entries → Any (λ w. key_of w ≡ key_of e) result.flat
  entry-covered e m =
      let k = key_of e in
      let here : Any (λ x. x ≡ e) (of_key k entries) =
        Any-of_key _ k entries (Any-map _ _ entries (λ x d. (d, ap key_of d)) m) in
      let all = lookup-add_entries [] entries k in
      elim (Option-cases (lookup k groups)) [
        | inl free ↦
            let gone : [] ≡ of_key k entries = rw free at all in
            absurd (let h : Any (λ x. x ≡ e) [] = rw (← gone) at here in h)
        | inr (es, there) ↦
            let eq : es ≡ of_key k entries = rw there at all in
            let sorted = sort_by served_before es in
            let (w, first) =
              first-nonempty _ sorted
                (sort_by-Any served_before (λ x. x ≡ e) es (rw (← eq) at here)) in
            let c =
              of_key-Any (λ x. x ≡ w) k entries
                (rw eq at (Any-sort_by served_before _ es (Any-first_of _ sorted first))) in
            let key : key_of w ≡ k = Any-elim _ (key_of w ≡ k) entries (λ x (d, c). rw (← d) c) c in
            let back : Any (λ g. g ≡ (k, es)) (visit groups) =
              Any-Permᴰ _ groups (visit groups) (Permᴰ.symm (visits groups))
                (entry-lookup k es groups there) in
            rw flat-winners (
              sort_by-Any path_before _ (winners (visit groups)) (
                winners-Any (λ x. key_of x ≡ k) (visit groups)
                  (Any-map _ (λ g. Any (λ x. key_of x ≡ k) (first_of (sort_by served_before g.1)))
                    (visit groups)
                    (λ g d.
                      let same : g.1 ≡ es = ap (λ (x : EndpointKey × List FlatEndpoint). x.1) d in
                      rw same (Any-map _ _ (first_of sorted) (λ x h. ap key_of h ∙ key) first))
                    back)))
      ]

  group-HasKey : All HasKey groups
  group-HasKey = All-of_mem HasKey groups (λ g m. rw (group-of_key g.0 g.1 m) (
      All-of_mem _ (of_key g.0 entries) (λ x h.
        Any-elim _ (key_of x ≡ g.0) entries (λ y (d, c). rw (← d) c)
          (of_key-Any (λ y. y ≡ x) g.0 entries h))))

  flat_unique : (k : EndpointKey) → length (of_key k result.flat) ≤ 1
  flat_unique k =
      let bound = length-winners k groups (add_entries-IsKeyed [] entries tt) group-HasKey in
      let same =
        length-Permᴰ (λ g. length (of_key k (first_of (sort_by served_before g.1))))
          (λ gs. length (of_key k (winners gs))) (length-step k) (visit groups) groups
          (visits groups) in
      rw (flat-winners, length-sort_by k path_before (winners (visit groups)), same) bound

  -- The flattened list has, of the entries of the KrakenDEndpoints that miss no policy, exactly one
  -- for each key that an entry has, and that one is in the list which no entry of the key is
  -- served before; where the namespaces have no slash, and in whatever order the groups are
  -- visited.
  pub flatten_endpoints-IsWinner :
      All IsNamed entries
      → All (IsWinner entries) result.flat
        × All (λ e. Any (λ w. key_of w ≡ key_of e) result.flat) entries
        × ((k : EndpointKey) → length (of_key k result.flat) ≤ 1)
  flatten_endpoints-IsWinner n = (flat-IsWinner n, All-of_mem _ entries entry-covered, flat_unique)

  -- The flattened list and the shadowed entries together are the entries of the KrakenDEndpoints
  -- that miss no policy, each once, in whatever order the groups are visited.
  pub flatten_endpoints-Perm : Perm (result.flat ++ result.shadowed) entries
  unfolding grouped
  flatten_endpoints-Perm =
      rw (flat-winners, shadowed-losers)
        (Perm.trans
          (Perm.append_right (losers (visit groups))
            (sort_by-Perm path_before (winners (visit groups))))
          (Perm.trans (winners-losers (visit groups)) (
            Perm.trans (grouped-Permᴰ (visit groups) groups (visits groups))
              (grouped-add_entries [] entries))))
