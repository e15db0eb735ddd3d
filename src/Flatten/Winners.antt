-- ===== src/Flatten/Winners.antt =====
-- Each key's entry in the flattened list, and what becomes of the others.
use mathlib.Core.List.{append_assoc, append-nil}
use mathlib.Core.List.{Permᴰ}
use kraken_d_operator.Base.{
  ◌≤◌, ◌≡◌, ◌≢◌, false, none, List, [], ◌∷◌, ◌++◌, inl, inr, refl, sym, ◌∙◌, arith, All, All-map,
  Any, Any-append_left, Any-append_right, Any-append_cases, Bool-cases, leb, length,
}
use kraken_d_operator.Base.Maps.{lookup, IsKeyed}
use kraken_d_operator.Route.Entries.{FlatEndpoint, served_before, sort_by}
use kraken_d_operator.Flatten.{
  EndpointKey, same_key, same_key_iff, endpoint_key, EntryGroups, key_of, Flattened, split_group,
  resolve_group, resolve_groups,
}
use kraken_d_operator.Flatten.Groups.{of_key}
use kraken_d_operator.Flatten.Counts.{of_key-append, of_key-none, length-of_key, All-sort_by}

abbrev pub first_of : List FlatEndpoint → List FlatEndpoint
first_of [] = []
first_of (w ∷ losers) = w ∷ []

abbrev pub rest_of : List FlatEndpoint → List FlatEndpoint
rest_of [] = []
rest_of (w ∷ losers) = losers

unfoldable pub winners : EntryGroups → List FlatEndpoint
winners [] = []
winners ((k, es) ∷ gs) = first_of (sort_by served_before es) ++ winners gs

unfoldable pub losers : EntryGroups → List FlatEndpoint
losers [] = []
losers ((k, es) ∷ gs) = rest_of (sort_by served_before es) ++ losers gs

split_group-parts :
    (s : Flattened) (es : List FlatEndpoint)
    → ((split_group s es).flat ≡ s.flat ++ first_of es)
      × ((split_group s es).shadowed ≡ s.shadowed ++ rest_of es)
unfolding split_group
split_group-parts s [] = (sym (append-nil s.flat), sym (append-nil s.shadowed))
split_group-parts s (w ∷ es) = (refl, refl)

resolve_group-parts :
    (s : Flattened) (es : List FlatEndpoint)
    → ((resolve_group s es).flat ≡ s.flat ++ first_of (sort_by served_before es))
      × ((resolve_group s es).shadowed ≡ s.shadowed ++ rest_of (sort_by served_before es))
unfolding resolve_group
resolve_group-parts s [] = (refl, sym (append-nil s.shadowed))
resolve_group-parts s (x ∷ []) = (refl, sym (append-nil s.shadowed))
resolve_group-parts s (x ∷ y ∷ es) =
    let more : leb (length (x ∷ y ∷ es)) 1 ≡ false = ground arith in
    rw more (split_group-parts s (sort_by served_before (x ∷ y ∷ es)))

pub resolve_groups-parts :
    (s : Flattened) (gs : EntryGroups)
    → ((resolve_groups s gs).flat ≡ s.flat ++ winners gs)
      × ((resolve_groups s gs).shadowed ≡ s.shadowed ++ losers gs)
unfolding resolve_groups winners losers
resolve_groups-parts s [] = (sym (append-nil s.flat), sym (append-nil s.shadowed))
resolve_groups-parts s ((k, es) ∷ gs) =
    let (f, h) = resolve_group-parts s es in
    let (f', h') = resolve_groups-parts (resolve_group s es) gs in
    let sorted = sort_by served_before es in
    (
      f' ∙ rw f (append_assoc s.flat (first_of sorted) (winners gs)),
      h' ∙ rw h (append_assoc s.shadowed (rest_of sorted) (losers gs)),
    )

-- The order in which a loop visits a map is some order of its entries.
abbrev pub Visits : (EntryGroups → EntryGroups) → Type 0
Visits visit = (gs : EntryGroups) → Permᴰ (visit gs) gs

pub Any-first_of :
    (P : FlatEndpoint → Type 0) (es : List FlatEndpoint) → Any P (first_of es) → Any P es
Any-first_of P [] h = h
Any-first_of P (w ∷ es) (inl p) = inl p
Any-first_of P (w ∷ es) (inr h) = absurd h

All-first_of : (P : FlatEndpoint → Type 0) (es : List FlatEndpoint) → All P es → All P (first_of es)
All-first_of P [] h = tt
All-first_of P (w ∷ es) (p, h) = (p, tt)

length-first_of : (es : List FlatEndpoint) → length (first_of es) ≤ 1
length-first_of [] = omega arith
length-first_of (w ∷ es) = omega arith

pub first-rest : (es : List FlatEndpoint) → first_of es ++ rest_of es ≡ es
first-rest [] = refl
first-rest (w ∷ es) = refl

pub Any-winners :
    (P : FlatEndpoint → Type 0) (gs : EntryGroups)
    → Any P (winners gs)
    → Any (λ g. Any P (first_of (sort_by served_before g.1))) gs
unfolding winners
Any-winners P [] h = h
Any-winners P ((k, es) ∷ gs) h =
    elim (Any-append_cases P (first_of (sort_by served_before es)) (winners gs) h) [
      | inl l ↦ inl l
      | inr r ↦ inr (Any-winners P gs r)
    ]

pub winners-Any :
    (P : FlatEndpoint → Type 0) (gs : EntryGroups)
    → Any (λ g. Any P (first_of (sort_by served_before g.1))) gs
    → Any P (winners gs)
unfolding winners
winners-Any P [] h = h
winners-Any P ((k, es) ∷ gs) (inl h) =
    Any-append_left P (first_of (sort_by served_before es)) (winners gs) h
winners-Any P ((k, es) ∷ gs) (inr h) =
    Any-append_right P (first_of (sort_by served_before es)) (winners gs) (winners-Any P gs h)

-- the entries of a group have its key
abbrev pub HasKey : EndpointKey × List FlatEndpoint → Type 0
HasKey g = All (λ x. key_of x ≡ g.0) g.1

same_key-false : (a b : EndpointKey) → a ≢ b → same_key a b ≡ false
same_key-false a b n = elim (Bool-cases (same_key a b)) [
  | inl same ↦ absurd (n ((same_key_iff a b).0 same))
  | inr other ↦ other
]

-- a group of another key has no entry of the key
of_key-other :
    (k j : EndpointKey) (es : List FlatEndpoint)
    → j ≢ k
    → All (λ x. key_of x ≡ j) es
    → of_key k (first_of (sort_by served_before es)) ≡ []
of_key-other k j es n h = of_key-none k (first_of (sort_by served_before es)) (
    All-map _ _ (first_of (sort_by served_before es))
      (λ x e. same_key-false (key_of x) k (λ d. n (sym e ∙ d)))
      (All-first_of _ (sort_by served_before es) (All-sort_by _ served_before es h)))

of_key-winners-none :
    (k : EndpointKey) (gs : EntryGroups)
    → All HasKey gs
    → lookup k gs ≡ none
    → of_key k (winners gs) ≡ []
unfolding winners of_key
of_key-winners-none k [] h e = refl
of_key-winners-none k ((j, es) ∷ gs) (p, h) e = elim (Bool-cases (same_key j k)) [
  | inl same ↦ ground (arith, e, same)
  | inr other ↦
      let n : j ≢ k = λ d. ground (arith, other, (same_key_iff j k).1 d) in
      rw
        (
          of_key-append k (first_of (sort_by served_before es)) (winners gs),
          of_key-other k j es n p,
        )
        (of_key-winners-none k gs h (rw other at e))
]

pub length-winners :
    (k : EndpointKey) (gs : EntryGroups)
    → IsKeyed gs
    → All HasKey gs
    → length (of_key k (winners gs)) ≤ 1
unfolding winners of_key
length-winners k [] h p = omega arith
length-winners k ((j, es) ∷ gs) (new, h) (p, ps) =
    let first = first_of (sort_by served_before es) in
    rw (of_key-append k first (winners gs)) (elim (Bool-cases (same_key j k)) [
      | inl same ↦
          let e = (same_key_iff j k).0 same in
          let free : lookup k gs ≡ none = rw e at new in
          rw (of_key-winners-none k gs ps free, append-nil (of_key k first))
            (omega (arith, length-of_key k first, length-first_of (sort_by served_before es)))
      | inr other ↦
          let n : j ≢ k = λ d. ground (arith, other, (same_key_iff j k).1 d) in
          rw (of_key-other k j es n p) (length-winners k gs h ps)
    ])
