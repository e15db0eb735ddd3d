-- ===== src/Route/Entries/Order.antt =====
-- Serving order: a stable sort of the positions, oldest KrakenDEndpoint first.
use mathlib.Core.List.{Perm}
use mathlib.Core.List.Perm
use kraken_d_operator.Base.{
  Any, ℕ, suc, Bool, true, false, List, [], ◌∷◌, ◌++◌, ◌≡◌, inl, inr, ◌⊎◌, refl, All, any,
  Bool-cases, arith, nat_eq,
}
use kraken_d_operator.Base.Texts.{Text, text_lt}
use kraken_d_operator.Route.Entries.{
  source_eq_lem, source_text, FlatEndpoint, served_before, sort_insert, sort_by, positions,
  serving_order,
}

pub text_lt-asym : (s t : Text) → text_lt s t ≡ true → text_lt t s ≡ false
text_lt-asym s [] h = ground arith
text_lt-asym [] (b ∷ t) h = refl
text_lt-asym (a ∷ s) (b ∷ t) h = ground (arith, text_lt-asym s t)

pub text_lt-trans_false :
    (s t u : Text) → text_lt s t ≡ false → text_lt t u ≡ false → text_lt s u ≡ false
text_lt-trans_false s t [] h k = refl
text_lt-trans_false s [] (c ∷ u) h k = ground arith
text_lt-trans_false [] (b ∷ t) (c ∷ u) h k = ground arith
text_lt-trans_false (a ∷ s) (b ∷ t) (c ∷ u) h k = ground (arith, text_lt-trans_false s t u)

text_lt-tie : (s t : Text) → text_lt s t ≡ false → text_lt t s ≡ false → s ≡ t
text_lt-tie [] [] h k = refl
text_lt-tie [] (b ∷ t) h k = ground arith
text_lt-tie (a ∷ s) [] h k = ground arith
text_lt-tie (a ∷ s) (b ∷ t) h k = ground (arith, text_lt-tie s t)

-- A namespace has no slash.
abbrev pub IsNamed : FlatEndpoint → Type 0
IsNamed fe = any (λ c. nat_eq c b'/') fe.source.namespace ≡ false

append-slash_injective :
    (s t a b : Text)
    → any (λ c. nat_eq c b'/') s ≡ false
    → any (λ c. nat_eq c b'/') t ≡ false
    → s ++ b'/' ∷ a ≡ t ++ b'/' ∷ b
    → (s ≡ t) × (a ≡ b)
append-slash_injective [] [] a b h k e = ground arith
append-slash_injective [] (d ∷ t) a b h k e = ground arith
append-slash_injective (c ∷ s) [] a b h k e = ground arith
append-slash_injective (c ∷ s) (d ∷ t) a b h k e = ground (arith, append-slash_injective s t a b)

source_text-injective :
    (x y : FlatEndpoint)
    → IsNamed x
    → IsNamed y
    → source_text x.source ≡ source_text y.source
    → x.source ≡ y.source
source_text-injective x y h k e =
    let p =
      append-slash_injective x.source.namespace y.source.namespace x.source.name y.source.name h k
        e in
    ground (arith, p.0, p.1)

pub served_before-asym : (x y : FlatEndpoint) → served_before x y ≡ true → served_before y x ≡ false
unfolding served_before
served_before-asym x y h = ground (
  arith,
  text_lt-asym (source_text x.source) (source_text y.source),
  source_eq_lem x.source y.source,
  source_eq_lem y.source x.source,
)

pub served_before-trans_false :
    (x y z : FlatEndpoint)
    → IsNamed x
    → IsNamed y
    → IsNamed z
    → served_before x y ≡ false
    → served_before y z ≡ false
    → served_before x z ≡ false
unfolding served_before
served_before-trans_false x y z a b c h k = ground (
  arith,
  text_lt-trans_false (source_text x.source) (source_text y.source) (source_text z.source),
  text_lt-tie (source_text x.source) (source_text y.source),
  source_text-injective x y a b,
  source_eq_lem x.source y.source,
  source_eq_lem y.source z.source,
  source_eq_lem x.source z.source,
)

module _ {A : Type 0} (before : A → A → Bool) where
  -- No element stands before an earlier one.
  abbrev pub IsSorted : List A → Type 0
  IsSorted [] = Unit
  IsSorted (x ∷ xs) = All (λ y. before y x ≡ false) xs × IsSorted xs

  sort_insert-Perm : (x : A) (ys : List A) → Perm (sort_insert before x ys) (x ∷ ys)
  sort_insert-Perm x [] = Perm.refl (x ∷ [])
  sort_insert-Perm x (y ∷ ys) = elim (Bool-cases (before y x)) [
    | inl later ↦ rw later (Perm.trans (Perm.cons y (sort_insert-Perm x ys)) (Perm.swap x y ys))
    | inr here ↦ rw here (Perm.refl (x ∷ y ∷ ys))
  ]

  sort_insert-Any :
      (P : A → Type 0) (x : A) (xs : List A) → P x ⊎ Any P xs → Any P (sort_insert before x xs)
  sort_insert-Any P x [] h = h
  sort_insert-Any P x (y ∷ ys) h = elim (Bool-cases (before y x)) [
    | inl later ↦ rw later (elim h [
      | inl p ↦ inr (sort_insert-Any P x ys (inl p))
      | inr (inl p) ↦ inl p
      | inr (inr p) ↦ inr (sort_insert-Any P x ys (inr p))
    ])
    | inr here ↦ rw here h
  ]

  -- Sorting keeps every element, and adds none.
  pub sort_by-Any : (P : A → Type 0) (xs : List A) → Any P xs → Any P (sort_by before xs)
  sort_by-Any P [] h = h
  sort_by-Any P (x ∷ xs) (inl p) = sort_insert-Any P x (sort_by before xs) (inl p)
  sort_by-Any P (x ∷ xs) (inr h) =
      sort_insert-Any P x (sort_by before xs) (inr (sort_by-Any P xs h))

  sort_insert-Any_cases :
      (P : A → Type 0) (x : A) (xs : List A) → Any P (sort_insert before x xs) → P x ⊎ Any P xs
  sort_insert-Any_cases P x [] h = h
  sort_insert-Any_cases P x (y ∷ ys) h = elim (Bool-cases (before y x)) [
    | inl later ↦ moved (sort_insert-Any_cases P x ys) (rw later at h)
    | inr here ↦ rw here at h
  ]
    where
      moved :
          (Any P (sort_insert before x ys) → P x ⊎ Any P ys)
          → P y ⊎ Any P (sort_insert before x ys)
          → P x ⊎ (P y ⊎ Any P ys)
      moved f (inl q) = inr (inl q)
      moved f (inr k) = elim (f k) [ inl p ↦ inl p | inr r ↦ inr (inr r) ]

  pub Any-sort_by : (P : A → Type 0) (xs : List A) → Any P (sort_by before xs) → Any P xs
  Any-sort_by P [] h = h
  Any-sort_by P (x ∷ xs) h = elim (sort_insert-Any_cases P x (sort_by before xs) h) [
    | inl p ↦ inl p
    | inr k ↦ inr (Any-sort_by P xs k)
  ]

  pub sort_by-Perm : (xs : List A) → Perm (sort_by before xs) xs
  sort_by-Perm [] = Perm.refl []
  sort_by-Perm (x ∷ xs) =
      Perm.trans (sort_insert-Perm x (sort_by before xs)) (Perm.cons x (sort_by-Perm xs))

  module _ (P : A → Type 0) (asym : (x y : A) → before x y ≡ true → before y x ≡ false)
      (trans_false : (x y z : A)
        → P x
        → P y
        → P z
        → before x y ≡ false
        → before y z ≡ false
        → before x z ≡ false) where
    sort_insert-All :
        (Q : A → Type 0) (x : A) (ys : List A) → Q x → All Q ys → All Q (sort_insert before x ys)
    sort_insert-All Q x [] p h = (p, tt)
    sort_insert-All Q x (y ∷ ys) p (q, h) = elim (Bool-cases (before y x)) [
      | inl later ↦ rw later (q, sort_insert-All Q x ys p h)
      | inr here ↦ rw here (p, (q, h))
    ]

    sort_insert-IsSorted :
        (x : A) (ys : List A) → P x → All P ys → IsSorted ys → IsSorted (sort_insert before x ys)
    sort_insert-IsSorted x [] p h s = (tt, tt)
    sort_insert-IsSorted x (y ∷ ys) p (q, h) (a, s) = elim (Bool-cases (before y x)) [
      | inl later ↦ rw later (
        sort_insert-All (λ z. before z y ≡ false) x ys (asym y x later) a,
        sort_insert-IsSorted x ys p h s,
      )
      | inr here ↦ rw here ((here, All-zip here ys h a), (a, s))
    ]
      where
        All-zip :
            before y x ≡ false
            → (zs : List A) → All P zs
            → All (λ z. before z y ≡ false) zs
            → All (λ z. before z x ≡ false) zs
        All-zip here [] h a = tt
        All-zip here (z ∷ zs) (r, h) (b, a) = (trans_false z y x r q p b here, All-zip here zs h a)

    sort_by-All : (xs : List A) → All P xs → All P (sort_by before xs)
    sort_by-All [] h = tt
    sort_by-All (x ∷ xs) (p, h) = sort_insert-All P x (sort_by before xs) p (sort_by-All xs h)

    pub sort_by-IsSorted : (xs : List A) → All P xs → IsSorted (sort_by before xs)
    sort_by-IsSorted [] h = tt
    sort_by-IsSorted (x ∷ xs) (p, h) =
        sort_insert-IsSorted x (sort_by before xs) p (sort_by-All xs h) (sort_by-IsSorted xs h)

positions-All :
    (P : FlatEndpoint → Type 0) (i : ℕ) (flat : List FlatEndpoint)
    → All P flat
    → All (λ p. P p.1) (positions i flat)
positions-All P i [] h = tt
positions-All P i (fe ∷ flat) (p, h) = (p, positions-All P (suc i) flat h)

abbrev pub served_before_at : ℕ × FlatEndpoint → ℕ × FlatEndpoint → Bool
served_before_at x y = served_before x.1 y.1

-- For entries whose namespaces have no slash, serving order lists every position once with its
-- entry, and no entry stands behind one that it is served before.
serving_order-IsSorted :
    (flat : List FlatEndpoint)
    → All IsNamed flat
    → IsSorted served_before_at (serving_order flat) × Perm (serving_order flat) (positions 0 flat)
unfolding serving_order
serving_order-IsSorted flat h = (
  sort_by-IsSorted served_before_at (λ p. IsNamed p.1) (λ x y. served_before-asym x.1 y.1)
      (λ x y z a b c. served_before-trans_false x.1 y.1 z.1 a b c) (positions 0 flat)
      (positions-All IsNamed 0 flat h),
  sort_by-Perm served_before_at (positions 0 flat),
)
