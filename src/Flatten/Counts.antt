-- ===== src/Flatten/Counts.antt =====
-- How many entries of a key a list has, and what its order does not change.
use mathlib.Core.List.{Permᴰ}
use kraken_d_operator.Base.{
  ℕ, ◌+◌, ◌≤◌, ◌≡◌, Bool, false, List, [], ◌∷◌, ◌++◌, inl, inr, refl, ◌∙◌, ap, arith, All, All-at,
  Any, Any-elim, All-of_mem, length,
}
use kraken_d_operator.Route.Entries.{FlatEndpoint, sort_insert, sort_by}
use kraken_d_operator.Route.Entries.Order.{Any-sort_by}
use kraken_d_operator.Flatten.{EndpointKey, same_key, endpoint_key, EntryGroups, key_of}
use kraken_d_operator.Flatten.Groups.{of_key}

pub Any-Permᴰ {ℓ} :
    {A : Type ℓ} (P : A → Type 0) (xs ys : List A) → Permᴰ xs ys → Any P xs → Any P ys
Any-Permᴰ P _ _ Permᴰ.nil h = h
Any-Permᴰ P _ _ (Permᴰ.cons e p) (inl q) = inl (rw (← e) q)
Any-Permᴰ P _ _ (Permᴰ.cons e p) (inr h) = inr (Any-Permᴰ P _ _ p h)
Any-Permᴰ P _ _ (Permᴰ.swap d e) (inl q) = inr (inl (rw (← d) q))
Any-Permᴰ P _ _ (Permᴰ.swap d e) (inr (inl q)) = inl (rw (← e) q)
Any-Permᴰ P _ _ (Permᴰ.swap d e) (inr (inr h)) = inr (inr h)
Any-Permᴰ P _ _ (Permᴰ.trans p q) h = Any-Permᴰ P _ _ q (Any-Permᴰ P _ _ p h)

-- What a sum over the groups does not see: their order.
pub length-Permᴰ :
    (f : EndpointKey × List FlatEndpoint → ℕ) (sum : EntryGroups → ℕ)
    → ((g : EndpointKey × List FlatEndpoint) (gs : EntryGroups) → sum (g ∷ gs) ≡ f g + sum gs)
    → (xs ys : EntryGroups) → Permᴰ xs ys
    → sum xs ≡ sum ys
length-Permᴰ f sum step _ _ Permᴰ.nil = refl
length-Permᴰ f sum step _ _ (Permᴰ.cons {a} {b} {l₁ = xs} {l₂ = ys} e p) =
    omega (arith, step a xs, step b ys, ap f e, length-Permᴰ f sum step xs ys p)
length-Permᴰ f sum step _ _ (Permᴰ.swap {a} {b} {a' = c} {b' = d} {l} e h) =
    omega (arith, step a (b ∷ l), step b l, step c (d ∷ l), step d l, ap f e, ap f h)
length-Permᴰ f sum step _ _ (Permᴰ.trans p q) =
    length-Permᴰ f sum step _ _ p ∙ length-Permᴰ f sum step _ _ q

pub of_key-append :
    (k : EndpointKey) (xs ys : List FlatEndpoint) → of_key k (xs ++ ys) ≡ of_key k xs ++ of_key k ys
unfolding of_key
of_key-append k [] ys = refl
of_key-append k (x ∷ xs) ys = ground (arith, of_key-append k xs ys)

pub of_key-none :
    (k : EndpointKey) (xs : List FlatEndpoint)
    → All (λ x. same_key (key_of x) k ≡ false) xs
    → of_key k xs ≡ []
unfolding of_key
of_key-none k [] h = refl
of_key-none k (x ∷ xs) (p, h) = rw p (of_key-none k xs h)

pub length-of_key : (k : EndpointKey) (xs : List FlatEndpoint) → length (of_key k xs) ≤ length xs
unfolding of_key
length-of_key k [] = omega arith
length-of_key k (x ∷ xs) = ground (arith, length-of_key k xs)

pub length-sort_insert :
    (k : EndpointKey) (before : FlatEndpoint → FlatEndpoint → Bool) (x : FlatEndpoint)
    (xs : List FlatEndpoint)
    → length (of_key k (sort_insert before x xs)) ≡ length (of_key k (x ∷ xs))
unfolding of_key
length-sort_insert k before x [] = refl
length-sort_insert k before x (y ∷ ys) = ground (arith, length-sort_insert k before x ys)

pub length-sort_by :
    (k : EndpointKey) (before : FlatEndpoint → FlatEndpoint → Bool) (xs : List FlatEndpoint)
    → length (of_key k (sort_by before xs)) ≡ length (of_key k xs)
unfolding of_key
length-sort_by k before [] = refl
length-sort_by k before (x ∷ xs) =
    length-sort_insert k before x (sort_by before xs)
    ∙ (unfold of_key in ground (arith, length-sort_by k before xs))

pub All-sort_by :
    (P : FlatEndpoint → Type 0) (before : FlatEndpoint → FlatEndpoint → Bool)
    (xs : List FlatEndpoint)
    → All P xs
    → All P (sort_by before xs)
All-sort_by P before xs h = All-of_mem P (sort_by before xs) (λ x m.
    Any-elim _ (P x) xs (λ y (p, e). rw (← e) p)
      (All-at P (λ y. y ≡ x) xs h (Any-sort_by before (λ y. y ≡ x) xs m)))
