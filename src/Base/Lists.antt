-- ===== src/Base/Lists.antt =====
-- Lists measured by native numbers, list predicates by recursion, and Go's `slices` helpers.
use Prim.Native.Nat.{ℕ, suc, ◌+◌}
use mathlib.Core.Path.{◌≡◌, refl}
use mathlib.Core.Logic.{◌⊎◌, inl, inr}
use mathlib.Core.Bool.{Bool, false, ◌||◌}
use mathlib.Core.List.{List, [], ◌∷◌, ◌++◌}
use native.Mathlib.Omega.{arith}
use kraken_d_operator.Base.Tests.{if◌then◌else◌, Bool-cases}

module _ {ℓ} {A : Type ℓ} where
  abbrev pub length : List A → ℕ
  length [] = 0
  length (x ∷ xs) = suc (length xs)

  -- `slices.ContainsFunc`
  abbrev pub any : (A → Bool) → List A → Bool
  any p [] = false
  any p (x ∷ xs) = p x || any p xs

  -- `slices.DeleteFunc`
  abbrev pub delete_func : (A → Bool) → List A → List A
  delete_func p [] = []
  delete_func p (x ∷ xs) = let rest = delete_func p xs in if p x then rest else x ∷ rest

  pub length-append : (xs ys : List A) → length (xs ++ ys) ≡ length xs + length ys
  length-append [] ys = omega arith
  length-append (x ∷ xs) ys = omega (arith, length-append xs ys)

module _ {ℓ κ} {A : Type ℓ} (P : A → Type κ) where
  abbrev pub All : List A → Type κ
  All [] = Unit
  All (x ∷ xs) = P x × All xs

  pub All-append : (xs ys : List A) → All xs → All ys → All (xs ++ ys)
  All-append [] ys _ k = k
  All-append (x ∷ xs) ys (p, h) k = (p, All-append xs ys h k)

module _ {ℓ} {A : Type ℓ} (P : A → Type 0) where
  -- "There is" with the place kept.
  abbrev pub Any : List A → Type 0
  Any [] = ⊥
  Any (x ∷ xs) = P x ⊎ Any xs

  pub Any-append_left : (xs ys : List A) → Any xs → Any (xs ++ ys)
  Any-append_left [] ys h = absurd h
  Any-append_left (x ∷ xs) ys (inl p) = inl p
  Any-append_left (x ∷ xs) ys (inr h) = inr (Any-append_left xs ys h)

  pub Any-append_right : (xs ys : List A) → Any ys → Any (xs ++ ys)
  Any-append_right [] ys h = h
  Any-append_right (x ∷ xs) ys h = inr (Any-append_right xs ys h)

  pub Any-append_cases : (xs ys : List A) → Any (xs ++ ys) → Any xs ⊎ Any ys
  Any-append_cases [] ys h = inr h
  Any-append_cases (x ∷ xs) ys (inl p) = inl (inl p)
  Any-append_cases (x ∷ xs) ys (inr h) = elim (Any-append_cases xs ys h) [
    | inl l ↦ inl (inr l)
    | inr r ↦ inr r
  ]

-- What is left after a deletion does not satisfy the test.
pub delete_func-Any {ℓ} :
    {A : Type ℓ} (p : A → Bool) (P : A → Type 0) (xs : List A)
    → Any P (delete_func p xs)
    → Any (λ x. P x × (p x ≡ false)) xs
delete_func-Any p P [] h = absurd h
delete_func-Any p P (x ∷ xs) h = elim (Bool-cases (p x)) [
  | inl gone ↦ inr (delete_func-Any p P xs (rw gone at h))
  | inr kept ↦ elim (let u : P x ⊎ Any P (delete_func p xs) = rw kept at h in u) [
    | inl q ↦ inl (q, kept)
    | inr r ↦ inr (delete_func-Any p P xs r)
  ]
]

pub Any-delete_func {ℓ} :
    {A : Type ℓ} (P : A → Type 0) (p : A → Bool) (xs : List A)
    → ((x : A) → P x → p x ≡ false)
    → Any P xs
    → Any P (delete_func p xs)
Any-delete_func P p [] k h = h
Any-delete_func P p (x ∷ xs) k h = elim (Bool-cases (p x)) [
  | inl gone ↦
      rw gone (elim h [ inl q ↦ ground (arith, k x q, gone) | inr r ↦ Any-delete_func P p xs k r ])
  | inr kept ↦ rw kept (elim h [ inl q ↦ inl q | inr r ↦ inr (Any-delete_func P p xs k r) ])
]

pub Any-elim {ℓ} :
    {A : Type ℓ} (P : A → Type 0) (Q : Type 0) (xs : List A) → ((x : A) → P x → Q) → Any P xs → Q
Any-elim P Q [] f h = absurd h
Any-elim P Q (x ∷ xs) f (inl p) = f x p
Any-elim P Q (x ∷ xs) f (inr h) = Any-elim P Q xs f h

module _ {ℓ} {A : Type ℓ} where
  pub Any-map : (P Q : A → Type 0) (xs : List A) → ((x : A) → P x → Q x) → Any P xs → Any Q xs
  Any-map P Q [] f h = absurd h
  Any-map P Q (x ∷ xs) f (inl p) = inl (f x p)
  Any-map P Q (x ∷ xs) f (inr h) = inr (Any-map P Q xs f h)

  pub All-map : (P Q : A → Type 0) (xs : List A) → ((x : A) → P x → Q x) → All P xs → All Q xs
  All-map P Q [] f h = tt
  All-map P Q (x ∷ xs) f (p, h) = (f x p, All-map P Q xs f h)

  pub All-at : (P Q : A → Type 0) (xs : List A) → All P xs → Any Q xs → Any (λ x. P x × Q x) xs
  All-at P Q [] h k = absurd k
  All-at P Q (x ∷ xs) (p, h) (inl q) = inl (p, q)
  All-at P Q (x ∷ xs) (p, h) (inr k) = inr (All-at P Q xs h k)

pub All-delete_func {ℓ} :
    {A : Type ℓ} (P : A → Type 0) (p : A → Bool) (xs : List A) → All P xs → All P (delete_func p xs)
All-delete_func P p [] h = tt
All-delete_func P p (x ∷ xs) (q, h) = elim (Bool-cases (p x)) [
  | inl gone ↦ rw gone (All-delete_func P p xs h)
  | inr kept ↦ rw kept (q, All-delete_func P p xs h)
]

module _ {A : Type 0} where
  -- Every element of a list is one of its elements.
  pub All-self : (xs : List A) → All (λ x. Any (λ y. y ≡ x) xs) xs
  All-self [] = tt
  All-self (x ∷ xs) = (inl refl, All-map _ _ xs (λ y h. inr h) (All-self xs))

  pub All-of_mem : (P : A → Type 0) (xs : List A) → ((x : A) → Any (λ y. y ≡ x) xs → P x) → All P xs
  All-of_mem P xs f = All-map _ P xs f (All-self xs)

  -- A law of an element holds somewhere in a list that has the element.
  pub Any-of_mem : (Q : A → Type 0) (xs : List A) (o : A) → Any (λ x. x ≡ o) xs → Q o → Any Q xs
  Any-of_mem Q xs o m q = Any-map _ Q xs (λ x e. rw e q) m

  pub Any-of_subset :
      (Q : A → Type 0) (xs ys : List A) → All (λ x. Any (λ y. y ≡ x) ys) xs → Any Q xs → Any Q ys
  Any-of_subset Q [] ys m h = absurd h
  Any-of_subset Q (x ∷ xs) ys (p, m) (inl q) = Any-of_mem Q ys x p q
  Any-of_subset Q (x ∷ xs) ys (p, m) (inr h) = Any-of_subset Q xs ys m h
