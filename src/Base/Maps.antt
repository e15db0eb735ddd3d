-- ===== src/Base/Maps.antt =====
-- Go maps as association lists with at most one entry read for a key: `m[k]`, `m[k] = v` and
-- `delete(m, k)`. Keys are compared by an `Eq` instance.
use mathlib.Core.Path.{◌≡◌, refl, ap}
use mathlib.Core.Logic.{◌↔◌, inl, inr}
use mathlib.Core.Bool.{Bool, true}
use mathlib.Core.Option.{Option, none, some}
use mathlib.Core.List.{List, [], ◌∷◌}
use native.Mathlib.Omega.{arith}
use Prim.Native.String.{String}
use text.Mathlib.Text.{◌==◌ as str_eq}
use text.Mathlib.TextEquality.{eq_iff}
use Prim.Native.Nat.{ℕ}
use kraken_d_operator.Base.Tests.{Bool-cases, if◌then◌else◌, nat_eq}
use kraken_d_operator.Base.Lists.{Any}

pub record Eq {ℓ} (A : Type ℓ) : Type ℓ where
  pub beq : A → A → Bool
  pub beq_iff : (a b : A) → (beq a b ≡ true) ↔ (a ≡ b)

instance abbrev pub string_eq : Eq String
string_eq = record { beq = str_eq; beq_iff = eq_iff }

module _ {ℓ κ} {K : Type ℓ} {V : Type κ} ⦃e : Eq K⦄ where
  abbrev pub lookup : K → List (K × V) → Option V
  lookup k [] = none
  lookup k ((j, v) ∷ m) = if e.beq j k then some v else lookup k m

  abbrev pub insert : K → V → List (K × V) → List (K × V)
  insert k v [] = (k, v) ∷ []
  insert k v ((j, w) ∷ m) = if e.beq j k then (k, v) ∷ m else (j, w) ∷ insert k v m

  abbrev pub delete : K → List (K × V) → List (K × V)
  delete k [] = []
  delete k ((j, w) ∷ m) = let rest = delete k m in if e.beq j k then rest else (j, w) ∷ rest

  pub lookup-insert :
      (k j : K) (v : V) (m : List (K × V))
      → lookup j (insert k v m) ≡ (if e.beq k j then some v else lookup j m)
  lookup-insert k j v [] = refl
  lookup-insert k j v ((i, w) ∷ m) =
      ground (arith, e.beq_iff k j, e.beq_iff i k, e.beq_iff i j, lookup-insert k j v m)

  pub lookup-delete :
      (k j : K) (m : List (K × V))
      → lookup j (delete k m) ≡ (if e.beq k j then none else lookup j m)
  lookup-delete k j [] = ground arith
  lookup-delete k j ((i, w) ∷ m) =
      ground (arith, e.beq_iff k j, e.beq_iff i k, e.beq_iff i j, lookup-delete k j m)

pub nat_eq_lem : (a b : ℕ) → (nat_eq a b ≡ true) ↔ (a ≡ b)
nat_eq_lem a b = ground arith

instance abbrev pub nat_key : Eq ℕ
nat_key = record { beq = nat_eq; beq_iff = nat_eq_lem }

module _ {K V : Type 0} ⦃e : Eq K⦄ where
  -- No key stands twice.
  abbrev pub IsKeyed : List (K × V) → Type 0
  IsKeyed [] = Unit
  IsKeyed ((k, v) ∷ m) = (lookup k m ≡ none) × IsKeyed m

  pub insert-IsKeyed : (k : K) (v : V) (m : List (K × V)) → IsKeyed m → IsKeyed (insert k v m)
  insert-IsKeyed k v [] h = (refl, tt)
  insert-IsKeyed k v ((j, w) ∷ m) (new, h) = elim (Bool-cases (e.beq j k)) [
    | inl same ↦
        let eq = (e.beq_iff j k).0 same in
        rw same ((let free : lookup k m ≡ none = rw eq at new in free), h)
    | inr other ↦ rw other (
      rw (lookup-insert k j v m) (elim (Bool-cases (e.beq k j)) [
        | inl same ↦ ground (arith, other, same, e.beq_iff k j, e.beq_iff j k)
        | inr miss ↦ rw miss new
      ]),
      insert-IsKeyed k v m h,
    )
  ]

  -- An entry is the one that its key looks up.
  pub lookup-entry :
      (k : K) (v : V) (m : List (K × V)) → IsKeyed m → Any (λ g. g ≡ (k, v)) m → lookup k m ≡ some v
  lookup-entry k v [] h a = absurd a
  lookup-entry k v ((j, w) ∷ m) (new, h) (inl p) =
      let same : j ≡ k = ap (λ (g : K × V). g.0) p in
      let it : w ≡ v = ap (λ (g : K × V). g.1) p in rw ((e.beq_iff j k).1 same) (ap some it)
  lookup-entry k v ((j, w) ∷ m) (new, h) (inr a) =
      let there = lookup-entry k v m h a in
      elim (Bool-cases (e.beq j k)) [
        | inr other ↦ rw other there
        | inl same ↦
            let eq = (e.beq_iff j k).0 same in let free : lookup k m ≡ none = rw eq at new in cc
      ]

  pub entry-lookup :
      (k : K) (v : V) (m : List (K × V)) → lookup k m ≡ some v → Any (λ g. g ≡ (k, v)) m
  entry-lookup k v [] h = ground arith
  entry-lookup k v ((j, w) ∷ m) h = elim (Bool-cases (e.beq j k)) [
    | inl same ↦
        let eq = (e.beq_iff j k).0 same in
        let it : w ≡ v = ground (arith, (rw same at h)) in inl (λ i. (eq i, it i))
    | inr other ↦ inr (entry-lookup k v m (rw other at h))
  ]
