-- ===== src/Route/Entries.antt =====
-- Entries of KrakenDEndpoints and their serving order: the types of
-- operator/internal/renderer/endpoints.go and types.go, `servedBefore`, and `servingOrder` and
-- `entryMethod` of routeadmit.go.
pub mod Order
use kraken_d_operator.Base.{
  ◌≡◌, ◌↔◌, arith, ℕ, zero, suc, ◌-◌, Bool, true, false, ◌&&◌, ◌||◌, not, Option, none, some, List,
  [], ◌∷◌, ◌++◌, leb, ltb, nat_eq, if◌then◌else◌,
}
use kraken_d_operator.Base.Int.{ℤ, ltb_ℤ}
use kraken_d_operator.Base.Texts.{Text, codes, text_eq, text_eq_iff, text_lt}
use kraken_d_operator.Base.Maps.{Eq}

-- `types.NamespacedName`
pub record NamespacedName : Type 0 where
  pub namespace : Text
  pub name : Text

abbrev pub source_eq : NamespacedName → NamespacedName → Bool
source_eq a b = text_eq a.namespace b.namespace && text_eq a.name b.name

pub source_eq_lem : (a b : NamespacedName) → (source_eq a b ≡ true) ↔ (a ≡ b)
source_eq_lem a b = ground (arith, text_eq_iff a.namespace b.namespace, text_eq_iff a.name b.name)

instance abbrev pub source_key : Eq NamespacedName
source_key = record { beq = source_eq; beq_iff = source_eq_lem }

-- `String()`
abbrev pub source_text : NamespacedName → Text
source_text n = n.namespace ++ b'/' ∷ n.name

-- The fields of `EndpointEntry` that routing reads.
-- `others` is the JSON text of the fields that are only passed on
pub record EndpointEntry : Type 0 where
  pub endpoint : Text
  pub method : Text
  pub others : Text

pub record FlatEndpoint : Type 0 where
  pub entry : EndpointEntry
  pub source : NamespacedName
  pub creation_timestamp_unix : ℤ
  pub index : ℕ

pub record EntryConflict : Type 0 where
  pub endpoint : Text
  pub method : Text
  pub winner : NamespacedName
  pub detail : Text

unfoldable pub served_before : FlatEndpoint → FlatEndpoint → Bool
served_before a b =
    if ltb_ℤ a.creation_timestamp_unix b.creation_timestamp_unix
    then true
    else if ltb_ℤ b.creation_timestamp_unix a.creation_timestamp_unix
    then false
    else if not (source_eq a.source b.source)
    then text_lt (source_text a.source) (source_text b.source)
    else ltb a.index b.index

-- `cmp.Or(cmp.Compare(a.Endpoint, b.Endpoint), …) < 0`
unfoldable pub conflict_before : EntryConflict → EntryConflict → Bool
conflict_before a b =
    if text_lt a.endpoint b.endpoint
    then true
    else if text_lt b.endpoint a.endpoint
    then false
    else if text_lt a.method b.method
    then true
    else if text_lt b.method a.method
    then false
    else text_lt (source_text a.winner) (source_text b.winner)

-- A stable sort by `before`: `sort.SliceStable`, and `sort.Slice` and `slices.SortFunc` where the
-- order of equal elements does not show.
module _ {ℓ} {A : Type ℓ} (before : A → A → Bool) where
  abbrev pub sort_insert : A → List A → List A
  sort_insert x [] = x ∷ []
  sort_insert x (y ∷ ys) =
      let rest = sort_insert x ys in if before y x then y ∷ rest else x ∷ y ∷ ys

  abbrev pub sort_by : List A → List A
  sort_by [] = []
  sort_by (x ∷ xs) = sort_insert x (sort_by xs)

-- the positions of a list, each with its element
abbrev pub positions {ℓ} : {A : Type ℓ} → ℕ → List A → List (ℕ × A)
positions i [] = []
positions i (x ∷ xs) = (i, x) ∷ positions (suc i) xs

-- the positions of `flat` in serving order, each with its entry
unfoldable pub serving_order : List FlatEndpoint → List (ℕ × FlatEndpoint)
unfolding served_before
serving_order flat = sort_by (λ x y. served_before x.1 y.1) (positions 0 flat)

abbrev upper_byte : ℕ → ℕ
upper_byte c = if leb b'a' c && leb c b'z' then c - 32 else c

abbrev pub to_upper : Text → Text
to_upper [] = []
to_upper (c ∷ s) = upper_byte c ∷ to_upper s

-- `strings.ToUpper`, exact for the ASCII methods that the CRD's enum admits
unfoldable pub entry_method : Text → Text
entry_method [] = codes "GET"
entry_method (c ∷ method) = to_upper (c ∷ method)
