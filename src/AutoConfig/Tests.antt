-- ===== src/AutoConfig/Tests.antt =====
-- The theorems about the generated endpoints at concrete entries, and tests.
use kraken_d_operator.Base.{
  inl, inr, Bool-cases, false, Option, some, nat_eq, ℕ, Bool, true, ◌&&◌, ◌≡◌, List, [], ◌∷◌, ◌++◌,
  refl, length, leb, ◌+◌, map, if◌then◌else◌,
}
use kraken_d_operator.Base.Texts.{Text, codes, text_eq}
use kraken_d_operator.Route.Entries.{EndpointEntry}
use kraken_d_operator.AutoConfig.Generate.{GenerateInput, entry_key, generate, endpoint_name}
use kraken_d_operator.AutoConfig.Generate.Distinct.{AllApart, generate-AllApart}
use kraken_d_operator.AutoConfig.Generate.Accounts.{Accounted, generate-Accounted}
use kraken_d_operator.AutoConfig.Plan.{
  Labels, Endpoint, Controlled, json_value, plan_endpoints, reconcile_endpoints, labels_contain,
}
use kraken_d_operator.AutoConfig.Plan.Passes.{reconcile_endpoints-settles}
use kraken_d_operator.AutoConfig.Plan.Held.{IsKept, reconcile_endpoints-IsKept}

-- `unicode.ToLower` on ASCII, no schemas, and quotes for `%q`.
abbrev ascii_lower : ℕ → ℕ
ascii_lower c = if leb b'A' c && leb c b'Z' then c + 32 else c

abbrev no_schemas : EndpointEntry → Bool × List Text
no_schemas e = (true, [])

abbrev quoted : Text → Text
quoted s = b'"' ∷ (s ++ b'"' ∷ [])

abbrev at : Text → EndpointEntry
at path = record { endpoint = path; method = codes "GET"; others = codes "{}" }

-- The second operationId gives the first one's name, and the third entry has the first one's path.
abbrev shop_input : GenerateInput
shop_input = record {
  auto_config_name = codes "shop";
  namespace = codes "ns";
  operation_ids =
      (codes "/users:GET", codes "listUsers")
      ∷ (codes "/people:GET", codes "list.users")
      ∷ (codes "/folk:GET", codes "ListUsers!")
      ∷ [];
}

abbrev shop_entries : List EndpointEntry
shop_entries =
    at (codes "/users") ∷ at (codes "/folk") ∷ at (codes "/users") ∷ at (codes "/Carts/{id}") ∷ []

shop_names :
    let out = (generate Bool ascii_lower quoted no_schemas shop_input shop_entries).0 in
    (map (λ g. g.name) out.endpoints ≡ codes "shop-listusers" ∷ codes "shop-get-carts-id" ∷ [])
    × (length out.skipped ≡ 2)
unfolding generate entry_key endpoint_name
shop_names = (refl, refl)

generate-AllApart_example :
    AllApart Bool ascii_lower quoted no_schemas shop_input
      (generate Bool ascii_lower quoted no_schemas shop_input shop_entries).0.endpoints
generate-AllApart_example =
    generate-AllApart Bool ascii_lower quoted no_schemas shop_input shop_entries

generate-Accounted_example :
    Accounted Bool ascii_lower quoted no_schemas shop_input [] shop_entries
      (generate Bool ascii_lower quoted no_schemas shop_input shop_entries).0.endpoints
      (generate Bool ascii_lower quoted no_schemas shop_input shop_entries).0.skipped
generate-Accounted_example =
    generate-Accounted Bool ascii_lower quoted no_schemas shop_input shop_entries

-- A spec is its JSON text, in which spaces do not count, and which the API server keeps without
-- them. The pass updates `a`, creates `b` and deletes `old`.
abbrev no_spaces : Text → Text
no_spaces [] = []
no_spaces (c ∷ s) = let rest = no_spaces s in if nat_eq c b' ' then rest else c ∷ rest

abbrev text_of : Text → Option Text
text_of spec = some spec

abbrev value_of : Text → Option Text
value_of raw = some (no_spaces raw)

no_spaces_again : (s : Text) → no_spaces (no_spaces s) ≡ no_spaces s
no_spaces_again [] = refl
no_spaces_again (c ∷ s) = elim (Bool-cases (nat_eq c b' ')) [
  | inl space ↦ rw space (no_spaces_again s)
  | inr other ↦ rw (other, other) (rw (no_spaces_again s) refl)
]

abbrev named : Text → Labels → Text → Endpoint Text Text text_of value_of text_eq no_spaces
named name labels spec = record { name = name; labels = labels; spec = spec }

abbrev gateway_label : Labels
gateway_label = (codes "gateway", codes "main") ∷ []

abbrev two_controlled : Controlled Text Text text_of value_of text_eq no_spaces
two_controlled =
    (codes "old", named (codes "old") [] (codes "7"))
    ∷ (codes "a", named (codes "a") ((codes "team", codes "web") ∷ []) (codes "1"))
    ∷ []

abbrev two_desired : List (Endpoint Text Text text_of value_of text_eq no_spaces)
two_desired =
    named (codes "a") gateway_label (codes "[1, 2]")
    ∷ named (codes "b") gateway_label (codes "2 ")
    ∷ []

two_desired_plan :
    let p =
      plan_endpoints Text Text text_of value_of text_eq no_spaces two_controlled two_desired in
    (length p.0 ≡ 2) × (map (λ g. g.0) p.1 ≡ codes "old" ∷ [])
unfolding plan_endpoints labels_contain
two_desired_plan = (refl, refl)

abbrev none_of : Endpoint Text Text text_of value_of text_eq no_spaces → Bool
none_of ep = false

json_again :
    (spec : Text)
    → json_value Text Text text_of value_of text_eq no_spaces (no_spaces spec)
      ≡ json_value Text Text text_of value_of text_eq no_spaces spec
unfolding json_value
json_again spec = rw (no_spaces_again spec) refl

reconcile_endpoints-settles_example :
    plan_endpoints Text Text text_of value_of text_eq no_spaces
      (reconcile_endpoints Text Text text_of value_of text_eq no_spaces [] none_of none_of false
        two_controlled two_desired)
      two_desired
    ≡ ([], [])
unfolding json_value
reconcile_endpoints-settles_example =
    reconcile_endpoints-settles Text Text text_of value_of text_eq no_spaces [] two_controlled
      two_desired ((refl, tt), refl, refl, ((refl, tt), refl, refl, tt)) (λ spec. json_again spec)

-- The write of `b` is rejected, so `old` stays.
abbrev rejects_b : Endpoint Text Text text_of value_of text_eq no_spaces → Bool
rejects_b ep = text_eq ep.name (codes "b")

reconcile_endpoints-IsKept_example :
    IsKept Text Text text_of value_of text_eq no_spaces two_desired
      (codes "old")
      (named (codes "old") [] (codes "7"))
      (reconcile_endpoints Text Text text_of value_of text_eq no_spaces [] rejects_b none_of false
        two_controlled two_desired)
unfolding plan_endpoints labels_contain
reconcile_endpoints-IsKept_example =
    reconcile_endpoints-IsKept Text Text text_of value_of text_eq no_spaces [] rejects_b none_of
      false two_controlled two_desired (codes "old") (named (codes "old") [] (codes "7")) refl refl
