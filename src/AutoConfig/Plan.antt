-- ===== src/AutoConfig/Plan.antt =====
-- What an AutoConfig's pass writes and deletes: `planEndpoints`, `writeEndpoint` and
-- `deleteEndpoint` of operator/internal/controller/autoconfig_endpoints.go and the loops of
-- `reconcileEndpoints`, where nobody else writes. The endpoints that the AutoConfig controls are a
-- map by name. Parameters are the type of a spec, `json.Marshal`, `json.Unmarshal` with the type of
-- the values, `reflect.DeepEqual`, and `encode`: the spec as the API server, which re-encodes raw
-- JSON, keeps it.
-- `rejects` is the writes that the config check, a route collision or the API server refuses, and
-- `held` also stands for a failure before the writes. `apply_plan` is a pass without failures.
pub mod Writes
pub mod Settles
pub mod Held
pub mod Passes
use kraken_d_operator.Base.{
  Bool, true, false, ◌&&◌, ◌||◌, not, any, Option, none, some, List, [], ◌∷◌, ◌++◌, map,
  if◌then◌else◌,
}
use kraken_d_operator.Base.Maps.{Eq, lookup, insert, delete}
use kraken_d_operator.Base.Texts.{Text, codes, text_eq, text_lt, text_key}
use kraken_d_operator.Route.Entries.{sort_by}

abbrev pub Labels : Type 0
Labels = List (Text × Text)

abbrev same_label : Text → Option Text → Bool
same_label v none = false
same_label v (some cur) = text_eq cur v

unfoldable pub labels_contain : Labels → Labels → Bool
labels_contain have [] = true
labels_contain have ((k, v) ∷ want) = same_label v (lookup k have) && labels_contain have want

-- `maps.Copy`
unfoldable pub copy_labels : Labels → Labels → Labels
copy_labels have [] = have
copy_labels have ((k, v) ∷ want) = copy_labels (insert k v have) want

module _ (Spec Value : Type 0) (marshal : Spec → Option Text) (unmarshal : Text → Option Value)
    (deep_equal : Value → Value → Bool) (encode : Spec → Spec) where
  abbrev equal_values : Option Value → Option Value → Bool
  equal_values none b = false
  equal_values (some a) none = false
  equal_values (some a) (some b) = deep_equal a b

  abbrev parsed : Option Text → Option Value
  parsed none = none
  parsed (some raw) = unmarshal raw

  -- the JSON value of a spec, by way of its JSON text
  unfoldable pub json_value : Spec → Option Value
  json_value spec = parsed (marshal spec)

  abbrev pub endpoint_spec_equal : Spec → Spec → Bool
  endpoint_spec_equal a b = equal_values (json_value a) (json_value b)

  pub record Endpoint : Type 0 where
    pub name : Text
    pub labels : Labels
    pub spec : Spec

  abbrev pub Controlled : Type 0
  Controlled = List (Text × Endpoint)

  abbrev pub is_settled : Endpoint → Option Endpoint → Bool
  is_settled ep none = false
  is_settled ep (some cur) =
      labels_contain cur.labels ep.labels && endpoint_spec_equal cur.spec ep.spec

  abbrev pub is_wanted : List Endpoint → Text → Bool
  is_wanted desired name = any (λ ep. text_eq ep.name name) desired

  unfoldable pub writes_of : Controlled → List Endpoint → List Endpoint
  writes_of by_name [] = []
  writes_of by_name (ep ∷ desired) =
      let rest = writes_of by_name desired in
      if not (is_settled ep (lookup ep.name by_name)) then ep ∷ rest else rest

  -- the loop over the sorted names
  unfoldable pub stale_of : List Endpoint → Controlled → Controlled
  stale_of desired [] = []
  stale_of desired ((name, cur) ∷ sorted) =
      let rest = stale_of desired sorted in
      if not (is_wanted desired name) then (name, cur) ∷ rest else rest

  -- the writes, and the stale endpoints by name
  unfoldable pub plan_endpoints : Controlled → List Endpoint → List Endpoint × Controlled
  unfolding writes_of stale_of
  plan_endpoints controlled desired =
      (writes_of controlled desired, stale_of desired (sort_by (λ a b. text_lt a.0 b.0) controlled))

  -- the endpoint that a created object starts from
  abbrev pub or_created : Text → Spec → Option Endpoint → Endpoint
  or_created name zero_spec none = record { name = name; labels = []; spec = zero_spec }
  or_created name zero_spec (some live) = live

  -- what the function that `CreateOrUpdate` gets does to the live endpoint
  abbrev pub merged : Endpoint → Endpoint → Endpoint
  merged ep live = record {
    name = live.name;
    labels = copy_labels live.labels ep.labels;
    spec = if not (endpoint_spec_equal live.spec ep.spec) then ep.spec else live.spec;
  }

  -- the endpoint as the API server keeps it
  abbrev pub stored : Endpoint → Endpoint
  stored ep = record ep { spec = encode ep.spec }

  unfoldable pub write_endpoint : Spec → Controlled → Endpoint → Controlled
  write_endpoint zero_spec controlled ep =
      insert ep.name (stored (merged ep (or_created ep.name zero_spec (lookup ep.name controlled))))
        controlled

  unfoldable pub write_all : Spec → Controlled → List Endpoint → Controlled
  unfolding write_endpoint
  write_all zero_spec controlled [] = controlled
  write_all zero_spec controlled (ep ∷ writes) =
      write_all zero_spec (write_endpoint zero_spec controlled ep) writes

  -- the deletions of the stale endpoints
  unfoldable pub delete_all : Controlled → Controlled → Controlled
  delete_all controlled [] = controlled
  delete_all controlled ((name, cur) ∷ stale) = delete_all (delete name controlled) stale

  -- a pass whose writes and deletions all succeed
  unfoldable pub apply_plan : Spec → Controlled → List Endpoint → Controlled
  unfolding plan_endpoints write_all delete_all
  apply_plan zero_spec controlled desired =
      let (writes, stale) = plan_endpoints controlled desired in
      delete_all (write_all zero_spec controlled writes) stale

  -- the loops of a pass, in which the check or the API server rejects some writes and some deletions
  -- fail; the pass is held when an operation failed before
  unfoldable pub write_each : Spec → (Endpoint → Bool) → Controlled → List Endpoint → Controlled
  unfolding write_endpoint
  write_each zero_spec rejects controlled [] = controlled
  write_each zero_spec rejects controlled (ep ∷ writes) =
      write_each zero_spec rejects
        (if rejects ep then controlled else write_endpoint zero_spec controlled ep) writes

  unfoldable pub delete_each : (Endpoint → Bool) → Controlled → Controlled → Controlled
  delete_each undeleted controlled [] = controlled
  delete_each undeleted controlled ((name, cur) ∷ stale) =
      delete_each undeleted (if undeleted cur then controlled else delete name controlled) stale

  unfoldable pub reconcile_endpoints :
      Spec → (Endpoint → Bool) → (Endpoint → Bool) → Bool → Controlled → List Endpoint → Controlled
  unfolding plan_endpoints write_each delete_each
  reconcile_endpoints zero_spec rejects undeleted held controlled desired =
      let (writes, stale) = plan_endpoints controlled desired in
      let after = write_each zero_spec rejects controlled writes in
      if not held && not (any rejects writes) then delete_each undeleted after stale else after
