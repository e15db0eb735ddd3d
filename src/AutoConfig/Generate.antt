-- ===== src/AutoConfig/Generate.antt =====
-- operator/internal/autoconfig/generator.go: an endpoint for each entry that repeats no earlier
-- one. A text is its runes here. Parameters are `unicode.ToLower`, the quoting of `%q`, and
-- `SchemaClosure` with the type of its schemas.
pub mod Distinct
pub mod Accounts
pub mod Names
use mathlib.Core.List.{reverse}
use kraken_d_operator.Base.{
  ℕ, Bool, true, false, ◌&&◌, ◌||◌, not, Option, none, some, List, [], ◌∷◌, ◌++◌, leb, ltb, nat_eq,
  length, map, if◌then◌else◌,
}
use kraken_d_operator.Base.Maps.{Eq, lookup, insert}
use kraken_d_operator.Base.Texts.{Text, codes, text_eq, text_lt, text_key, trim_prefix}
use kraken_d_operator.Check.Verdicts.{take}
use kraken_d_operator.Config.Cluster.{or_empty_text}
use kraken_d_operator.Route.Entries.{EndpointEntry, sort_by}

abbrev pub label_auto_config : Text
label_auto_config = codes "gateway.krakend.io/autoconfig"

abbrev pub label_auto_generated : Text
label_auto_generated = codes "gateway.krakend.io/auto-generated"

abbrev pub max_name_length : ℕ
max_name_length = 253

-- `[a-z0-9-]`
abbrev pub is_name_rune : ℕ → Bool
is_name_rune c = (leb b'a' c && leb c b'z') || ((leb b'0' c && leb c b'9') || nat_eq c b'-')

abbrev pub drop_dashes : Text → Text
drop_dashes [] = []
drop_dashes (c ∷ s) = let rest = drop_dashes s in if nat_eq c b'-' then rest else c ∷ s

-- `strings.TrimRight(s, "-")` and `strings.Trim(s, "-")`
abbrev pub trim_right : Text → Text
trim_right s = reverse (drop_dashes (reverse s))

abbrev pub trim_dashes : Text → Text
trim_dashes s = trim_right (drop_dashes s)

-- runes are bytes here: a name is ASCII, as the methods of the CRD's enum and object names are
unfoldable pub limit_name : Text → Text
limit_name name =
    trim_right (if ltb max_name_length (length name) then take max_name_length name else name)

abbrev pub dash_other : Text → Text
dash_other [] = []
dash_other (c ∷ s) = (if is_name_rune c then c else b'-') ∷ dash_other s

abbrev pub drop_other : Text → Text
drop_other [] = []
drop_other (c ∷ s) = let rest = drop_other s in if is_name_rune c then c ∷ rest else rest

abbrev pub dash_slashes : Text → Text
dash_slashes [] = []
dash_slashes (c ∷ s) = (if nat_eq c b'/' then b'-' else c) ∷ dash_slashes s

unfoldable pub entry_key : EndpointEntry → Text
entry_key entry = entry.endpoint ++ b':' ∷ entry.method

abbrev pub operation_text : EndpointEntry → Text
operation_text entry = entry.method ++ b' ' ∷ entry.endpoint

-- the three maps of what was generated, each from a value to the operation that claimed it
pub record Seen : Type 0 where
  pub keys : List (Text × Text)
  pub operation_ids : List (Text × Text)
  pub names : List (Text × Text)

abbrev pub nothing_seen : Seen
nothing_seen = record { keys = []; operation_ids = []; names = [] }

pub record OperationIssue : Type 0 where
  pub entry : EndpointEntry
  pub operation_id : Text
  pub message : Text

abbrev pub same_key_as : Option Text → Text → Text
same_key_as none rest = rest
same_key_as (some by) rest = codes "same path and method as " ++ by

abbrev pub same_id_as : Bool → Text → Option Text → Text → Text
same_id_as named quoted none rest = rest
same_id_as true quoted (some by) rest =
    codes "operationId " ++ (quoted ++ (codes " is already used by " ++ by))
same_id_as false quoted (some by) rest = rest

abbrev pub same_name_as : Text → Option Text → Text
same_name_as quoted none = []
same_name_as quoted (some by) =
    codes "endpoint name " ++ (quoted ++ (codes " is already used by " ++ by))

-- why the entry repeats an earlier one, empty where it does not
unfoldable pub duplicate_of : (Text → Text) → Text → Text → Text → Seen → Text
duplicate_of quote key op_id name seen = same_key_as (lookup key seen.keys) (
    same_id_as (not (text_eq op_id [])) (quote op_id) (lookup op_id seen.operation_ids)
      (same_name_as (quote name) (lookup name seen.names)))

-- what is passed in with the entries
pub record GenerateInput : Type 0 where
  pub auto_config_name : Text
  pub namespace : Text
  pub operation_ids : List (Text × Text)

module _ (Schemas : Type 0) (lower : ℕ → ℕ) (quote : Text → Text)
    (closure : EndpointEntry → Schemas × List Text) where
  abbrev pub to_lower : Text → Text
  to_lower [] = []
  to_lower (c ∷ s) = lower c ∷ to_lower s

  unfoldable pub sanitize_name : Text → Text
  sanitize_name s = trim_dashes (dash_other (to_lower s))

  unfoldable pub sanitize_path : Text → Text
  sanitize_path path =
      trim_dashes (drop_other (dash_slashes (to_lower (trim_prefix path (codes "/")))))

  unfoldable pub operation_endpoint_name : Text → Text → Text
  unfolding limit_name sanitize_name
  operation_endpoint_name auto_config_name operation_id =
      limit_name (auto_config_name ++ b'-' ∷ sanitize_name operation_id)

  unfoldable pub endpoint_name : Text → Text → Text → Text → Text
  unfolding operation_endpoint_name limit_name sanitize_path
  endpoint_name auto_config_name operation_id method path =
      if not (text_eq operation_id [])
      then operation_endpoint_name auto_config_name operation_id
      else limit_name (auto_config_name ++ b'-' ∷ (to_lower method ++ b'-' ∷ sanitize_path path))

  pub record GeneratedEndpoint : Type 0 where
    pub name : Text
    pub namespace : Text
    pub labels : List (Text × Text)
    pub entry : EndpointEntry
    pub component_schemas : Schemas

  pub record Generating : Type 0 where
    pub endpoints : List GeneratedEndpoint
    pub skipped : List OperationIssue
    -- the missing schemas, each with the operation that used it first
    pub missing : List (Text × Text)

  abbrev pub insert_missing : List Text → Text → List (Text × Text) → List (Text × Text)
  insert_missing [] op missing = missing
  insert_missing (ref ∷ refs) op missing =
      insert_missing refs op
        (elim (lookup ref missing) [ none ↦ insert ref op missing | some by ↦ missing ])

  module _ (input : GenerateInput) where
    abbrev pub op_id_of : EndpointEntry → Text
    op_id_of entry = or_empty_text (lookup (entry_key entry) input.operation_ids)

    abbrev pub name_of : EndpointEntry → Text
    name_of entry =
        endpoint_name input.auto_config_name (op_id_of entry) entry.method entry.endpoint

    unfoldable pub see : EndpointEntry → Seen → Seen
    see entry seen = record {
      keys = insert (entry_key entry) (operation_text entry) seen.keys;
      operation_ids =
          if not (text_eq (op_id_of entry) [])
          then insert (op_id_of entry) (operation_text entry) seen.operation_ids
          else seen.operation_ids;
      names = insert (name_of entry) (operation_text entry) seen.names;
    }

    abbrev pub duplicate : EndpointEntry → Seen → Text
    duplicate entry seen =
        duplicate_of quote (entry_key entry) (op_id_of entry) (name_of entry) seen

    abbrev pub generated : EndpointEntry → GeneratedEndpoint
    generated entry = record {
      name = name_of entry;
      namespace = input.namespace;
      labels =
          (label_auto_generated, codes "true") ∷ (label_auto_config, input.auto_config_name) ∷ [];
      entry = entry;
      component_schemas = (closure entry).0;
    }

    abbrev pub skip : EndpointEntry → Text → Generating → Generating
    skip entry message out = record out {
      skipped =
          record { entry = entry; operation_id = op_id_of entry; message = message } ∷ out.skipped;
    }

    abbrev pub keep : EndpointEntry → Generating → Generating
    keep entry out = record out { endpoints = generated entry ∷ out.endpoints }

    -- the loop; `missing` are the missing schemas so far
    unfoldable pub generate_from : Seen → List (Text × Text) → List EndpointEntry → Generating
    unfolding see duplicate_of
    generate_from seen missing [] = record { endpoints = []; skipped = []; missing = missing }
    generate_from seen missing (entry ∷ entries) =
        let dup = duplicate entry seen in
        let repeated = skip entry dup (generate_from seen missing entries) in
        let fresh = keep entry (
          generate_from (see entry seen)
            (insert_missing (closure entry).1 (operation_text entry) missing) entries) in
        if not (text_eq dup []) then repeated else fresh

    abbrev warning : Text × Text → Text
    warning (ref, op) =
        codes "schema reference "
        ++ (quote ref
            ++ (codes " (first used by " ++ (op ++ codes ") is not defined in components/schemas")))

    -- the endpoints, what was skipped, and the warnings
    unfoldable pub generate : List EndpointEntry → Generating × List Text
    unfolding generate_from
    generate entries =
        let out = generate_from nothing_seen [] entries in
        (out, map warning (sort_by (λ a b. text_lt a.0 b.0) out.missing))
