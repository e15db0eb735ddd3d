-- ===== src/Config/Publish.antt =====
-- Publishing, verifying and restoring a configuration's ConfigMap. An error is its text; the
-- messages name what the source's do.
pub mod Sound
pub mod Applied
pub mod Recovers
use kraken_d_operator.Base.{
  ℕ, Bool, true, false, ◌&&◌, ◌||◌, not, Option, none, some, List, [], ◌∷◌, ◌++◌, if◌then◌else◌,
}
use kraken_d_operator.Base.Int.{pos}
use kraken_d_operator.Base.Maps.{Eq, lookup}
use kraken_d_operator.Base.Texts.{Text, codes, text_eq, text_key}
use kraken_d_operator.Check.Verdicts.{take}
use kraken_d_operator.Route.Entries.{NamespacedName}
use kraken_d_operator.Memo.Versions.{ConfigMapVersion, has, remember, forget}
use kraken_d_operator.Config.Cluster.{
  ConfigMap, Cluster, ApiError, not_found, already_exists, conflict, failed, Answer, answered,
  refused, Surroundings, World, get_map, create_map, delete_map, or_empty_text,
  get_applied_checksum,
}

-- what the code reads of the gateway, `status.configChecksum` as its pass has it
pub record Gateway : Type 0 where
  pub key : NamespacedName
  pub uid : Text
  pub version : Text
  pub config_checksum : Text

abbrev pub config_revision_label : Text
config_revision_label = codes "krakend.io/config-revision"

abbrev pub config_map_checksum_chars : ℕ
config_map_checksum_chars = 10

abbrev pub checksum_annotation : Text
checksum_annotation = codes "krakend.io/checksum-config"

abbrev pub short_checksum : Text → Text
short_checksum checksum = take config_map_checksum_chars checksum

unfoldable pub config_map_name : Gateway → Text → Text
config_map_name gw checksum = gw.key.name ++ (codes "-config-" ++ short_checksum checksum)

abbrev standard_labels : Gateway → List (Text × Text)
standard_labels gw =
    (codes "app.kubernetes.io/name", codes "krakend")
    ∷ (codes "app.kubernetes.io/instance", gw.key.name)
    ∷ (codes "app.kubernetes.io/version", gw.version)
    ∷ (codes "app.kubernetes.io/component", codes "gateway")
    ∷ (codes "app.kubernetes.io/part-of", codes "krakend-operator")
    ∷ (codes "app.kubernetes.io/managed-by", codes "krakend-operator")
    ∷ []

-- `BuildConfigMap` and `SetControllerReference` on a fresh object, which has no other owner
unfoldable pub build_config_map : Gateway → Text → Text → ConfigMap
unfolding config_map_name
build_config_map gw json checksum = record {
  name = config_map_name gw checksum;
  version = record { uid = []; resource_version = [] };
  controller = some gw.uid;
  labels = (config_revision_label, short_checksum checksum) ∷ standard_labels gw;
  annotations = (checksum_annotation, checksum) ∷ [];
  creation_timestamp = pos 0;
  payload = json;
}

abbrev is_uid : Text → Option Text → Bool
is_uid uid none = false
is_uid uid (some u) = text_eq u uid

abbrev pub is_controlled_by : ConfigMap → Gateway → Bool
is_controlled_by cm gw = is_uid gw.uid cm.controller

-- the error, if the ConfigMap is not this gateway's copy
unfoldable pub verify_config_map : Gateway → Text → ConfigMap → Option Text
verify_config_map gw checksum cm =
    let got = or_empty_text (lookup checksum_annotation cm.annotations) in
    if not (is_controlled_by cm gw)
    then some (
        codes "configmap "
        ++ (cm.name ++ (codes " exists but is not controlled by gateway " ++ gw.key.name)))
    else if not (text_eq got checksum)
    then some (
        codes "configmap "
        ++ (cm.name ++ (codes " holds config " ++ (got ++ (codes ", not " ++ checksum)))))
    else none

abbrev pub is_error : Option Text → Bool
is_error none = false
is_error (some e) = true

abbrev pub error_text : ApiError → Text
error_text not_found = codes "not found"
error_text already_exists = codes "already exists"
error_text conflict = codes "conflict"
error_text (failed e) = e

-- an error that is not about a missing object
abbrev but_not_found : ApiError → Option Text
but_not_found not_found = none
but_not_found e = some (error_text e)

-- whether the ConfigMap was found, and the error
abbrev pub Found : Type 0
Found = Bool × Option Text

-- the name, and the error
abbrev pub Named : Type 0
Named = Text × Option Text

-- the fields of `configResult` that these stages set
pub record ConfigResult : Type 0 where
  pub applied_config_map : Text
  pub held_because : Option Text

-- `errors.Join`: the errors that are there
abbrev pub join_errors : Option Text → Option Text → List Text
join_errors none none = []
join_errors none (some e) = e ∷ []
join_errors (some d) none = d ∷ []
join_errors (some d) (some e) = d ∷ e ∷ []

module _ (env : Surroundings) (hash : Text → Text) (gw : Gateway) where
  after_delete : Text → Answer (Unit {0}) × World → Found × World
  after_delete name (answered _, w) = ((false, none), record w { tampered = name ∷ w.tampered })
  after_delete name (refused not_found, w) =
      ((false, none), record w { tampered = name ∷ w.tampered })
  after_delete name (refused already_exists, w) = ((true, some (error_text already_exists)), w)
  after_delete name (refused conflict, w) = ((true, some (error_text conflict)), w)
  after_delete name (refused (failed e), w) = ((true, some e), w)

  judge_payload : Text → Text → Answer ConfigMap × World → Found × World
  unfolding after_delete
  judge_payload name checksum (refused e, w) = ((false, but_not_found e), w)
  judge_payload name checksum (answered full, w) =
      let known = record w { verified = remember gw.key name full.version w.verified } in
      let unknown = record w { verified = forget gw.key name w.verified } in
      if text_eq (hash full.payload) checksum
      then ((true, none), known)
      else after_delete name (delete_map env name full.version.uid unknown)

  unfoldable pub verify_payload : Text → Text → World → Found × World
  unfolding judge_payload
  verify_payload name checksum w = judge_payload name checksum (get_map env name w)

  -- the ConfigMap is not this gateway's copy, and its payload was hashed
  not_our_copy : Text → Found × World → Found × World
  not_our_copy e ((found, perr), w) =
      if is_error perr || not found then ((found, perr), w) else ((true, some e), w)

  judge_metadata : Text → Text → ConfigMap → World → Option Text → Found × World
  unfolding not_our_copy
  judge_metadata name checksum cm w (some e) =
      if not (has gw.key name cm.version w.verified)
      then not_our_copy e (verify_payload name checksum w)
      else ((true, some e), w)
  judge_metadata name checksum cm w none =
      if has gw.key name cm.version w.verified
      then ((true, none), w)
      else verify_payload name checksum w

  judge_existing : Text → Text → Answer ConfigMap × World → Found × World
  unfolding judge_metadata
  judge_existing name checksum (refused e, w) = ((false, but_not_found e), w)
  judge_existing name checksum (answered cm, w) =
      judge_metadata name checksum cm w (verify_config_map gw checksum cm)

  unfoldable pub verify_existing_config_map : Text → World → Found × World
  unfolding judge_existing
  verify_existing_config_map checksum w =
      judge_existing (config_map_name gw checksum) checksum
        (get_map env (config_map_name gw checksum) w)

  -- behind a create that lost a race
  after_lost_race : Text → Found × World → Option Text × World
  after_lost_race name ((found, e), w) =
      if not (is_error e) && not found
      then (
        some
            (codes "configmap " ++ (name ++ codes " was deleted after a create found it existing")),
        w,
      )
      else (e, w)

  after_create : Text → Text → Answer ConfigMap × World → Option Text × World
  unfolding after_lost_race
  after_create name checksum (answered cm, w) =
      (none, record w { verified = remember gw.key name cm.version w.verified })
  after_create name checksum (refused already_exists, w) =
      after_lost_race name (verify_existing_config_map checksum w)
  after_create name checksum (refused not_found, w) = (some (error_text not_found), w)
  after_create name checksum (refused conflict, w) = (some (error_text conflict), w)
  after_create name checksum (refused (failed e), w) = (some e, w)

  create_unless_found : Text → Text → Found × World → Option Text × World
  unfolding after_create
  create_unless_found json checksum ((found, e), w) =
      if found || is_error e
      then (e, w)
      else after_create (config_map_name gw checksum) checksum
          (create_map env (build_config_map gw json checksum) w)

  unfoldable pub publish_config : Text → Text → World → Option Text × World
  unfolding create_unless_found
  publish_config json checksum w =
      create_unless_found json checksum (verify_existing_config_map checksum w)

  -- the config under the gateway's own name, `none` where the gateway controls none, and the error
  found_legacy : Answer ConfigMap × World → (Option Text × Option Text) × World
  found_legacy (refused e, w) = ((none, but_not_found e), w)
  found_legacy (answered cm, w) =
      if is_controlled_by cm gw then ((some cm.payload, none), w) else ((none, none), w)

  unfoldable pub legacy_config : World → (Option Text × Option Text) × World
  unfolding found_legacy
  legacy_config w = found_legacy (get_map env gw.key.name w)

  named_unless_error : Text → Option Text × World → Named × World
  named_unless_error name (none, w) = ((name, none), w)
  named_unless_error name (some e, w) = (([], some e), w)

  restore : (Option Text × Option Text) × World → Named × World
  unfolding named_unless_error
  restore ((none, e), w) = (([], e), w)
  restore ((some legacy, some e), w) = (([], some e), w)
  restore ((some legacy, none), w) =
      if text_eq (hash legacy) gw.config_checksum
      then named_unless_error (config_map_name gw gw.config_checksum)
          (publish_config legacy gw.config_checksum w)
      else (([], none), w)

  unless_found : Found × World → Named × World
  unfolding restore
  unless_found ((found, some e), w) = (([], some e), w)
  unless_found ((true, none), w) = ((config_map_name gw gw.config_checksum, none), w)
  unless_found ((false, none), w) = restore (legacy_config w)

  unfoldable pub applied_config_map_name : World → Named × World
  unfolding unless_found
  applied_config_map_name w =
      if text_eq gw.config_checksum []
      then (([], none), w)
      else unless_found (verify_existing_config_map gw.config_checksum w)

  applied_unless_error : Text → Option Text × World → (ConfigResult × Option Text) × World
  applied_unless_error name (none, w) =
      ((record { applied_config_map = name; held_because = none }, none), w)
  applied_unless_error name (some e, w) =
      ((record { applied_config_map = []; held_because = some e }, some e), w)

  unfoldable pub publish_applied : Text → Text → World → (ConfigResult × Option Text) × World
  unfolding applied_unless_error
  publish_applied json checksum w =
      applied_unless_error (config_map_name gw checksum) (publish_config json checksum w)

  kept_result : Option Text → Named × World → (ConfigResult × List Text) × World
  kept_result verdict ((name, e), w) =
      ((record { applied_config_map = name; held_because = e }, join_errors verdict e), w)

  unfoldable pub keep_applied : Option Text → World → (ConfigResult × List Text) × World
  unfolding kept_result
  keep_applied verdict w = kept_result verdict (applied_config_map_name w)

  never_by : Answer Text × World → (Bool × Option Text) × World
  never_by (refused e, w) = ((false, some (error_text e)), w)
  never_by (answered checksum, w) = ((text_eq checksum [], none), w)

  unfoldable pub never_applied : World → (Bool × Option Text) × World
  unfolding never_by
  never_applied w =
      if not (text_eq gw.config_checksum [])
      then ((false, none), w)
      else never_by (get_applied_checksum env w)
