-- ===== src/Config/Collect.antt =====
-- The collection of ConfigMaps that nothing can still mount.
pub mod History
pub mod Kept
use kraken_d_operator.Base.{
  ℕ, suc, Bool, true, false, ◌&&◌, not, any, Option, none, some, List, [], ◌∷◌, ◌++◌, ltb, nat_eq,
  delete_func, if◌then◌else◌,
}
use kraken_d_operator.Base.Int.{ltb_ℤ}
use kraken_d_operator.Base.Maps.{Eq, lookup}
use kraken_d_operator.Base.Texts.{Text, codes, text_eq, text_lt, text_key}
use kraken_d_operator.Route.Entries.{sort_by}
use kraken_d_operator.Config.Cluster.{
  ConfigMap, OwnerReference, Volume, ReplicaSet, not_found, already_exists, conflict, failed,
  Answer, answered, refused, Surroundings, World, or_empty_text, delete_map, list_maps,
  list_replica_sets,
}
use kraken_d_operator.Config.Publish.{Gateway, config_revision_label, is_controlled_by, error_text}

abbrev pub config_map_history_limit : ℕ
config_map_history_limit = 3

abbrev pub selector_labels : Gateway → List (Text × Text)
selector_labels gw =
    (codes "app.kubernetes.io/instance", gw.key.name)
    ∷ (codes "app.kubernetes.io/managed-by", codes "krakend-operator")
    ∷ []

abbrev pub has_revision : ConfigMap → Bool
has_revision cm = not (text_eq (or_empty_text (lookup config_revision_label cm.labels)) [])

-- the guard of the loop that sorts the ConfigMaps into revisions and candidates
abbrev pub is_left : Gateway → Text → ConfigMap → Bool
is_left gw mounted cm = is_controlled_by cm gw && not (text_eq cm.name mounted)

-- `slices.SortFunc`: newest first, then by name
unfoldable pub newer : ConfigMap → ConfigMap → Bool
newer a b =
    if ltb_ℤ b.creation_timestamp a.creation_timestamp
    then true
    else if ltb_ℤ a.creation_timestamp b.creation_timestamp
    then false
    else text_lt a.name b.name

unfoldable pub revisions_of : Gateway → Text → List ConfigMap → List ConfigMap
revisions_of gw mounted [] = []
revisions_of gw mounted (cm ∷ cms) =
    let rest = revisions_of gw mounted cms in
    if is_left gw mounted cm && has_revision cm then cm ∷ rest else rest

unfoldable pub legacy_of : Gateway → Text → Text → List ConfigMap → List ConfigMap
legacy_of gw in_use mounted [] = []
legacy_of gw in_use mounted (cm ∷ cms) =
    let rest = legacy_of gw in_use mounted cms in
    if is_left gw mounted cm
      && not (has_revision cm)
      && (text_eq cm.name gw.key.name && not (text_eq cm.name in_use))
    then cm ∷ rest
    else rest

-- the loop over the sorted revisions
unfoldable pub beyond_history : Text → ℕ → List ConfigMap → List ConfigMap
beyond_history in_use kept [] = []
beyond_history in_use kept (cm ∷ cms) =
    let skipped = beyond_history in_use kept cms in
    let counted = beyond_history in_use (suc kept) cms in
    if text_eq cm.name in_use
    then skipped
    else if ltb kept config_map_history_limit
    then counted
    else cm ∷ skipped

unfoldable pub config_map_gc_candidates : Gateway → List ConfigMap → Text → Text → List ConfigMap
unfolding revisions_of legacy_of beyond_history
config_map_gc_candidates gw cms in_use mounted =
    legacy_of gw in_use mounted cms
    ++ beyond_history in_use 1 (sort_by newer (revisions_of gw mounted cms))

abbrev pub config_volume_name : Text
config_volume_name = codes "config"

abbrev config_map_of : Bool → Option Text → Option Text
config_map_of true (some name) = some name
config_map_of is_config mounts = none

unfoldable pub mounted_config_map_name : List Volume → Text
mounted_config_map_name [] = []
mounted_config_map_name (v ∷ volumes) =
    let rest = mounted_config_map_name volumes in
    elim (config_map_of (text_eq v.name config_volume_name) v.config_map) [
      | some name ↦ name
      | none ↦ rest
    ]

abbrev is_deployment_of : Gateway → Option OwnerReference → Bool
is_deployment_of gw none = false
is_deployment_of gw (some owner) =
    text_eq owner.kind (codes "Deployment") && text_eq owner.name gw.key.name

-- `ptr.Deref(p, 1)`
abbrev or_one : Option ℕ → ℕ
or_one none = 1
or_one (some n) = n

-- a ReplicaSet of the gateway's Deployment that has or wants pods
abbrev pub is_live : Gateway → ReplicaSet → Bool
is_live gw rs =
    is_deployment_of gw rs.owner
    && not (nat_eq (or_one rs.spec_replicas) 0 && nat_eq rs.status_replicas 0)

-- the loop of `liveReplicaSetConfigMaps`
unfoldable pub live_config_maps : Gateway → List ReplicaSet → List Text
unfolding mounted_config_map_name
live_config_maps gw [] = []
live_config_maps gw (rs ∷ sets) =
    let rest = live_config_maps gw sets in
    let name = mounted_config_map_name rs.volumes in
    if is_live gw rs then if not (text_eq name []) then name ∷ rest else rest else rest

module _ (env : Surroundings) (gw : Gateway) where
  live_answer : Answer (List ReplicaSet) × World → Answer (List Text) × World
  unfolding live_config_maps
  live_answer (refused e, w) = (refused e, w)
  live_answer (answered sets, w) = (answered (live_config_maps gw sets), w)

  unfoldable pub live_replica_set_config_maps : World → Answer (List Text) × World
  unfolding live_answer
  live_replica_set_config_maps w = live_answer (list_replica_sets env (selector_labels gw) w)

  -- how the loop over the candidates goes on behind a deletion
  unless_refused : (World → Option Text × World) → Answer (Unit {0}) × World → Option Text × World
  unless_refused rest (answered _, w) = rest w
  unless_refused rest (refused not_found, w) = rest w
  unless_refused rest (refused already_exists, w) = (some (error_text already_exists), w)
  unless_refused rest (refused conflict, w) = (some (error_text conflict), w)
  unless_refused rest (refused (failed e), w) = (some e, w)

  delete_candidates : List Text → List ConfigMap → World → Option Text × World
  unfolding unless_refused
  delete_candidates live [] w = (none, w)
  delete_candidates live (cm ∷ cms) w =
      if any (λ name. text_eq name cm.name) live
      then delete_candidates live cms w
      else unless_refused (delete_candidates live cms) (delete_map env cm.name cm.version.uid w)

  delete_unless_live : List ConfigMap → Answer (List Text) × World → Option Text × World
  unfolding delete_candidates
  delete_unless_live candidates (refused e, w) = (some (error_text e), w)
  delete_unless_live candidates (answered live, w) = delete_candidates live candidates w

  -- behind the test for an empty list of candidates
  collect_candidates : List ConfigMap → World → Option Text × World
  unfolding delete_unless_live live_replica_set_config_maps
  collect_candidates [] w = (none, w)
  collect_candidates (cm ∷ cms) w = delete_unless_live (cm ∷ cms) (live_replica_set_config_maps w)

  collect_listed : Text → Text → Answer (List ConfigMap) × World → Option Text × World
  unfolding collect_candidates config_map_gc_candidates
  collect_listed in_use mounted (refused e, w) = (some (error_text e), w)
  collect_listed in_use mounted (answered cms, w) =
      collect_candidates (config_map_gc_candidates gw cms in_use mounted) w

  unfoldable pub collect_config_maps : Text → Text → World → Option Text × World
  unfolding collect_listed
  collect_config_maps in_use mounted w =
      collect_listed in_use mounted (list_maps env (selector_labels gw) w)
