-- ===== src/Config/Cluster.antt =====
-- The API server as the configuration's code sees it, which is not part of the repository: a store
-- of the ConfigMaps and ReplicaSets of the gateway's namespace. Before each call other clients may
-- change the store, and each call may fail. `Surroundings` says how, and which version a created
-- ConfigMap gets.
pub mod Calls
use kraken_d_operator.Base.{
  ℕ, suc, Bool, true, false, not, Option, none, some, List, [], ◌∷◌, delete_func, ◌&&◌,
  if◌then◌else◌,
}
use kraken_d_operator.Base.Int.{ℤ}
use kraken_d_operator.Base.Texts.{Text, text_eq, text_key}
use kraken_d_operator.Base.Maps.{Eq, lookup}
use kraken_d_operator.Memo.Versions.{ConfigMapVersion, VerifiedConfigMaps}

pub record ConfigMap : Type 0 where
  pub name : Text
  pub version : ConfigMapVersion
  -- the UID of the object that controls it
  pub controller : Option Text
  pub labels : List (Text × Text)
  pub annotations : List (Text × Text)
  pub creation_timestamp : ℤ
  -- what it holds under `krakend.json`, empty where it has no such key
  pub payload : Text

pub record OwnerReference : Type 0 where
  pub kind : Text
  pub name : Text

pub record Volume : Type 0 where
  pub name : Text
  -- the name of the ConfigMap that it mounts
  pub config_map : Option Text

pub record ReplicaSet : Type 0 where
  pub labels : List (Text × Text)
  -- the owner reference that controls it
  pub owner : Option OwnerReference
  pub spec_replicas : Option ℕ
  pub status_replicas : ℕ
  -- those of its pod template
  pub volumes : List Volume

pub record Cluster : Type 0 where
  pub config_maps : List ConfigMap
  pub replica_sets : List ReplicaSet
  -- `status.configChecksum` of the gateway
  pub applied_checksum : Text

pub data ApiError : Type 0 where
  not_found : ApiError
  already_exists : ApiError
  conflict : ApiError
  failed : Text → ApiError

pub data Answer {ℓ} (A : Type ℓ) : Type ℓ where
  answered : A → Answer A
  refused : ApiError → Answer A

pub record Surroundings : Type 0 where
  pub others : ℕ → Cluster → Cluster
  pub fault : ℕ → Option Text
  pub assign : ℕ → Text → ConfigMapVersion
  pub now : ℕ → ℤ

-- What a pass changes: the cluster, the number of calls made, the memo of verified ConfigMaps, and
-- the ConfigMaps that a Warning event reported as tampered with.
pub record World : Type 0 where
  pub cluster : Cluster
  pub calls : ℕ
  pub verified : VerifiedConfigMaps
  pub tampered : List Text

abbrev pub named_as : Text → ConfigMap → Bool
named_as name cm = text_eq cm.name name

abbrev pub find_map : Text → List ConfigMap → Option ConfigMap
find_map name [] = none
find_map name (cm ∷ cms) = if named_as name cm then some cm else find_map name cms

-- the value that Go's `m[k]` reads, empty where there is none
abbrev pub or_empty_text : Option Text → Text
or_empty_text none = []
or_empty_text (some t) = t

-- `client.MatchingLabels`
abbrev is_value : Text → Option Text → Bool
is_value v none = false
is_value v (some w) = text_eq w v

abbrev pub matches : List (Text × Text) → List (Text × Text) → Bool
matches [] labels = true
matches ((k, v) ∷ selector) labels = is_value v (lookup k labels) && matches selector labels

abbrev pub matching_maps : List (Text × Text) → List ConfigMap → List ConfigMap
matching_maps selector cms = delete_func (λ cm. not (matches selector cm.labels)) cms

abbrev pub matching_sets : List (Text × Text) → List ReplicaSet → List ReplicaSet
matching_sets selector sets = delete_func (λ rs. not (matches selector rs.labels)) sets

abbrev pub answer_unless {ℓ} : {A : Type ℓ} → Option Text → A → Answer A
answer_unless (some e) a = refused (failed e)
answer_unless none a = answered a

module _ (env : Surroundings) where
  -- the world when the next call reaches the API server
  abbrev pub reach : World → World
  reach w = record w { cluster = env.others w.calls w.cluster; calls = suc w.calls }

  get_answer : Option Text → Option ConfigMap → Answer ConfigMap
  get_answer (some e) found = refused (failed e)
  get_answer none none = refused not_found
  get_answer none (some cm) = answered cm

  unfoldable pub get_map : Text → World → Answer ConfigMap × World
  unfolding get_answer
  get_map name w =
      (get_answer (env.fault w.calls) (find_map name (reach w).cluster.config_maps), reach w)

  abbrev pub with_maps : (List ConfigMap → List ConfigMap) → World → World
  with_maps f w = record w { cluster = record w.cluster { config_maps = f w.cluster.config_maps } }

  create_answer : ConfigMap → Option Text → Option ConfigMap → World → Answer ConfigMap × World
  create_answer cm (some e) found w = (refused (failed e), w)
  create_answer cm none (some other) w = (refused already_exists, w)
  create_answer cm none none w = (answered cm, with_maps (λ cms. cm ∷ cms) w)

  -- the answer is the created ConfigMap, with its version
  unfoldable pub create_map : ConfigMap → World → Answer ConfigMap × World
  unfolding create_answer
  create_map cm w =
      create_answer
        (record cm {
          version = env.assign w.calls cm.payload;
          creation_timestamp = env.now w.calls;
        })
        (env.fault w.calls) (find_map cm.name (reach w).cluster.config_maps) (reach w)

  delete_answer : Text → Text → Option Text → Option ConfigMap → World → Answer (Unit {0}) × World
  delete_answer name uid (some e) found w = (refused (failed e), w)
  delete_answer name uid none none w = (refused not_found, w)
  delete_answer name uid none (some cm) w =
      if text_eq cm.version.uid uid
      then (answered tt, with_maps (λ cms. delete_func (named_as name) cms) w)
      else (refused conflict, w)

  -- with the UID as a precondition
  unfoldable pub delete_map : Text → Text → World → Answer (Unit {0}) × World
  unfolding delete_answer
  delete_map name uid w =
      delete_answer name uid (env.fault w.calls) (find_map name (reach w).cluster.config_maps)
        (reach w)

  -- the gateway's `status.configChecksum` as it is now
  unfoldable pub get_applied_checksum : World → Answer Text × World
  get_applied_checksum w =
      (answer_unless (env.fault w.calls) (reach w).cluster.applied_checksum, reach w)

  unfoldable pub list_maps : List (Text × Text) → World → Answer (List ConfigMap) × World
  list_maps selector w = (
    answer_unless (env.fault w.calls) (matching_maps selector (reach w).cluster.config_maps),
    reach w,
  )

  unfoldable pub list_replica_sets : List (Text × Text) → World → Answer (List ReplicaSet) × World
  list_replica_sets selector w = (
    answer_unless (env.fault w.calls) (matching_sets selector (reach w).cluster.replica_sets),
    reach w,
  )
