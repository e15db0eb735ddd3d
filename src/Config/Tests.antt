-- ===== src/Config/Tests.antt =====
-- The theorems about the configuration's ConfigMaps at concrete stores, and tests.
use kraken_d_operator.Base.{
  ℕ, true, false, none, some, List, [], ◌∷◌, ◌++◌, ◌≤◌, ◌≡◌, ◌⊎◌, refl, inl, inr, arith, length,
  All, Any,
}
use kraken_d_operator.Base.Int.{pos}
use kraken_d_operator.Base.Texts.{Text, codes}
use kraken_d_operator.Memo.Versions.{ConfigMapVersion, has}
use kraken_d_operator.Config.Cluster.{
  ConfigMap, ReplicaSet, Surroundings, World, find_map, get_map, create_map,
}
use kraken_d_operator.Config.Publish.{
  Gateway, config_revision_label, config_map_name, build_config_map, verify_existing_config_map,
  legacy_config, publish_config, publish_applied, applied_config_map_name,
}
use kraken_d_operator.Config.Publish.Sound.{Serves}
use kraken_d_operator.Config.Publish.Applied.{
  Applies, publish_applied-Applies, applied_config_map_name-Serves,
}
use kraken_d_operator.Config.Publish.Recovers.{publish_config-Published}
use kraken_d_operator.Config.Collect.{
  selector_labels, config_map_gc_candidates, legacy_of, newer, mounted_config_map_name,
  collect_config_maps,
}
use kraken_d_operator.Config.Collect.History.{
  other_revisions, IsCandidate, config_map_gc_candidates-history, Any-config_map_gc_candidates,
}
use kraken_d_operator.Config.Collect.Kept.{Mounts, Needed, collect_config_maps-Needed}

-- A version that carries its payload as its UID, so that it determines the payload.
abbrev content : ConfigMapVersion → Text
content v = v.uid

abbrev same_text : Text → Text
same_text t = t

abbrev quiet : Surroundings
quiet = record {
  others = λ _ c. c;
  fault = λ _. none;
  assign = λ _ d. record { uid = d; resource_version = [] };
  now = λ _. pos 7;
}

abbrev shop : Gateway
shop = record {
  key = record { namespace = codes "ns"; name = codes "gw" };
  uid = codes "u1";
  version = codes "2.9";
  config_checksum = codes "cfg";
}

abbrev stored : Text → Text → ℕ → Text → ConfigMap
stored name payload created label = record {
  name = name;
  version = record { uid = payload; resource_version = [] };
  controller = some (codes "u1");
  labels = (config_revision_label, label) ∷ selector_labels shop;
  annotations = [];
  creation_timestamp = pos created;
  payload = payload;
}

abbrev world : List ConfigMap → List ReplicaSet → World
world cms sets = record {
  cluster = record { config_maps = cms; replica_sets = sets; applied_checksum = [] };
  calls = 0;
  verified = [];
  tampered = [];
}

abbrev before_upgrade : World
before_upgrade = world (stored (codes "gw") (codes "cfg") 1 [] ∷ []) []

-- One ConfigMap at the configuration's name, with another payload.
abbrev tampered_with : World
tampered_with = world (stored (codes "gw-config-cfg") (codes "evil") 1 (codes "cfg") ∷ []) []

no_memo_entry :
    (name : Text) (v : ConfigMapVersion)
    → has shop.key name v [] ≡ true
    → config_map_name shop (content v) ≡ name
unfolding has
no_memo_entry name v h = ground arith

restored :
    (applied_config_map_name quiet same_text shop before_upgrade).0 ≡ (codes "gw-config-cfg", none)
unfolding applied_config_map_name verify_existing_config_map get_map config_map_name legacy_config
    publish_config create_map build_config_map
restored = refl

applied_config_map_name-Serves_example :
    ((applied_config_map_name quiet same_text shop before_upgrade).0.0
      ≡ config_map_name shop (codes "cfg"))
    × Serves same_text shop
        (codes "cfg")
        (applied_config_map_name quiet same_text shop before_upgrade).1
unfolding applied_config_map_name verify_existing_config_map get_map config_map_name legacy_config
    publish_config create_map build_config_map
applied_config_map_name-Serves_example =
    applied_config_map_name-Serves quiet same_text shop content (λ n c h. h) (λ n d. refl)
      before_upgrade ((refl, tt), no_memo_entry) refl (λ e. cc e)

publish_applied-Applies_example :
    Applies same_text shop content
      (codes "cfg")
      (publish_applied quiet same_text shop (codes "cfg") (codes "cfg") tampered_with)
publish_applied-Applies_example =
    publish_applied-Applies quiet same_text shop content (λ n c h. h) (λ n d. refl) (codes "cfg")
      (codes "cfg") tampered_with refl ((refl, tt), no_memo_entry)

publish_config-Published_example :
    ((publish_config quiet same_text shop (codes "cfg") (codes "cfg") tampered_with).0 ≡ none)
    × ((cm : ConfigMap) × (find_map
            (config_map_name shop (codes "cfg"))
            (publish_config quiet same_text shop
              (codes "cfg")
              (codes "cfg")
              tampered_with).1.cluster.config_maps
          ≡ some cm)
        × (cm.payload ≡ codes "cfg"))
    × ((publish_config quiet same_text shop (codes "cfg") (codes "cfg") tampered_with).1.tampered
        ≡ codes "gw-config-cfg" ∷ [])
unfolding config_map_name has
publish_config-Published_example =
    publish_config-Published quiet ((λ n c. refl), λ n. refl) same_text shop (codes "cfg")
      (codes "cfg") tampered_with (codes "gw-config-cfg" ∷ [])
      (inr
        (stored (codes "gw-config-cfg") (codes "evil") 1 (codes "cfg"), (refl, refl, refl), refl))

abbrev four_revisions : List ConfigMap
four_revisions =
    stored (codes "gw") (codes "old") 0 []
    ∷ stored (codes "gw-config-a") (codes "a") 1 (codes "a")
    ∷ stored (codes "gw-config-b") (codes "b") 2 (codes "b")
    ∷ stored (codes "gw-config-c") (codes "c") 3 (codes "c")
    ∷ stored (codes "gw-config-d") (codes "d") 4 (codes "d")
    ∷ []

-- In use is the oldest; the two newest others are kept.
collected :
    config_map_gc_candidates shop four_revisions (codes "gw-config-a") []
    ≡ stored (codes "gw") (codes "old") 0 []
      ∷ stored (codes "gw-config-b") (codes "b") 2 (codes "b")
      ∷ []
unfolding config_map_gc_candidates newer
collected = refl

config_map_gc_candidates-history_example :
    (kept : List ConfigMap) × (old : List ConfigMap) × (other_revisions shop four_revisions
        (codes "gw-config-a")
        []
      ≡ kept ++ old)
    × (config_map_gc_candidates shop four_revisions (codes "gw-config-a") []
        ≡ legacy_of shop (codes "gw-config-a") [] four_revisions ++ old)
    × (length kept ≤ 2)
    × ((length kept ≡ 2) ⊎ (old ≡ []))
    × All (λ k. All (λ c. newer c k ≡ false) old) kept
config_map_gc_candidates-history_example =
    config_map_gc_candidates-history shop four_revisions (codes "gw-config-a") []

Any-config_map_gc_candidates_example :
    Any
      (λ cm. (cm.name ≡ codes "gw-config-b") × IsCandidate shop (codes "gw-config-a") [] cm)
      four_revisions
unfolding config_map_gc_candidates newer
Any-config_map_gc_candidates_example =
    Any-config_map_gc_candidates (λ cm. cm.name ≡ codes "gw-config-b") shop four_revisions
      (codes "gw-config-a") [] (inr (inl refl))

-- A ReplicaSet with a pod left that mounts the second revision.
abbrev draining : ReplicaSet
draining = record {
  labels = selector_labels shop;
  owner = some (record { kind = codes "Deployment"; name = codes "gw" });
  spec_replicas = some 0;
  status_replicas = 1;
  volumes = record { name = codes "config"; config_map = some (codes "gw-config-b") } ∷ [];
}

collect_config_maps-Needed_example :
    Needed shop
      (codes "gw-config-a")
      []
      (codes "gw-config-b")
      (collect_config_maps quiet shop
        (codes "gw-config-a")
        []
        (world four_revisions (draining ∷ []))).1.cluster
unfolding mounted_config_map_name
collect_config_maps-Needed_example =
    collect_config_maps-Needed quiet shop (codes "gw-config-a") [] (codes "gw-config-b") (λ e. cc e)
      (λ n c h. h) (world four_revisions (draining ∷ []))
      (inr (inr (inl refl)), inr (inr (inl mounts)))
  where
    mounts : Mounts shop (codes "gw-config-b") draining
    mounts = (refl, refl, refl)
