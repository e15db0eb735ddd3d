-- ===== src/Config/Collect/Kept.antt =====
-- What the collection leaves in the store, whatever fails.
use kraken_d_operator.Base.{
  ℕ, true, false, any, Option, none, some, List, [], ◌∷◌, ◌≡◌, ◌≢◌, ◌⊎◌, inl, inr, refl, All,
  All-map, Any, Any-map, Any-elim, Any-delete_func, All-of_mem, Bool-cases, arith,
}
use kraken_d_operator.Base.Texts.{Text, text_eq, text_eq_iff}
use kraken_d_operator.Config.Cluster.{
  ConfigMap, ReplicaSet, Cluster, not_found, already_exists, conflict, failed, Answer, answered,
  refused, Surroundings, World, matches, matching_sets, answer_unless, reach, delete_map, list_maps,
  list_replica_sets,
}
use kraken_d_operator.Config.Cluster.Calls.{delete_map-Any}
use kraken_d_operator.Config.Publish.{Gateway}
use kraken_d_operator.Config.Collect.{
  selector_labels, config_map_gc_candidates, mounted_config_map_name, is_live, live_config_maps,
  live_answer, live_replica_set_config_maps, unless_refused, delete_candidates, delete_unless_live,
  collect_candidates, collect_listed, collect_config_maps,
}
use kraken_d_operator.Config.Collect.History.{Any-config_map_gc_candidates}

-- a ReplicaSet of the gateway that has or wants pods and mounts the ConfigMap
abbrev pub Mounts : Gateway → Text → ReplicaSet → Type 0
Mounts gw name rs =
    (is_live gw rs ≡ true)
    × (matches (selector_labels gw) rs.labels ≡ true)
    × (mounted_config_map_name rs.volumes ≡ name)

-- The store has a ConfigMap of the name, and the name is in use, mounted by the Deployment's
-- template or mounted by a live ReplicaSet.
abbrev pub Needed : Gateway → Text → Text → Text → Cluster → Type 0
Needed gw in_use mounted name c =
    Any (λ cm. cm.name ≡ name) c.config_maps
    × ((name ≡ in_use) ⊎ ((name ≡ mounted) ⊎ Any (Mounts gw name) c.replica_sets))

live_config_maps-Mounts :
    (gw : Gateway) (name : Text) (sets : List ReplicaSet)
    → name ≢ []
    → Any (λ rs. (is_live gw rs ≡ true) × (mounted_config_map_name rs.volumes ≡ name)) sets
    → any (λ n. text_eq n name) (live_config_maps gw sets) ≡ true
unfolding live_config_maps
live_config_maps-Mounts gw name [] n h = absurd h
live_config_maps-Mounts gw name (rs ∷ sets) n (inl (live, e)) =
    let nonempty : text_eq name [] ≡ false = elim (Bool-cases (text_eq name [])) [
      | inl empty ↦ absurd (n ((text_eq_iff name []).0 empty))
      | inr f ↦ f
    ] in
    rw (live, e, nonempty, (text_eq_iff name name).1 refl) refl
live_config_maps-Mounts gw name (rs ∷ sets) n (inr h) =
    let ih = live_config_maps-Mounts gw name sets n h in
    elim (Bool-cases (is_live gw rs)) [
      | inl live ↦ elim (Bool-cases (text_eq (mounted_config_map_name rs.volumes) [])) [
        | inl empty ↦ rw (live, empty) ih
        | inr there ↦ rw (live, there, ih) (ground arith)
      ]
      | inr gone ↦ rw gone ih
    ]

module _ (env : Surroundings) (gw : Gateway) (in_use mounted name : Text) (nonempty : name ≢ [])
    (others-Needed : (n : ℕ) (c : Cluster)
      → Needed gw in_use mounted name c
      → Needed gw in_use mounted name (env.others n c)) where
  abbrev Has : World → Type 0
  Has w = Needed gw in_use mounted name w.cluster

  -- A candidate that the loop may delete has another name.
  abbrev Spares : List Text → List ConfigMap → Type 0
  Spares live cms = All (λ cm. (any (λ n. text_eq n cm.name) live ≡ true) ⊎ (cm.name ≢ name)) cms

  delete_map-Has :
      (other uid : Text) (w : World) → other ≢ name → Has w → Has (delete_map env other uid w).1
  delete_map-Has other uid w d h =
      let (a, why) = others-Needed w.calls w.cluster h in
      let (sets, left) = delete_map-Any env other uid w in
      (
        left (λ cm. cm.name ≡ name)
            (λ x e. elim (Bool-cases (text_eq x.name other)) [
              | inl hit ↦ absurd (d (ground (arith, (text_eq_iff x.name other).0 hit)))
              | inr miss ↦ miss
            ])
            a,
        rw sets why,
      )

  unless_refused-Has :
      (rest : World → Option Text × World) (p : Answer (Unit {0}) × World)
      → ((w : World) → Has w → Has (rest w).1)
      → Has p.1
      → Has (unless_refused env gw rest p).1
  unfolding unless_refused
  unless_refused-Has rest (answered u, w) k h = k w h
  unless_refused-Has rest (refused not_found, w) k h = k w h
  unless_refused-Has rest (refused already_exists, w) k h = h
  unless_refused-Has rest (refused conflict, w) k h = h
  unless_refused-Has rest (refused (failed e), w) k h = h

  delete_candidates-Has :
      (live : List Text) (cms : List ConfigMap) (w : World)
      → Spares live cms
      → Has w
      → Has (delete_candidates env gw live cms w).1
  unfolding delete_candidates
  delete_candidates-Has live [] w s h = h
  delete_candidates-Has live (cm ∷ cms) w (p, s) h =
      elim (Bool-cases (any (λ n. text_eq n cm.name) live)) [
        | inl kept ↦ rw kept (delete_candidates-Has live cms w s h)
        | inr gone ↦
            let d : cm.name ≢ name = elim p [ inl l ↦ ground (arith, l, gone) | inr d ↦ d ] in
            rw gone (
              unless_refused-Has (delete_candidates env gw live cms)
                (delete_map env cm.name cm.version.uid w)
                (λ w' k. delete_candidates-Has live cms w' s k)
                (delete_map-Has cm.name cm.version.uid w d h))
      ]

  live_answer-Spares :
      (e : Option Text) (w w' : World) (cms : List ConfigMap)
      → Has w
      → All (λ cm. (cm.name ≢ in_use) × (cm.name ≢ mounted)) cms
      → Has w'
      → Has
          (delete_unless_live env gw cms (
            live_answer env gw
              (answer_unless e (matching_sets (selector_labels gw) w.cluster.replica_sets), w'))).1
  unfolding delete_unless_live live_answer
  live_answer-Spares (some e) w w' cms h a k = k
  live_answer-Spares none w w' cms (_, why) a k =
      let sets = matching_sets (selector_labels gw) w.cluster.replica_sets in
      delete_candidates-Has (live_config_maps gw sets) cms w'
        (All-map _ _ cms
          (λ cm (unused, unmounted). elim (Bool-cases (text_eq cm.name name)) [
            | inr other ↦ inr (λ e. ground (arith, other, (text_eq_iff cm.name name).1 e))
            | inl same ↦
                let e = (text_eq_iff cm.name name).0 same in
                inl (
                  rw e (elim why [
                    | inl used ↦ absurd (unused (ground (arith, e, used)))
                    | inr (inl mount) ↦ absurd (unmounted (ground (arith, e, mount)))
                    | inr (inr h) ↦ live_config_maps-Mounts gw name sets nonempty (
                        Any-map _ _ sets (λ rs m. (m.0, m.2))
                          (Any-delete_func (Mounts gw name) _ w.cluster.replica_sets
                            (λ rs m. rw (m.1) refl) h))
                  ]))
          ])
          a)
        k

  delete_unless_live-Has :
      (cms : List ConfigMap) (w : World)
      → Has w
      → All (λ cm. (cm.name ≢ in_use) × (cm.name ≢ mounted)) cms
      → Has (delete_unless_live env gw cms (live_replica_set_config_maps env gw w)).1
  unfolding live_replica_set_config_maps list_replica_sets
  delete_unless_live-Has cms w h a =
      let h' = others-Needed w.calls w.cluster h in
      live_answer-Spares (env.fault w.calls) (reach env w) (reach env w) cms h' a h'

  -- neither in use nor mounted by the Deployment's template
  abbrev IsUnused : ConfigMap → Type 0
  IsUnused cm = (cm.name ≢ in_use) × (cm.name ≢ mounted)

  collect_candidates-Has :
      (cms : List ConfigMap) (w : World)
      → Has w
      → All IsUnused cms
      → Has (collect_candidates env gw cms w).1
  unfolding collect_candidates
  collect_candidates-Has [] w h a = h
  collect_candidates-Has (cm ∷ cms) w h a = delete_unless_live-Has (cm ∷ cms) w h a

  collect_listed-Has :
      (e : Option Text) (cms : List ConfigMap) (w : World)
      → Has w
      → Has (collect_listed env gw in_use mounted (answer_unless e cms, w)).1
  unfolding collect_listed
  collect_listed-Has (some e) cms w h = h
  collect_listed-Has none cms w h =
      let candidates = config_map_gc_candidates gw cms in_use mounted in
      collect_candidates-Has candidates w h (
        All-of_mem IsUnused candidates (λ cm m.
          Any-elim _ (IsUnused cm) cms (λ x (same, c). rw (← same) (c.2, c.1))
            (Any-config_map_gc_candidates (λ x. x ≡ cm) gw cms in_use mounted m)))

  -- A ConfigMap's name that is in use, mounted by the Deployment's template or mounted by a live
  -- ReplicaSet, and that the other clients leave so, still has its ConfigMap after a collection,
  -- whatever the API server refuses.
  pub collect_config_maps-Needed :
      (w : World)
      → Needed gw in_use mounted name w.cluster
      → Needed gw in_use mounted name (collect_config_maps env gw in_use mounted w).1.cluster
  unfolding collect_config_maps list_maps
  collect_config_maps-Needed w h =
      collect_listed-Has (env.fault w.calls) _ (reach env w) (others-Needed w.calls w.cluster h)
