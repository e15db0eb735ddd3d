-- ===== src/Config/Publish/Recovers.antt =====
-- A publication where no call fails and no other client interferes.
use kraken_d_operator.Base.{
  suc, ap, Bool, false, Option, none, some, List, ◌∷◌, ◌≡◌, ◌⊎◌, refl, ◌∙◌, inl, inr,
}
use kraken_d_operator.Base.Texts.{Text, text_eq}
use kraken_d_operator.Memo.Versions.{has, forget}
use kraken_d_operator.Config.Cluster.{ConfigMap, Surroundings, World, find_map}
use kraken_d_operator.Config.Cluster.Calls.{Calm, get_map-calm, delete_map-calm, create_map-calm}
use kraken_d_operator.Config.Publish.{
  Gateway, config_map_name, build_config_map, verify_config_map, after_delete, judge_payload,
  verify_payload, not_our_copy, judge_metadata, judge_existing, verify_existing_config_map,
  after_create, create_unless_found, publish_config,
}

module _ (env : Surroundings) (calm : Calm env) (hash : Text → Text) (gw : Gateway)
    (json checksum : Text) where
  abbrev at : Text
  at = config_map_name gw checksum

  -- the configuration's ConfigMap is not there, or holds bytes with another hash that the memo does
  -- not call verified
  abbrev Missing : World → Type 0
  Missing w = find_map at w.cluster.config_maps ≡ none

  abbrev Tampered : ConfigMap → World → Type 0
  Tampered cm w =
      (find_map at w.cluster.config_maps ≡ some cm)
      × (text_eq (hash cm.payload) checksum ≡ false)
      × (has gw.key at cm.version w.verified ≡ false)

  -- the ConfigMap is gone, and those that a Warning event reported
  abbrev Cleared : List Text → ((Bool × Option Text) × World) → Type 0
  Cleared reported (r, w) = (r ≡ (false, none)) × Missing w × (w.tampered ≡ reported)

  not_our_copy-cleared :
      (e : Text) (p : (Bool × Option Text) × World)
      → p.0 ≡ (false, none)
      → not_our_copy env hash gw e p ≡ p
  unfolding not_our_copy
  not_our_copy-cleared e (r, w) h = rw h refl

  verify_payload-Cleared :
      (cm : ConfigMap) (w : World)
      → find_map at w.cluster.config_maps ≡ some cm
      → text_eq (hash cm.payload) checksum ≡ false
      → Cleared (at ∷ w.tampered) (verify_payload env hash gw at checksum w)
  unfolding verify_payload judge_payload after_delete
  verify_payload-Cleared cm w found bad =
      let w1 = record w { calls = suc w.calls; verified = forget gw.key at w.verified } in
      let (w', e, gone, t) = delete_map-calm env calm at cm w1 found in
      rw (get_map-calm env calm at w) (rw found (rw bad (rw e (refl, gone, ap (λ l. at ∷ l) t))))

  judge_metadata-Cleared :
      (cm : ConfigMap) (w : World) (e : Option Text)
      → Tampered cm w
      → Cleared (at ∷ w.tampered) (judge_metadata env hash gw at checksum cm w e)
  unfolding judge_metadata not_our_copy
  judge_metadata-Cleared cm w none (found, bad, new) =
      rw new (verify_payload-Cleared cm w found bad)
  judge_metadata-Cleared cm w (some x) (found, bad, new) =
      let (r, gone, t) = verify_payload-Cleared cm w found bad in
      rw new (rw (not_our_copy-cleared x (verify_payload env hash gw at checksum w) r) (r, gone, t))

  verify_existing_config_map-Cleared :
      (cm : ConfigMap) (w : World)
      → Tampered cm w
      → Cleared (at ∷ w.tampered) (verify_existing_config_map env hash gw checksum w)
  unfolding verify_existing_config_map judge_existing
  verify_existing_config_map-Cleared cm w (found, bad, new) = rw (get_map-calm env calm at w) (
      rw found (
        judge_metadata-Cleared cm (record w { calls = suc w.calls })
          (verify_config_map gw checksum cm) (found, bad, new)))

  -- what a publication leaves that worked
  abbrev Published : List Text → Option Text × World → Type 0
  Published reported (e, w) =
      (e ≡ none)
      × ((cm : ConfigMap) × (find_map at w.cluster.config_maps ≡ some cm) × (cm.payload ≡ json))
      × (w.tampered ≡ reported)

  create_unless_found-Published :
      (reported : List Text) (p : (Bool × Option Text) × World)
      → Cleared reported p
      → Published reported (create_unless_found env hash gw json checksum p)
  unfolding create_unless_found after_create
  create_unless_found-Published reported (r, w) (e, free, t) =
      let (w', made, c, there, same, kept) =
        create_map-calm env calm (build_config_map gw json checksum) w
          (unfold build_config_map in free) in
      rw e (
        rw c (
          refl,
          (made, (unfold build_config_map in there), (unfold build_config_map in same)),
          kept ∙ t,
        ))

  verify_existing_config_map-free :
      (w : World)
      → Missing w
      → Cleared w.tampered (verify_existing_config_map env hash gw checksum w)
  unfolding verify_existing_config_map judge_existing
  verify_existing_config_map-free w free =
      rw (get_map-calm env calm at w) (rw free (refl, free, refl))

  -- Where no call fails and nobody else writes, a publication of a configuration whose ConfigMap is
  -- missing, or holds bytes with another hash that the memo does not call verified, ends without an
  -- error and with a ConfigMap of its name that holds the configuration. In the second case alone
  -- it reports a tampered ConfigMap, the one it met.
  pub publish_config-Published :
      (w : World) (reported : List Text)
      → (Missing w × (reported ≡ w.tampered))
        ⊎ ((cm : ConfigMap) × Tampered cm w × (reported ≡ at ∷ w.tampered))
      → ((publish_config env hash gw json checksum w).0 ≡ none)
        × ((cm : ConfigMap) × (find_map
                (config_map_name gw checksum)
                (publish_config env hash gw json checksum w).1.cluster.config_maps
              ≡ some cm)
            × (cm.payload ≡ json))
        × ((publish_config env hash gw json checksum w).1.tampered ≡ reported)
  unfolding publish_config
  publish_config-Published w reported (inl (free, r)) =
      rw r (create_unless_found-Published w.tampered _ (verify_existing_config_map-free w free))
  publish_config-Published w reported (inr (cm, bad, r)) = rw r (
      create_unless_found-Published (at ∷ w.tampered) _
        (verify_existing_config_map-Cleared cm w bad))
