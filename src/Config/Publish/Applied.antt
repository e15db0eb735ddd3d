-- ===== src/Config/Publish/Applied.antt =====
-- What a publication serves, and what the gateway's applied configuration is served from.
use kraken_d_operator.Base.{
  ℕ, true, false, Option, none, some, [], ◌≡◌, ◌≢◌, ◌⊎◌, refl, inl, inr, arith, Bool-cases,
}
use kraken_d_operator.Base.Texts.{Text, text_eq, text_eq_iff}
use kraken_d_operator.Memo.Versions.{ConfigMapVersion}
use kraken_d_operator.Config.Cluster.{
  ConfigMap, Cluster, not_found, already_exists, conflict, failed, Answer, answered, refused,
  Surroundings, World, create_map,
}
use kraken_d_operator.Config.Cluster.Calls.{
  Coherent, Reads, Coherent-payload, create_map-Coherent, Creates, create_map-Creates,
}
use kraken_d_operator.Config.Publish.{
  Gateway, config_map_name, build_config_map, Found, after_lost_race, after_create,
  create_unless_found, publish_config, found_legacy, legacy_config, is_controlled_by, ConfigResult,
  applied_unless_error, publish_applied, Named, named_unless_error, restore, unless_found,
  applied_config_map_name,
}
use kraken_d_operator.Config.Publish.Sound.{
  Serves, IsSound, VerifiesFor, remember-Sound, create_map-Sound, get_map-Sound,
  verify_existing_config_map-Verifies,
}

-- The outcome of the stage that applies a configuration.
abbrev pub Applies :
    (Text → Text)
    → Gateway
    → (ConfigMapVersion → Text)
    → Text
    → (ConfigResult × Option Text) × World
    → Type 0
Applies hash gw content checksum ((result, e), w) =
    IsSound hash gw content w
    × (((e ≡ none)
          × (result.held_because ≡ none)
          × (result.applied_config_map ≡ config_map_name gw checksum)
          × Serves hash gw checksum w)
        ⊎ ((x : Text) × (e ≡ some x)
            × (result.held_because ≡ some x)
            × (result.applied_config_map ≡ [])))

module _ (env : Surroundings) (hash : Text → Text) (gw : Gateway)
    (content : ConfigMapVersion → Text)
    (others-Coherent : (n : ℕ) (c : Cluster)
      → Coherent content c
      → Coherent content (env.others n c))
    (assigned : (n : ℕ) (d : Text) → content (env.assign n d) ≡ d) where
  abbrev Sound : World → Type 0
  Sound = IsSound hash gw content

  abbrev Verifies : Text → Found × World → Type 0
  Verifies = VerifiesFor hash gw content

  -- the outcome of a publication
  abbrev Publishes : Text → Option Text × World → Type 0
  Publishes checksum (e, w) = Sound w × (e ≡ none → Serves hash gw checksum w)

  after_lost_race-Publishes :
      (checksum name : Text) (p : Found × World)
      → Verifies checksum p
      → Publishes checksum (after_lost_race env hash gw name p)
  unfolding after_lost_race
  after_lost_race-Publishes checksum name ((true, none), w) (s, h) = (s, h refl)
  after_lost_race-Publishes checksum name ((false, none), w) (s, h) = (s, λ d. ground arith)
  after_lost_race-Publishes checksum name ((true, some e), w) (s, h) = (s, λ d. ground arith)
  after_lost_race-Publishes checksum name ((false, some e), w) (s, h) = (s, λ d. ground arith)

  module _ (json checksum : Text) (hashes : hash json ≡ checksum) where
    abbrev asked : ConfigMap
    asked = build_config_map gw json checksum

    after_create-Publishes :
        (p : Answer ConfigMap × World)
        → Sound p.1
        → Reads (config_map_name gw checksum) p.0 p.1
        → Creates asked p.0
        → Publishes checksum (after_create env hash gw (config_map_name gw checksum) checksum p)
    unfolding after_create build_config_map
    after_create-Publishes (answered cm, w) s r c =
        let name = config_map_name gw checksum in
        let p = Coherent-payload env content others-Coherent assigned name w.cluster cm s.0 r in
        let e : config_map_name gw (hash cm.payload) ≡ name = rw (c, hashes) refl in
        (
          remember-Sound env hash gw content others-Coherent assigned name cm.version w s
              (rw p at e),
          λ _. (cm, r, e),
        )
    after_create-Publishes (refused already_exists, w) s r c =
        after_lost_race-Publishes checksum (config_map_name gw checksum) _ (
          verify_existing_config_map-Verifies env hash gw content others-Coherent assigned checksum
            w s)
    after_create-Publishes (refused not_found, w) s r c = (s, λ d. ground arith)
    after_create-Publishes (refused conflict, w) s r c = (s, λ d. ground arith)
    after_create-Publishes (refused (failed x), w) s r c = (s, λ d. ground arith)

    create_unless_found-Publishes :
        (p : Found × World)
        → Verifies checksum p
        → Publishes checksum (create_unless_found env hash gw json checksum p)
    unfolding create_unless_found
    create_unless_found-Publishes ((true, e), w) (s, h) = (s, h refl)
    create_unless_found-Publishes ((false, some e), w) (s, h) = (s, λ d. ground arith)
    create_unless_found-Publishes ((false, none), w) (s, h) =
        after_create-Publishes (create_map env asked w)
          (create_map-Sound env hash gw content others-Coherent assigned asked w s)
          ((unfold build_config_map in
            (create_map-Coherent env content others-Coherent assigned asked w s.0).1))
          (create_map-Creates env asked w).0

    publish_config-Publishes :
        (w : World) → Sound w → Publishes checksum (publish_config env hash gw json checksum w)
    unfolding publish_config
    publish_config-Publishes w s = create_unless_found-Publishes _ (
        verify_existing_config_map-Verifies env hash gw content others-Coherent assigned checksum w
          s)

  -- the outcome of the look for the applied configuration
  abbrev Names : Named × World → Type 0
  Names ((name, e), w) =
      Sound w
      × (e ≡ none
          → name ≢ []
          → (name ≡ config_map_name gw gw.config_checksum) × Serves hash gw gw.config_checksum w)

  named_unless_error-Names :
      (p : Option Text × World)
      → Publishes gw.config_checksum p
      → Names (named_unless_error env hash gw (config_map_name gw gw.config_checksum) p)
  unfolding named_unless_error
  named_unless_error-Names (none, w) (s, h) = (s, λ _ _. (refl, h refl))
  named_unless_error-Names (some e, w) (s, h) = (s, λ d _. ground arith)

  restore-Names :
      (p : (Option Text × Option Text) × World) → Sound p.1 → Names (restore env hash gw p)
  unfolding restore
  restore-Names ((none, e), w) s = (s, λ _ n. absurd (n refl))
  restore-Names ((some legacy, some e), w) s = (s, λ d _. ground arith)
  restore-Names ((some legacy, none), w) s =
      let checksum = gw.config_checksum in
      elim (Bool-cases (text_eq (hash legacy) checksum)) [
        | inl same ↦ rw same (
            named_unless_error-Names _ (
              publish_config-Publishes legacy checksum ((text_eq_iff (hash legacy) checksum).0 same)
                w s))
        | inr other ↦ rw other (s, λ _ n. absurd (n refl))
      ]

  found_legacy-Sound :
      (p : Answer ConfigMap × World) → Sound p.1 → Sound (found_legacy env hash gw p).1
  unfolding found_legacy
  found_legacy-Sound (refused e, w) s = s
  found_legacy-Sound (answered cm, w) s = elim (Bool-cases (is_controlled_by cm gw)) [
    | inl own ↦ rw own s
    | inr other ↦ rw other s
  ]

  unless_found-Names :
      (p : Found × World) → Verifies gw.config_checksum p → Names (unless_found env hash gw p)
  unfolding unless_found legacy_config
  unless_found-Names ((true, some e), w) (s, h) = (s, λ d _. ground arith)
  unless_found-Names ((false, some e), w) (s, h) = (s, λ d _. ground arith)
  unless_found-Names ((true, none), w) (s, h) = (s, λ _ _. (refl, h refl refl))
  unless_found-Names ((false, none), w) (s, h) = restore-Names _ (
      found_legacy-Sound _
        (get_map-Sound env hash gw content others-Coherent assigned gw.key.name w s).0)

  applied_config_map_name-Names :
      (w : World) → Sound w → Names (applied_config_map_name env hash gw w)
  unfolding applied_config_map_name
  applied_config_map_name-Names w s = elim (Bool-cases (text_eq gw.config_checksum [])) [
    | inl never ↦ rw never (s, λ _ n. absurd (n refl))
    | inr applied ↦ rw applied (
        unless_found-Names _ (
          verify_existing_config_map-Verifies env hash gw content others-Coherent assigned
            gw.config_checksum w s))
  ]

  -- If the look for the applied configuration ends without an error and with a name, then the name
  -- is that of the applied checksum, and the store has a ConfigMap of that name whose payload
  -- hashes to a checksum with the name.
  pub applied_config_map_name-Serves :
      (w : World)
      → Sound w
      → (applied_config_map_name env hash gw w).0.1 ≡ none
      → (applied_config_map_name env hash gw w).0.0 ≢ []
      → ((applied_config_map_name env hash gw w).0.0 ≡ config_map_name gw gw.config_checksum)
        × Serves hash gw gw.config_checksum (applied_config_map_name env hash gw w).1
  applied_config_map_name-Serves w s = (applied_config_map_name-Names w s).1

  applied_unless_error-Serves :
      (checksum : Text) (p : Option Text × World)
      → Publishes checksum p
      → Applies hash gw content checksum
          (applied_unless_error env hash gw (config_map_name gw checksum) p)
  unfolding applied_unless_error
  applied_unless_error-Serves checksum (none, w) (s, h) = (s, inl (refl, refl, refl, h refl))
  applied_unless_error-Serves checksum (some e, w) (s, h) = (s, inr (e, refl, refl, refl))

  -- Publishing the rendered configuration, whose checksum is its hash, ends in one of two ways.
  -- Without an error the stage names the configuration's ConfigMap, and the store has one of that
  -- name whose payload hashes to a checksum with the name. With an error the stage names none and
  -- holds the Deployment because of that error. The store and the memo stay sound both ways.
  pub publish_applied-Applies :
      (json checksum : Text) (w : World)
      → hash json ≡ checksum
      → Sound w
      → Applies hash gw content checksum (publish_applied env hash gw json checksum w)
  unfolding publish_applied
  publish_applied-Applies json checksum w hashes s =
      applied_unless_error-Serves checksum _ (publish_config-Publishes json checksum hashes w s)
