-- ===== src/Config/Publish/Sound.antt =====
-- What is served after the configuration was published or kept, for any other clients that only
-- write ConfigMaps of their own versions.
use kraken_d_operator.Base.{
  ℕ, true, false, Option, none, some, ◌≡◌, ap, inl, inr, arith, Bool-cases,
}
use kraken_d_operator.Base.Texts.{Text, text_eq, text_eq_iff}
use kraken_d_operator.Memo.Versions.{ConfigMapVersion, has, remember, forget}
use kraken_d_operator.Memo.Versions.Steps.{has-remember_cases, has-forget}
use kraken_d_operator.Config.Cluster.{
  ConfigMap, Cluster, not_found, already_exists, conflict, failed, Answer, answered, refused,
  Surroundings, World, find_map, get_map, create_map, delete_map, reach,
}
use kraken_d_operator.Config.Cluster.Calls.{
  Coherent, Reads, Coherent-payload, get_map-Reads, create_map-Coherent, delete_map-Coherent,
  create_map-Creates, delete_map-verified,
}
use kraken_d_operator.Config.Publish.{
  Gateway, config_map_name, verify_config_map, Found, after_delete, judge_payload, verify_payload,
  not_our_copy, judge_metadata, judge_existing, verify_existing_config_map,
}

-- The store holds a ConfigMap at the configuration's name, and its payload hashes to a checksum
-- with that name.
abbrev pub Serves : (Text → Text) → Gateway → Text → World → Type 0
Serves hash gw checksum w =
    (cm : ConfigMap) × (find_map (config_map_name gw checksum) w.cluster.config_maps ≡ some cm)
    × (config_map_name gw (hash cm.payload) ≡ config_map_name gw checksum)

-- Each ConfigMap holds its version's payload, and the memo has only versions whose payload
-- belongs to the name that it is remembered under.
abbrev pub IsSound : (Text → Text) → Gateway → (ConfigMapVersion → Text) → World → Type 0
IsSound hash gw content w =
    Coherent content w.cluster
    × ((name : Text) (v : ConfigMapVersion)
        → has gw.key name v w.verified ≡ true
        → config_map_name gw (hash (content v)) ≡ name)

-- the outcome of a verification
abbrev pub VerifiesFor :
    (Text → Text) → Gateway → (ConfigMapVersion → Text) → Text → Found × World → Type 0
VerifiesFor hash gw content checksum ((found, e), w) =
    IsSound hash gw content w × (found ≡ true → e ≡ none → Serves hash gw checksum w)

module _ (env : Surroundings) (hash : Text → Text) (gw : Gateway)
    (content : ConfigMapVersion → Text)
    (others-Coherent : (n : ℕ) (c : Cluster)
      → Coherent content c
      → Coherent content (env.others n c))
    (assigned : (n : ℕ) (d : Text) → content (env.assign n d) ≡ d) where
  abbrev Sound : World → Type 0
  Sound = IsSound hash gw content

  abbrev Verifies : Text → Found × World → Type 0
  Verifies = VerifiesFor hash gw content

  reach-Sound : (w : World) → Sound w → Sound (reach env w)
  reach-Sound w (c, m) = (others-Coherent w.calls w.cluster c, m)

  -- a version that the memo may get
  pub remember-Sound :
      (n : Text) (v : ConfigMapVersion) (w : World)
      → Sound w
      → config_map_name gw (hash (content v)) ≡ n
      → Sound (record w { verified = remember gw.key n v w.verified })
  remember-Sound n v w (c, m) e = (
    c,
    λ name u h. elim (has-remember_cases gw.key n name v u w.verified h) [
      | inl (same, it) ↦ rw (← it) (rw (← same) e)
      | inr before ↦ m name u before
    ],
  )

  forget-Sound :
      (n : Text) (w : World) → Sound w → Sound (record w { verified = forget gw.key n w.verified })
  forget-Sound n w (c, m) = (c, λ name u h. m name u (has-forget gw.key n name u w.verified h))

  delete_map-Sound : (name uid : Text) (w : World) → Sound w → Sound (delete_map env name uid w).1
  delete_map-Sound name uid w (c, m) = (
    delete_map-Coherent env content others-Coherent assigned name uid w c,
    rw (delete_map-verified env name uid w) m,
  )

  pub create_map-Sound : (cm : ConfigMap) (w : World) → Sound w → Sound (create_map env cm w).1
  create_map-Sound cm w (c, m) = (
    (create_map-Coherent env content others-Coherent assigned cm w c).0,
    rw ((create_map-Creates env cm w).1) m,
  )

  -- what a read found, if its payload hashes to a checksum with the name
  Serves-of_found :
      (checksum : Text) (cm : ConfigMap) (w : World)
      → Reads (config_map_name gw checksum) (answered cm) w
      → config_map_name gw (hash cm.payload) ≡ config_map_name gw checksum
      → Serves hash gw checksum w
  Serves-of_found checksum cm w r e = (cm, r, e)

  after_delete-Verifies :
      (checksum name : Text) (p : Answer (Unit {0}) × World)
      → Sound p.1
      → Verifies checksum (after_delete env hash gw name p)
  unfolding after_delete
  after_delete-Verifies checksum name (answered u, w) s = (s, λ e _. ground arith)
  after_delete-Verifies checksum name (refused not_found, w) s = (s, λ e _. ground arith)
  after_delete-Verifies checksum name (refused already_exists, w) s = (s, λ _ e. ground arith)
  after_delete-Verifies checksum name (refused conflict, w) s = (s, λ _ e. ground arith)
  after_delete-Verifies checksum name (refused (failed x), w) s = (s, λ _ e. ground arith)

  judge_payload-Verifies :
      (checksum : Text) (p : Answer ConfigMap × World)
      → Sound p.1
      → Reads (config_map_name gw checksum) p.0 p.1
      → Verifies checksum (judge_payload env hash gw (config_map_name gw checksum) checksum p)
  unfolding judge_payload
  judge_payload-Verifies checksum (refused x, w) s r = (s, λ e _. ground arith)
  judge_payload-Verifies checksum (answered full, w) s r =
      let name = config_map_name gw checksum in
      elim (Bool-cases (text_eq (hash full.payload) checksum)) [
        | inl same ↦
            let e = ap (config_map_name gw) ((text_eq_iff (hash full.payload) checksum).0 same) in
            let p =
              Coherent-payload env content others-Coherent assigned name w.cluster full s.0 r in
            rw same (remember-Sound name full.version w s (rw p at e), λ _ _. (full, r, e))
        | inr other ↦ rw other (
            after_delete-Verifies checksum name _
              (delete_map-Sound name full.version.uid _ (forget-Sound name w s)))
      ]

  -- a read, with what it found
  pub get_map-Sound :
      (name : Text) (w : World)
      → Sound w
      → Sound (get_map env name w).1 × Reads name (get_map env name w).0 (get_map env name w).1
  unfolding get_map
  get_map-Sound name w s = (reach-Sound w s, get_map-Reads env name w)

  verify_payload-Verifies :
      (checksum : Text) (w : World)
      → Sound w
      → Verifies checksum (verify_payload env hash gw (config_map_name gw checksum) checksum w)
  unfolding verify_payload
  verify_payload-Verifies checksum w s =
      let (s', r) = get_map-Sound (config_map_name gw checksum) w s in
      judge_payload-Verifies checksum (get_map env (config_map_name gw checksum) w) s' r

  not_our_copy-Verifies :
      (checksum e : Text) (p : Found × World)
      → Verifies checksum p
      → Verifies checksum (not_our_copy env hash gw e p)
  unfolding not_our_copy
  not_our_copy-Verifies checksum e ((true, some x), w) v = v
  not_our_copy-Verifies checksum e ((false, some x), w) v = v
  not_our_copy-Verifies checksum e ((false, none), w) v = v
  not_our_copy-Verifies checksum e ((true, none), w) (s, _) = (s, λ _ d. ground arith)

  judge_metadata-Verifies :
      (checksum : Text) (cm : ConfigMap) (w : World) (e : Option Text)
      → Sound w
      → Reads (config_map_name gw checksum) (answered cm) w
      → Verifies checksum (judge_metadata env hash gw (config_map_name gw checksum) checksum cm w e)
  unfolding judge_metadata
  judge_metadata-Verifies checksum cm w (some e) s r =
      let name = config_map_name gw checksum in
      elim (Bool-cases (has gw.key name cm.version w.verified)) [
        | inl known ↦ rw known (s, λ _ d. ground arith)
        | inr unknown ↦
            rw unknown (not_our_copy-Verifies checksum e _ (verify_payload-Verifies checksum w s))
      ]
  judge_metadata-Verifies checksum cm w none s r =
      let name = config_map_name gw checksum in
      elim (Bool-cases (has gw.key name cm.version w.verified)) [
        | inl known ↦
            let p = Coherent-payload env content others-Coherent assigned name w.cluster cm s.0 r in
            rw known (s, λ _ _. (cm, r, rw p (s.1 name cm.version known)))
        | inr unknown ↦ rw unknown (verify_payload-Verifies checksum w s)
      ]

  judge_existing-Verifies :
      (checksum : Text) (p : Answer ConfigMap × World)
      → Sound p.1
      → Reads (config_map_name gw checksum) p.0 p.1
      → Verifies checksum (judge_existing env hash gw (config_map_name gw checksum) checksum p)
  unfolding judge_existing
  judge_existing-Verifies checksum (refused x, w) s r = (s, λ e _. ground arith)
  judge_existing-Verifies checksum (answered cm, w) s r =
      judge_metadata-Verifies checksum cm w (verify_config_map gw checksum cm) s r

  pub verify_existing_config_map-Verifies :
      (checksum : Text) (w : World)
      → Sound w
      → Verifies checksum (verify_existing_config_map env hash gw checksum w)
  unfolding verify_existing_config_map
  verify_existing_config_map-Verifies checksum w s =
      let (s', r) = get_map-Sound (config_map_name gw checksum) w s in
      judge_existing-Verifies checksum (get_map env (config_map_name gw checksum) w) s' r
