-- ===== src/Config/Cluster/Calls.antt =====
-- What each call leaves of a store whose ConfigMaps hold the payload of their version.
use kraken_d_operator.Base.{
  ℕ, suc, false, Option, none, some, List, [], ◌∷◌, ◌≡◌, refl, sym, All, All-delete_func, Any,
  Any-delete_func, delete_func, Bool-cases, inl, inr, arith,
}
use kraken_d_operator.Base.Texts.{Text, text_eq, text_eq_iff}
use kraken_d_operator.Memo.Versions.{ConfigMapVersion}
use kraken_d_operator.Config.Cluster.{
  ConfigMap, Cluster, not_found, Answer, answered, refused, Surroundings, World, named_as, find_map,
  reach, with_maps, get_answer, get_map, create_answer, create_map, delete_answer, delete_map,
}

find_map-All :
    (P : ConfigMap → Type 0) (name : Text) (cms : List ConfigMap) (cm : ConfigMap)
    → All P cms
    → find_map name cms ≡ some cm
    → P cm
find_map-All P name [] cm h e = ground arith
find_map-All P name (x ∷ xs) cm (p, h) e = elim (Bool-cases (text_eq x.name name)) [
  | inl hit ↦ let same : x ≡ cm = ground (arith, (rw hit at e)) in rw (← same) p
  | inr miss ↦ find_map-All P name xs cm h (rw miss at e)
]

-- The payload of each ConfigMap is its version's.
abbrev pub Coherent : (ConfigMapVersion → Text) → Cluster → Type 0
Coherent content c = All (λ cm. cm.payload ≡ content cm.version) c.config_maps

-- What a read found is in the store.
abbrev pub Reads : Text → Answer ConfigMap → World → Type 0
Reads name (refused e) w = Unit
Reads name (answered cm) w = find_map name w.cluster.config_maps ≡ some cm

module _ (env : Surroundings) where
  get_answer-Reads :
      (name : Text) (w : World) (e : Option Text) (found : Option ConfigMap)
      → find_map name w.cluster.config_maps ≡ found
      → Reads name (get_answer env e found) w
  unfolding get_answer
  get_answer-Reads name w (some e) found h = tt
  get_answer-Reads name w none none h = tt
  get_answer-Reads name w none (some cm) h = h

  pub get_map-Reads : (name : Text) (w : World) → Reads name (get_map env name w).0 (reach env w)
  unfolding get_map
  get_map-Reads name w = get_answer-Reads name (reach env w) _ _ refl

-- What a creation answers is what it was asked to create.
abbrev pub Creates : ConfigMap → Answer ConfigMap → Type 0
Creates asked (refused e) = Unit
Creates asked (answered cm) = cm.payload ≡ asked.payload

module _ (env : Surroundings) where
  create_answer-Creates :
      (asked cm : ConfigMap) (e : Option Text) (found : Option ConfigMap) (w : World)
      → cm.payload ≡ asked.payload
      → Creates asked (create_answer env cm e found w).0
        × ((create_answer env cm e found w).1.verified ≡ w.verified)
  unfolding create_answer
  create_answer-Creates asked cm (some e) found w p = (tt, refl)
  create_answer-Creates asked cm none (some other) w p = (tt, refl)
  create_answer-Creates asked cm none none w p = (p, refl)

  pub create_map-Creates :
      (cm : ConfigMap) (w : World)
      → Creates cm (create_map env cm w).0 × ((create_map env cm w).1.verified ≡ w.verified)
  unfolding create_map
  create_map-Creates cm w = create_answer-Creates cm _ _ _ (reach env w) refl

  delete_answer-verified :
      (name uid : Text) (e : Option Text) (found : Option ConfigMap) (w : World)
      → (delete_answer env name uid e found w).1.verified ≡ w.verified
  unfolding delete_answer
  delete_answer-verified name uid (some e) found w = refl
  delete_answer-verified name uid none none w = refl
  delete_answer-verified name uid none (some cm) w =
      ground (arith, Bool-cases (text_eq cm.version.uid uid))

  pub delete_map-verified :
      (name uid : Text) (w : World) → (delete_map env name uid w).1.verified ≡ w.verified
  unfolding delete_map
  delete_map-verified name uid w = delete_answer-verified name uid _ _ (reach env w)

module _ (env : Surroundings) (content : ConfigMapVersion → Text)
    (others-Coherent : (n : ℕ) (c : Cluster)
      → Coherent content c
      → Coherent content (env.others n c))
    (assigned : (n : ℕ) (d : Text) → content (env.assign n d) ≡ d) where
  pub Coherent-payload :
      (name : Text) (c : Cluster) (cm : ConfigMap)
      → Coherent content c
      → find_map name c.config_maps ≡ some cm
      → cm.payload ≡ content cm.version
  Coherent-payload name c cm h e =
      find_map-All (λ x. x.payload ≡ content x.version) name c.config_maps cm h e

  create_answer-Coherent :
      (cm : ConfigMap) (e : Option Text) (found : Option ConfigMap) (w : World)
      → cm.payload ≡ content cm.version
      → Coherent content w.cluster
      → Coherent content (create_answer env cm e found w).1.cluster
        × Reads cm.name (create_answer env cm e found w).0 (create_answer env cm e found w).1
  unfolding create_answer
  create_answer-Coherent cm (some e) found w p h = (h, tt)
  create_answer-Coherent cm none (some other) w p h = (h, tt)
  create_answer-Coherent cm none none w p h =
      ((p, h), rw ((text_eq_iff cm.name cm.name).1 refl) refl)

  pub create_map-Coherent :
      (cm : ConfigMap) (w : World)
      → Coherent content w.cluster
      → Coherent content (create_map env cm w).1.cluster
        × Reads cm.name (create_map env cm w).0 (create_map env cm w).1
  unfolding create_map
  create_map-Coherent cm w h =
      create_answer-Coherent _ _ _ (reach env w) (sym (assigned w.calls cm.payload))
        (others-Coherent w.calls w.cluster h)

  delete_answer-Coherent :
      (name uid : Text) (e : Option Text) (found : Option ConfigMap) (w : World)
      → Coherent content w.cluster
      → Coherent content (delete_answer env name uid e found w).1.cluster
  unfolding delete_answer
  delete_answer-Coherent name uid (some e) found w h = h
  delete_answer-Coherent name uid none none w h = h
  delete_answer-Coherent name uid none (some cm) w h =
      elim (Bool-cases (text_eq cm.version.uid uid)) [
        | inl same ↦ rw same (All-delete_func _ (named_as name) w.cluster.config_maps h)
        | inr other ↦ rw other h
      ]

  pub delete_map-Coherent :
      (name uid : Text) (w : World)
      → Coherent content w.cluster
      → Coherent content (delete_map env name uid w).1.cluster
  unfolding delete_map
  delete_map-Coherent name uid w h =
      delete_answer-Coherent name uid _ _ (reach env w) (others-Coherent w.calls w.cluster h)

module _ (env : Surroundings) where
  delete_answer-Any :
      (name uid : Text) (e : Option Text) (found : Option ConfigMap) (w : World)
      → ((delete_answer env name uid e found w).1.cluster.replica_sets ≡ w.cluster.replica_sets)
        × ((P : ConfigMap → Type 0)
            → ((cm : ConfigMap) → P cm → named_as name cm ≡ false)
            → Any P w.cluster.config_maps
            → Any P (delete_answer env name uid e found w).1.cluster.config_maps)
  unfolding delete_answer
  delete_answer-Any name uid (some e) found w = (refl, λ P k h. h)
  delete_answer-Any name uid none none w = (refl, λ P k h. h)
  delete_answer-Any name uid none (some cm) w = elim (Bool-cases (text_eq cm.version.uid uid)) [
    | inl same ↦
        rw same (refl, λ P k h. Any-delete_func P (named_as name) w.cluster.config_maps k h)
    | inr other ↦ rw other (refl, λ P k h. h)
  ]

  -- A deletion leaves the ReplicaSets and the ConfigMaps of other names.
  pub delete_map-Any :
      (name uid : Text) (w : World)
      → ((delete_map env name uid w).1.cluster.replica_sets
          ≡ (env.others w.calls w.cluster).replica_sets)
        × ((P : ConfigMap → Type 0)
            → ((cm : ConfigMap) → P cm → named_as name cm ≡ false)
            → Any P (env.others w.calls w.cluster).config_maps
            → Any P (delete_map env name uid w).1.cluster.config_maps)
  unfolding delete_map
  delete_map-Any name uid w = delete_answer-Any name uid _ _ (reach env w)

-- Nobody else writes, and no call fails.
abbrev pub Calm : Surroundings → Type 0
Calm env = ((n : ℕ) (c : Cluster) → env.others n c ≡ c) × ((n : ℕ) → env.fault n ≡ none)

module _ (env : Surroundings) (calm : Calm env) where
  abbrev answer_of : Option ConfigMap → Answer ConfigMap
  answer_of none = refused not_found
  answer_of (some cm) = answered cm

  get_answer-calm : (found : Option ConfigMap) → get_answer env none found ≡ answer_of found
  unfolding get_answer
  get_answer-calm none = refl
  get_answer-calm (some cm) = refl

  pub get_map-calm :
      (name : Text) (w : World)
      → get_map env name w
        ≡ (answer_of (find_map name w.cluster.config_maps), record w { calls = suc w.calls })
  unfolding get_map
  get_map-calm name w =
      rw
        (
          calm.0 w.calls w.cluster,
          calm.1 w.calls,
          get_answer-calm (find_map name w.cluster.config_maps),
        )
        refl

  find_map-delete_func :
      (name : Text) (cms : List ConfigMap) → find_map name (delete_func (named_as name) cms) ≡ none
  find_map-delete_func name [] = refl
  find_map-delete_func name (cm ∷ cms) = elim (Bool-cases (text_eq cm.name name)) [
    | inl hit ↦ rw hit (find_map-delete_func name cms)
    | inr miss ↦ rw (miss, find_map-delete_func name cms) (rw miss refl)
  ]

  -- A deletion of the version that is there answers, and leaves no ConfigMap of the name.
  pub delete_map-calm :
      (name : Text) (cm : ConfigMap) (w : World)
      → find_map name w.cluster.config_maps ≡ some cm
      → (w' : World) × (delete_map env name cm.version.uid w ≡ (answered tt, w'))
        × (find_map name w'.cluster.config_maps ≡ none)
        × (w'.tampered ≡ w.tampered)
  unfolding delete_map delete_answer
  delete_map-calm name cm w found = (
    with_maps env (λ cms. delete_func (named_as name) cms) (record w { calls = suc w.calls }),
    rw
        (
          calm.0 w.calls w.cluster,
          calm.1 w.calls,
          found,
          (text_eq_iff cm.version.uid cm.version.uid).1 refl,
        )
        refl,
    find_map-delete_func name w.cluster.config_maps,
    refl,
  )

  -- A creation under a name that is free answers, and the ConfigMap is there.
  pub create_map-calm :
      (cm : ConfigMap) (w : World)
      → find_map cm.name w.cluster.config_maps ≡ none
      → (w' : World) × (made : ConfigMap) × (create_map env cm w ≡ (answered made, w'))
        × (find_map cm.name w'.cluster.config_maps ≡ some made)
        × (made.payload ≡ cm.payload)
        × (w'.tampered ≡ w.tampered)
  unfolding create_map create_answer
  create_map-calm cm w free =
      let made = record cm {
        version = env.assign w.calls cm.payload;
        creation_timestamp = env.now w.calls;
      } in
      (
        with_maps env (λ cms. made ∷ cms) (record w { calls = suc w.calls }),
        made,
        rw (calm.0 w.calls w.cluster, calm.1 w.calls, free) refl,
        rw ((text_eq_iff cm.name cm.name).1 refl) refl,
        refl,
        refl,
      )
