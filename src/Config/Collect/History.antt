-- ===== src/Config/Collect/History.antt =====
-- Which ConfigMaps may be collected.
use kraken_d_operator.Base.{
  ℕ, suc, ◌+◌, ◌≤◌, Bool, true, false, ◌&&◌, not, List, [], ◌∷◌, ◌++◌, ◌≡◌, ◌≢◌, ◌⊎◌, inl, inr,
  refl, All, Any, Any-map, Any-append_cases, All-delete_func, Bool-cases, arith, length, ltb,
  delete_func, if◌then◌else◌,
}
use kraken_d_operator.Base.Texts.{Text, text_eq, text_eq_iff}
use kraken_d_operator.Route.Entries.{sort_by}
use kraken_d_operator.Route.Entries.Order.{
  text_lt-asym, text_lt-trans_false, IsSorted, Any-sort_by, sort_by-IsSorted,
}
use kraken_d_operator.Config.Cluster.{ConfigMap}
use kraken_d_operator.Config.Publish.{Gateway, is_controlled_by}
use kraken_d_operator.Config.Collect.{
  config_map_history_limit, has_revision, is_left, newer, revisions_of, legacy_of, beyond_history,
  config_map_gc_candidates,
}

newer-asym : (a b : ConfigMap) → newer a b ≡ true → newer b a ≡ false
unfolding newer
newer-asym a b h = ground (arith, text_lt-asym a.name b.name)

newer-trans_false : (a b c : ConfigMap) → newer a b ≡ false → newer b c ≡ false → newer a c ≡ false
unfolding newer
newer-trans_false a b c h k = ground (arith, text_lt-trans_false a.name b.name c.name)

module _ {A : Type 0} (before : A → A → Bool) where
  IsSorted-delete_func :
      (p : A → Bool) (xs : List A) → IsSorted before xs → IsSorted before (delete_func p xs)
  IsSorted-delete_func p [] h = tt
  IsSorted-delete_func p (x ∷ xs) (a, s) = elim (Bool-cases (p x)) [
    | inl gone ↦ rw gone (IsSorted-delete_func p xs s)
    | inr kept ↦ rw kept (All-delete_func _ p xs a, IsSorted-delete_func p xs s)
  ]

  All-append_right : (P : A → Type 0) (xs ys : List A) → All P (xs ++ ys) → All P ys
  All-append_right P [] ys h = h
  All-append_right P (x ∷ xs) ys (p, h) = All-append_right P xs ys h

  -- in a sorted list nothing of the back stands before anything of the front
  IsSorted-append :
      (xs ys : List A) → IsSorted before (xs ++ ys) → All (λ x. All (λ y. before y x ≡ false) ys) xs
  IsSorted-append [] ys s = tt
  IsSorted-append (x ∷ xs) ys (a, s) = (All-append_right _ xs ys a, IsSorted-append xs ys s)

abbrev is_named : Text → ConfigMap → Bool
is_named name cm = text_eq cm.name name

-- what the loop over the revisions keeps
within_history : Text → ℕ → List ConfigMap → List ConfigMap
within_history in_use kept [] = []
within_history in_use kept (cm ∷ cms) =
    let skipped = within_history in_use kept cms in
    let counted = cm ∷ within_history in_use (suc kept) cms in
    if text_eq cm.name in_use then skipped else if ltb kept 3 then counted else skipped

within_history-full :
    (in_use : Text) (k : ℕ) (cms : List ConfigMap) → 3 ≤ k → within_history in_use k cms ≡ []
unfolding within_history
within_history-full in_use k [] h = refl
within_history-full in_use k (cm ∷ cms) h = ground (arith, within_history-full in_use k cms h)

within-beyond :
    (in_use : Text) (k : ℕ) (cms : List ConfigMap)
    → delete_func (is_named in_use) cms ≡ within_history in_use k cms ++ beyond_history in_use k cms
unfolding within_history beyond_history
within-beyond in_use k [] = refl
within-beyond in_use k (cm ∷ cms) = ground (
  arith,
  within-beyond in_use k cms,
  within-beyond in_use (suc k) cms,
  within_history-full in_use k cms,
)

length-within_history :
    (in_use : Text) (k : ℕ) (cms : List ConfigMap)
    → k ≤ 3
    → (length (within_history in_use k cms) + k ≤ 3)
      × ((length (within_history in_use k cms) + k ≡ 3) ⊎ (beyond_history in_use k cms ≡ []))
unfolding within_history beyond_history
length-within_history in_use k [] h = (omega arith, inr refl)
length-within_history in_use k (cm ∷ cms) h = elim (Bool-cases (text_eq cm.name in_use)) [
  | inl hit ↦ rw hit (length-within_history in_use k cms h)
  | inr miss ↦ elim (Bool-cases (ltb k 3)) [
    | inl room ↦
        let (l, c) = length-within_history in_use (suc k) cms (ground arith) in
        rw (miss, room) (omega arith, elim c [ inl e ↦ inl (omega arith) | inr e ↦ inr e ])
    | inr full ↦
        let e : length (within_history in_use k cms) ≡ 0 =
          rw (within_history-full in_use k cms (ground arith)) refl in
        rw (miss, full) (omega arith, inl (ground arith))
  ]
]

All-unit : {A : Type 0} (xs : List A) → All {A = A} (λ x. Unit {0}) xs
All-unit [] = tt
All-unit (x ∷ xs) = (tt, All-unit xs)

-- the gateway's other revisions, newest first
abbrev pub other_revisions : Gateway → List ConfigMap → Text → Text → List ConfigMap
other_revisions gw cms in_use mounted =
    delete_func (λ cm. text_eq cm.name in_use) (sort_by newer (revisions_of gw mounted cms))

-- Of the gateway's revisions that are neither in use nor mounted, sorted newest first, the
-- candidates are all but the first two, behind the legacy ConfigMap; no candidate is newer than a
-- revision that is kept.
pub config_map_gc_candidates-history :
    (gw : Gateway) (cms : List ConfigMap) (in_use mounted : Text)
    → (kept : List ConfigMap) × (old : List ConfigMap) × (other_revisions gw cms in_use mounted
        ≡ kept ++ old)
      × (config_map_gc_candidates gw cms in_use mounted ≡ legacy_of gw in_use mounted cms ++ old)
      × (length kept ≤ 2)
      × ((length kept ≡ 2) ⊎ (old ≡ []))
      × All (λ k. All (λ c. newer c k ≡ false) old) kept
unfolding config_map_gc_candidates
config_map_gc_candidates-history gw cms in_use mounted =
    let sorted = sort_by newer (revisions_of gw mounted cms) in
    let kept = within_history in_use 1 sorted in
    let old = beyond_history in_use 1 sorted in
    let split = within-beyond in_use 1 sorted in
    let (l, c) = length-within_history in_use 1 sorted (omega arith) in
    let order = IsSorted-delete_func newer (is_named in_use) sorted (
      sort_by-IsSorted newer (λ _. Unit {0}) newer-asym (λ x y z _ _ _. newer-trans_false x y z)
        (revisions_of gw mounted cms) (All-unit _)) in
    (
      kept,
      old,
      split,
      refl,
      omega arith,
      elim c [ inl e ↦ inl (omega arith) | inr e ↦ inr e ],
      IsSorted-append newer kept old (rw split at order),
    )

Any-revisions_of :
    (P : ConfigMap → Type 0) (gw : Gateway) (mounted : Text) (cms : List ConfigMap)
    → Any P (revisions_of gw mounted cms)
    → Any (λ cm. P cm × (is_left gw mounted cm ≡ true) × (has_revision cm ≡ true)) cms
unfolding revisions_of
Any-revisions_of P gw mounted [] h = h
Any-revisions_of P gw mounted (cm ∷ cms) h =
    elim (Bool-cases (is_left gw mounted cm && has_revision cm)) [
      | inr out ↦ inr (Any-revisions_of P gw mounted cms (rw out at h))
      | inl here ↦ elim (let u : P cm ⊎ Any P (revisions_of gw mounted cms) = rw here at h in u) [
        | inl p ↦ inl (p, ground arith, ground arith)
        | inr r ↦ inr (Any-revisions_of P gw mounted cms r)
      ]
    ]

Any-legacy_of :
    (P : ConfigMap → Type 0) (gw : Gateway) (in_use mounted : Text) (cms : List ConfigMap)
    → Any P (legacy_of gw in_use mounted cms)
    → Any
        (λ cm.
          P cm
          × (is_left gw mounted cm ≡ true)
          × (text_eq cm.name gw.key.name ≡ true)
          × (text_eq cm.name in_use ≡ false))
        cms
unfolding legacy_of
Any-legacy_of P gw in_use mounted [] h = h
Any-legacy_of P gw in_use mounted (cm ∷ cms) h =
    elim (Bool-cases (
      is_left gw mounted cm
      && not (has_revision cm)
      && (text_eq cm.name gw.key.name && not (text_eq cm.name in_use)))) [
        | inr out ↦ inr (Any-legacy_of P gw in_use mounted cms (rw out at h))
        | inl here ↦
            elim (let u : P cm ⊎ Any P (legacy_of gw in_use mounted cms) = rw here at h in u) [
              | inl p ↦ inl (p, ground arith, ground arith, ground arith)
              | inr r ↦ inr (Any-legacy_of P gw in_use mounted cms r)
            ]
      ]

Any-beyond_history :
    (P : ConfigMap → Type 0) (in_use : Text) (k : ℕ) (cms : List ConfigMap)
    → Any P (beyond_history in_use k cms)
    → Any (λ cm. P cm × (text_eq cm.name in_use ≡ false)) cms
unfolding beyond_history
Any-beyond_history P in_use k [] h = h
Any-beyond_history P in_use k (cm ∷ cms) h = elim (Bool-cases (text_eq cm.name in_use)) [
  | inl hit ↦ inr (Any-beyond_history P in_use k cms (rw hit at h))
  | inr miss ↦ elim (Bool-cases (ltb k config_map_history_limit)) [
    | inl room ↦ inr (Any-beyond_history P in_use (suc k) cms (rw (miss, room) at h))
    | inr full ↦
        elim (let u : P cm ⊎ Any P (beyond_history in_use k cms) = rw (miss, full) at h in u) [
          | inl p ↦ inl (p, miss)
          | inr r ↦ inr (Any-beyond_history P in_use k cms r)
        ]
  ]
]

text_ne : (s t : Text) → text_eq s t ≡ false → s ≢ t
text_ne s t h e = ground (arith, (text_eq_iff s t).1 e)

-- what makes a listed ConfigMap a candidate
abbrev pub IsCandidate : Gateway → Text → Text → ConfigMap → Type 0
IsCandidate gw in_use mounted cm =
    (is_controlled_by cm gw ≡ true)
    × (cm.name ≢ mounted)
    × (cm.name ≢ in_use)
    × ((has_revision cm ≡ true) ⊎ (cm.name ≡ gw.key.name))

-- A candidate with any property is a listed ConfigMap with it: one that the gateway controls, that
-- is neither in use nor mounted, and that is a revision or has the gateway's own name.
pub Any-config_map_gc_candidates :
    (P : ConfigMap → Type 0) (gw : Gateway) (cms : List ConfigMap) (in_use mounted : Text)
    → Any P (config_map_gc_candidates gw cms in_use mounted)
    → Any (λ cm. P cm × IsCandidate gw in_use mounted cm) cms
unfolding config_map_gc_candidates
Any-config_map_gc_candidates P gw cms in_use mounted h =
    elim (Any-append_cases P (legacy_of gw in_use mounted cms) _ h) [
      | inl l ↦
          Any-map _ _ cms
            (λ cm (p, left, own, unused). (
              p,
              (
                ground arith,
                text_ne cm.name mounted (ground arith),
                text_ne cm.name in_use unused,
                inr ((text_eq_iff cm.name gw.key.name).0 own),
              ),
            ))
            (Any-legacy_of P gw in_use mounted cms l)
      | inr r ↦
          Any-map _ _ cms
            (λ cm ((p, unused), left, revision). (
              p,
              (
                ground arith,
                text_ne cm.name mounted (ground arith),
                text_ne cm.name in_use unused,
                inl revision,
              ),
            ))
            (Any-revisions_of _ gw mounted cms (
              Any-sort_by newer _ (revisions_of gw mounted cms)
                (Any-beyond_history P in_use 1 _ r)))
    ]
