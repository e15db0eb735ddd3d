-- ===== src/AutoConfig/Plan/Writes.antt =====
-- What the writes of a pass leave of the desired endpoints, and of the others.
use mathlib.Core.Path.{subst}
use kraken_d_operator.Base.{
  Bool, true, false, ◌≡◌, ◌∙◌, inl, inr, refl, sym, arith, Option, none, some, List, [], ◌∷◌, All,
  Bool-cases,
}
use kraken_d_operator.Base.Maps.{lookup, insert, lookup-insert, IsKeyed}
use kraken_d_operator.Base.Texts.{Text, text_eq, text_eq_iff, text_key}
use kraken_d_operator.AutoConfig.Plan.{
  Labels, labels_contain, copy_labels, endpoint_spec_equal, Endpoint, Controlled, is_settled,
  stored, json_value, is_wanted, writes_of, or_created, merged, write_endpoint, write_all,
}

-- a copied label is read as the last one copied
lookup-copy_labels :
    (have want : Labels) (k : Text)
    → lookup k want ≡ none
    → lookup k (copy_labels have want) ≡ lookup k have
unfolding copy_labels
lookup-copy_labels have [] k h = refl
lookup-copy_labels have ((j, v) ∷ want) k h = elim (Bool-cases (text_eq j k)) [
  | inl same ↦ ground (arith, h, same)
  | inr other ↦
      lookup-copy_labels (insert j v have) want k (rw other at h)
      ∙ rw (lookup-insert j k v have) (rw other refl)
]

labels_contain-eq :
    (have have' want : Labels)
    → All (λ l. lookup l.0 have ≡ lookup l.0 have') want
    → labels_contain have want ≡ labels_contain have' want
unfolding labels_contain
labels_contain-eq have have' [] h = refl
labels_contain-eq have have' ((k, v) ∷ want) (e, h) =
    rw (e, labels_contain-eq have have' want h) refl

copy_labels-contains :
    (have want : Labels) → IsKeyed want → labels_contain (copy_labels have want) want ≡ true
unfolding copy_labels labels_contain
copy_labels-contains have [] h = refl
copy_labels-contains have ((k, v) ∷ want) (new, h) =
    let here : lookup k (copy_labels (insert k v have) want) ≡ some v =
      lookup-copy_labels (insert k v have) want k new
      ∙ rw (lookup-insert k k v have) (rw ((text_eq_iff k k).1 refl) refl) in
    rw (here, (text_eq_iff v v).1 refl, copy_labels-contains (insert k v have) want h) refl

module _ (Spec Value : Type 0) (marshal : Spec → Option Text) (unmarshal : Text → Option Value)
    (deep_equal : Value → Value → Bool) (encode : Spec → Spec) where
  abbrev pub Item : Type 0
  Item = Endpoint Spec Value marshal unmarshal deep_equal encode

  abbrev pub Store : Type 0
  Store = Controlled Spec Value marshal unmarshal deep_equal encode

  abbrev pub same_spec : Spec → Spec → Bool
  same_spec = endpoint_spec_equal Spec Value marshal unmarshal deep_equal encode

  abbrev pub json : Spec → Option Value
  json = json_value Spec Value marshal unmarshal deep_equal encode

  abbrev pub settled : Item → Option Item → Bool
  settled = is_settled Spec Value marshal unmarshal deep_equal encode

  abbrev pub wanted : List Item → Text → Bool
  wanted = is_wanted Spec Value marshal unmarshal deep_equal encode

  -- The desired endpoints' names differ, their labels have no key twice, and their specs have a
  -- JSON value that equals itself.
  abbrev pub IsDesired : List Item → Type 0
  IsDesired [] = Unit
  IsDesired (ep ∷ eps) =
      IsKeyed ep.labels
      × (same_spec ep.spec ep.spec ≡ true)
      × (wanted eps ep.name ≡ false)
      × IsDesired eps

  merged-settled :
      (ep live : Item)
      → IsKeyed ep.labels
      → same_spec ep.spec ep.spec ≡ true
      → ((spec : Spec) → json (encode spec) ≡ json spec)
      → settled ep (
          some (
            stored Spec Value marshal unmarshal deep_equal encode
              (merged Spec Value marshal unmarshal deep_equal encode ep live)))
        ≡ true
  merged-settled ep live k s kept =
      rw (copy_labels-contains live.labels ep.labels k)
        (elim (Bool-cases (same_spec live.spec ep.spec)) [
          | inl same ↦ rw same (rw (kept live.spec) same)
          | inr other ↦ rw other (rw (kept ep.spec) s)
        ])

  abbrev pub writing : Spec → Store → List Item → Store
  writing = write_all Spec Value marshal unmarshal deep_equal encode

  abbrev writing1 : Spec → Store → Item → Store
  writing1 = write_endpoint Spec Value marshal unmarshal deep_equal encode

  abbrev written : Spec → Store → Item → Item
  written zero_spec store ep = stored Spec Value marshal unmarshal deep_equal encode (
      merged Spec Value marshal unmarshal deep_equal encode ep (
        or_created Spec Value marshal unmarshal deep_equal encode ep.name zero_spec
          (lookup ep.name store)))

  -- a write leaves the endpoints of other names
  pub lookup-write_all :
      (zero_spec : Spec) (store : Store) (todo : List Item) (name : Text)
      → wanted todo name ≡ false
      → lookup name (writing zero_spec store todo) ≡ lookup name store
  unfolding write_all write_endpoint
  lookup-write_all zero_spec store [] name h = refl
  lookup-write_all zero_spec store (ep ∷ todo) name h = elim (Bool-cases (text_eq ep.name name)) [
    | inl same ↦ ground (arith, h, same)
    | inr other ↦
        lookup-write_all zero_spec (writing1 zero_spec store ep) todo name (rw other at h)
        ∙ rw (lookup-insert ep.name name (written zero_spec store ep) store) (rw other refl)
  ]

  abbrev pub writes : Store → List Item → List Item
  writes = writes_of Spec Value marshal unmarshal deep_equal encode

  -- a name that no desired endpoint has is not written
  pub wanted-writes :
      (store : Store) (desired : List Item) (name : Text)
      → wanted desired name ≡ false
      → wanted (writes store desired) name ≡ false
  unfolding writes_of
  wanted-writes store [] name h = refl
  wanted-writes store (ep ∷ desired) name h = elim (Bool-cases (text_eq ep.name name)) [
    | inl same ↦ ground (arith, h, same)
    | inr other ↦
        let ih = wanted-writes store desired name (rw other at h) in
        elim (Bool-cases (settled ep (lookup ep.name store))) [
          | inl done ↦ rw done ih
          | inr due ↦ rw (due, other) ih
        ]
  ]

  -- the names of the rest are not the one that is written
  agree-insert :
      (ep live : Item) (store before : Store) (eps : List Item)
      → wanted eps ep.name ≡ false
      → All (λ e. lookup e.name store ≡ lookup e.name before) eps
      → All (λ e. lookup e.name (insert ep.name live store) ≡ lookup e.name before) eps
  agree-insert ep live store before [] new h = tt
  agree-insert ep live store before (e ∷ eps) new (p, h) =
      elim (Bool-cases (text_eq e.name ep.name)) [
        | inl same ↦ ground (arith, new, same)
        | inr other ↦ (
          rw (lookup-insert ep.name e.name live store) (elim (Bool-cases (text_eq ep.name e.name)) [
            | inl same ↦
                ground (arith, other, same, text_eq_iff e.name ep.name, text_eq_iff ep.name e.name)
            | inr miss ↦ rw miss p
          ]),
          agree-insert ep live store before eps (rw other at new) h,
        )
      ]

  writes-settled :
      (before : Store) (ep : Item) (eps : List Item)
      → settled ep (lookup ep.name before) ≡ true
      → writes before (ep ∷ eps) ≡ writes before eps
  unfolding writes_of
  writes-settled before ep eps done = rw done refl

  writes-due :
      (before : Store) (ep : Item) (eps : List Item)
      → settled ep (lookup ep.name before) ≡ false
      → writes before (ep ∷ eps) ≡ ep ∷ writes before eps
  unfolding writes_of
  writes-due before ep eps due = rw due refl

  -- a written endpoint is settled in the end
  lookup-written :
      (zero_spec : Spec) (store : Store) (ep : Item) (todo : List Item)
      → wanted todo ep.name ≡ false
      → lookup ep.name (writing zero_spec store (ep ∷ todo)) ≡ some (written zero_spec store ep)
  unfolding write_all write_endpoint
  lookup-written zero_spec store ep todo new =
      lookup-write_all zero_spec (writing1 zero_spec store ep) todo ep.name new
      ∙ rw (lookup-insert ep.name ep.name (written zero_spec store ep) store)
          (rw ((text_eq_iff ep.name ep.name).1 refl) refl)

  abbrev pub AllSettled : Store → List Item → Type 0
  AllSettled store = All (λ e. settled e (lookup e.name store) ≡ true)

  -- every desired endpoint is settled once the writes are done
  pub write_all-settles :
      (zero_spec : Spec) (store before : Store) (desired : List Item)
      → IsDesired desired
      → ((spec : Spec) → json (encode spec) ≡ json spec)
      → All (λ e. lookup e.name store ≡ lookup e.name before) desired
      → AllSettled (writing zero_spec store (writes before desired)) desired
  unfolding write_all write_endpoint
  write_all-settles zero_spec store before [] d kept h = tt
  write_all-settles zero_spec store before (ep ∷ eps) (k, s, new, d) kept (p, h) =
      let later = wanted-writes before eps ep.name new in
      elim (Bool-cases (settled ep (lookup ep.name before))) [
        | inl done ↦
            let here : settled ep (lookup ep.name (writing zero_spec store (writes before eps)))
                ≡ true =
              rw (lookup-write_all zero_spec store (writes before eps) ep.name later, p) done in
            subst (λ w. AllSettled (writing zero_spec store w) (ep ∷ eps))
              (sym (writes-settled before ep eps done))
              (here, write_all-settles zero_spec store before eps d kept h)
        | inr due ↦
            let live =
              or_created Spec Value marshal unmarshal deep_equal encode ep.name zero_spec
                (lookup ep.name store) in
            let here : settled ep
                  (lookup ep.name (writing zero_spec store (ep ∷ writes before eps)))
                ≡ true =
              rw (lookup-written zero_spec store ep (writes before eps) later)
                (merged-settled ep live k s kept) in
            subst (λ w. AllSettled (writing zero_spec store w) (ep ∷ eps))
              (sym (writes-due before ep eps due))
              (
                here,
                write_all-settles zero_spec (writing1 zero_spec store ep) before eps d kept
                    (agree-insert ep (written zero_spec store ep) store before eps new h),
              )
      ]
