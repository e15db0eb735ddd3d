-- ===== src/AutoConfig/Generate/Distinct.antt =====
-- What repeats among generated endpoints, and what makes an entry one that is skipped.
use kraken_d_operator.Base.{
  ℕ, ◌≡◌, ◌≢◌, ◌⊎◌, Bool, true, false, not, Option, none, some, List, [], ◌∷◌, inl, inr, refl, sym,
  ◌∙◌, arith, All, All-map, Bool-cases,
}
use kraken_d_operator.Base.Maps.{lookup, insert, lookup-insert}
use kraken_d_operator.Base.Texts.{Text, text_eq, text_eq_iff, text_key}
use kraken_d_operator.Route.Entries.{EndpointEntry}
use kraken_d_operator.AutoConfig.Generate.{
  entry_key, operation_text, insert_missing, same_key_as, same_id_as, same_name_as, Seen,
  duplicate_of, GenerateInput, GeneratedEndpoint, Generating, op_id_of, name_of, see, duplicate,
  generate_from, nothing_seen, generate,
}

abbrev pub IsThere : Option Text → Type 0
IsThere none = ⊥
IsThere (some by) = Unit

-- The two outcomes of the test for a repetition, on the three looked-up values.
repeats_cases :
    (a : Option Text) (with_id : Bool) (b c : Option Text) (q r : Text)
    → ((text_eq (same_key_as a (same_id_as with_id q b (same_name_as r c))) [] ≡ true)
        × (a ≡ none)
        × ((with_id ≡ false) ⊎ (b ≡ none))
        × (c ≡ none))
      ⊎ ((text_eq (same_key_as a (same_id_as with_id q b (same_name_as r c))) [] ≡ false)
          × (IsThere a ⊎ (((with_id ≡ true) × IsThere b) ⊎ IsThere c)))
repeats_cases (some x) with_id b c q r = inr (refl, inl tt)
repeats_cases none true (some x) c q r = inr (refl, inr (inl (refl, tt)))
repeats_cases none false (some x) none q r = inl (refl, refl, inl refl, refl)
repeats_cases none false (some x) (some y) q r = inr (refl, inr (inr tt))
repeats_cases none true none none q r = inl (refl, refl, inr refl, refl)
repeats_cases none true none (some y) q r = inr (refl, inr (inr tt))
repeats_cases none false none none q r = inl (refl, refl, inl refl, refl)
repeats_cases none false none (some y) q r = inr (refl, inr (inr tt))

-- what a map that got an entry did not have, it had not before
insert-none :
    (j k v : Text) (m : List (Text × Text))
    → lookup k (insert j v m) ≡ none
    → (j ≢ k) × (lookup k m ≡ none)
insert-none j k v m h =
    let g = rw (lookup-insert j k v m) at h in
    elim (Bool-cases (text_eq j k)) [
      | inl same ↦ let f = rw same at g in cc
      | inr other ↦ ((λ e. ground (arith, other, (text_eq_iff j k).1 e)), (rw other at g))
    ]

module _ (Schemas : Type 0) (lower : ℕ → ℕ) (quote : Text → Text)
    (closure : EndpointEntry → Schemas × List Text) (input : GenerateInput) where
  abbrev pub Endpoint : Type 0
  Endpoint = GeneratedEndpoint Schemas lower quote closure

  abbrev pub id_of : EndpointEntry → Text
  id_of = op_id_of Schemas lower quote closure input

  abbrev pub named : EndpointEntry → Text
  named = name_of Schemas lower quote closure input

  -- nothing of the entry was seen
  abbrev pub IsNew : Seen → EndpointEntry → Type 0
  IsNew seen entry =
      (lookup (entry_key entry) seen.keys ≡ none)
      × ((id_of entry ≡ []) ⊎ (lookup (id_of entry) seen.operation_ids ≡ none))
      × (lookup (named entry) seen.names ≡ none)

  -- something of the entry was seen
  abbrev pub IsRepeated : Seen → EndpointEntry → Type 0
  IsRepeated seen entry =
      IsThere (lookup (entry_key entry) seen.keys)
      ⊎ (((id_of entry ≢ []) × IsThere (lookup (id_of entry) seen.operation_ids))
          ⊎ IsThere (lookup (named entry) seen.names))

  abbrev pub repeats : Seen → EndpointEntry → Bool
  repeats seen entry = not (text_eq (duplicate Schemas lower quote closure input entry seen) [])

  pub duplicate-cases :
      (seen : Seen) (entry : EndpointEntry)
      → ((repeats seen entry ≡ false) × IsNew seen entry)
        ⊎ ((repeats seen entry ≡ true) × IsRepeated seen entry)
  unfolding duplicate_of
  duplicate-cases seen entry =
      let id = id_of entry in
      elim (repeats_cases (lookup (entry_key entry) seen.keys) (not (text_eq id []))
        (lookup id seen.operation_ids) (lookup (named entry) seen.names) (quote id)
        (quote (named entry))) [
          | inl (t, a, b, c) ↦ inl (
            rw t refl,
            (
              a,
              elim b [
                | inl unnamed ↦ inl ((text_eq_iff id []).0 (ground (arith, unnamed)))
                | inr free ↦ inr free
              ],
              c,
            ),
          )
          | inr (t, why) ↦ inr (
            rw t refl,
            elim why [
              | inl a ↦ inl a
              | inr (inl (n, b)) ↦ inr (inl ((λ e. ground (arith, n, (text_eq_iff id []).1 e)), b))
              | inr (inr c) ↦ inr (inr c)
            ],
          )
        ]

  abbrev pub seeing : EndpointEntry → Seen → Seen
  seeing = see Schemas lower quote closure input

  -- Two entries share no key, no operationId and no name.
  abbrev IsApart : EndpointEntry → EndpointEntry → Type 0
  IsApart a b =
      (entry_key a ≢ entry_key b) × ((id_of b ≡ []) ⊎ (id_of a ≢ id_of b)) × (named a ≢ named b)

  IsNew-see :
      (a b : EndpointEntry) (seen : Seen) → IsNew (seeing a seen) b → IsApart a b × IsNew seen b
  unfolding see
  IsNew-see a b seen (k, i, n) =
      let (dk, ok) = insert-none (entry_key a) (entry_key b) (operation_text a) seen.keys k in
      let (dn, on) = insert-none (named a) (named b) (operation_text a) seen.names n in
      elim i [
        | inl none_of ↦ ((dk, inl none_of, dn), (ok, inl none_of, on))
        | inr free ↦ elim (Bool-cases (text_eq (id_of a) [])) [
          | inr has_id ↦
              let (di, oi) =
                insert-none (id_of a) (id_of b) (operation_text a) seen.operation_ids
                  (rw has_id at free) in
              ((dk, inr di, dn), (ok, inr oi, on))
          | inl no_id ↦
              let e = (text_eq_iff (id_of a) []).0 no_id in
              let free' : lookup (id_of b) seen.operation_ids ≡ none = rw no_id at free in
              elim (Bool-cases (text_eq (id_of b) [])) [
                | inl t ↦ ((dk, inl ((text_eq_iff (id_of b) []).0 t), dn), (ok, inr free', on))
                | inr f ↦ (
                  (dk, inr (λ d. ground (arith, f, (text_eq_iff (id_of b) []).1 (sym d ∙ e))), dn),
                  (ok, inr free', on),
                )
              ]
        ]
      ]

  abbrev pub run :
      Seen → List (Text × Text) → List EndpointEntry → Generating Schemas lower quote closure
  run = generate_from Schemas lower quote closure input

  -- a generated endpoint of an entry that was not seen
  abbrev IsFresh : Seen → Endpoint → Type 0
  IsFresh seen g = IsNew seen g.entry × (g.name ≡ named g.entry)

  -- Two endpoints share no name, and their entries no path and method and no operationId.
  abbrev pub AreApart : Endpoint → Endpoint → Type 0
  AreApart g h =
      (g.name ≢ h.name)
      × (entry_key g.entry ≢ entry_key h.entry)
      × ((id_of h.entry ≡ []) ⊎ (id_of g.entry ≢ id_of h.entry))

  abbrev pub AllApart : List Endpoint → Type 0
  AllApart [] = Unit
  AllApart (g ∷ gs) = All (AreApart g) gs × AllApart gs

  generate_from-IsFresh :
      (seen : Seen) (missing : List (Text × Text)) (entries : List EndpointEntry)
      → All (IsFresh seen) (run seen missing entries).endpoints
        × AllApart (run seen missing entries).endpoints
  unfolding generate_from
  generate_from-IsFresh seen missing [] = (tt, tt)
  generate_from-IsFresh seen missing (entry ∷ entries) = elim (duplicate-cases seen entry) [
    | inr (t, why) ↦ rw t (generate_from-IsFresh seen missing entries)
    | inl (t, new) ↦
        let missing' =
          insert_missing Schemas lower quote closure (closure entry).1 (operation_text entry)
            missing in
        let (fresh, apart) = generate_from-IsFresh (seeing entry seen) missing' entries in
        let rest = (run (seeing entry seen) missing' entries).endpoints in
        rw t (
          (
            (new, refl),
            All-map _ _ rest (λ g (n, e). ((IsNew-see entry g.entry seen n).1, e)) fresh,
          ),
          (
            All-map _ _ rest
                (λ g (n, e). let (k, i, d) = (IsNew-see entry g.entry seen n).0 in ((rw e d), k, i))
                fresh,
            apart,
          ),
        )
  ]

  -- No two generated endpoints share a name, no two of their entries path and method, and no two
  -- an operationId.
  pub generate-AllApart :
      (entries : List EndpointEntry)
      → AllApart (generate Schemas lower quote closure input entries).0.endpoints
  unfolding generate
  generate-AllApart entries = (generate_from-IsFresh nothing_seen [] entries).1
