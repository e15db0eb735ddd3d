-- ===== src/AutoConfig/Generate/Accounts.antt =====
-- What becomes of each entry.
use mathlib.Core.Path.{subst}
use kraken_d_operator.Base.{
  ℕ, ◌≡◌, ◌≢◌, ◌⊎◌, true, false, List, [], ◌∷◌, inl, inr, refl, arith, Any, Any-map, Bool-cases,
}
use kraken_d_operator.Base.Maps.{lookup, insert, lookup-insert}
use kraken_d_operator.Base.Texts.{Text, text_eq, text_eq_iff, text_key}
use kraken_d_operator.Route.Entries.{EndpointEntry}
use kraken_d_operator.AutoConfig.Generate.{
  entry_key, operation_text, insert_missing, skip, keep, Seen, OperationIssue, GenerateInput,
  Generating, see, duplicate, generated, generate_from, nothing_seen, generate,
}
use kraken_d_operator.AutoConfig.Generate.Distinct.{
  IsThere, id_of, named, IsRepeated, repeats, seeing, run, Endpoint, duplicate-cases,
}

insert-IsThere :
    (j k v : Text) (m : List (Text × Text))
    → IsThere (lookup k (insert j v m))
    → (j ≡ k) ⊎ IsThere (lookup k m)
insert-IsThere j k v m h =
    let g = rw (lookup-insert j k v m) at h in
    elim (Bool-cases (text_eq j k)) [
      | inl same ↦ inl ((text_eq_iff j k).0 same)
      | inr other ↦ inr (rw other at g)
    ]

module _ (Schemas : Type 0) (lower : ℕ → ℕ) (quote : Text → Text)
    (closure : EndpointEntry → Schemas × List Text) (input : GenerateInput) where
  abbrev Made : Type 0
  Made = Endpoint Schemas lower quote closure input

  abbrev ident : EndpointEntry → Text
  ident = id_of Schemas lower quote closure input

  abbrev title : EndpointEntry → Text
  title = named Schemas lower quote closure input

  abbrev HasKey : Text → Made → Type 0
  HasKey k g = entry_key g.entry ≡ k

  abbrev HasId : Text → Made → Type 0
  HasId k g = ident g.entry ≡ k

  abbrev HasName : Text → Made → Type 0
  HasName k g = g.name ≡ k

  -- An endpoint with the entry's path and method, its operationId or its name.
  abbrev pub Repeats : EndpointEntry → Made → Type 0
  Repeats e g =
      HasKey (entry_key e) g ⊎ (((ident e ≢ []) × HasId (ident e) g) ⊎ HasName (title e) g)

  -- what was seen stands among the endpoints made before
  abbrev IsClaimed : Seen → List Made → Type 0
  IsClaimed seen before =
      ((k : Text) → IsThere (lookup k seen.keys) → Any (HasKey k) before)
      × ((k : Text) → IsThere (lookup k seen.operation_ids) → Any (HasId k) before)
      × ((k : Text) → IsThere (lookup k seen.names) → Any (HasName k) before)

  see-IsClaimed :
      (e : EndpointEntry) (seen : Seen) (before : List Made)
      → IsClaimed seen before
      → IsClaimed
          (seeing Schemas lower quote closure input e seen)
          (generated Schemas lower quote closure input e ∷ before)
  unfolding see
  see-IsClaimed e seen before (k, i, n) = (
    λ t h. elim (insert-IsThere (entry_key e) t (operation_text e) seen.keys h) [
      | inl same ↦ inl same
      | inr old ↦ inr (k t old)
    ],
    λ t h. elim (Bool-cases (text_eq (ident e) [])) [
      | inl none_of ↦ inr (i t (rw none_of at h))
      | inr has_id ↦
          elim (insert-IsThere (ident e) t (operation_text e) seen.operation_ids (rw has_id at h)) [
            | inl same ↦ inl same
            | inr old ↦ inr (i t old)
          ]
    ],
    λ t h. elim (insert-IsThere (title e) t (operation_text e) seen.names h) [
      | inl same ↦ inl same
      | inr old ↦ inr (n t old)
    ],
  )

  repeated-Repeats :
      (e : EndpointEntry) (seen : Seen) (before : List Made)
      → IsClaimed seen before
      → IsRepeated Schemas lower quote closure input seen e
      → Any (Repeats e) before
  repeated-Repeats e seen before (k, i, n) (inl h) =
      Any-map _ _ before (λ g p. inl p) (k (entry_key e) h)
  repeated-Repeats e seen before (k, i, n) (inr (inl (named_id, h))) =
      Any-map _ _ before (λ g p. inr (inl (named_id, p))) (i (ident e) h)
  repeated-Repeats e seen before (k, i, n) (inr (inr h)) =
      Any-map _ _ before (λ g p. inr (inr p)) (n (title e) h)

  -- The entries in their order, each with what became of it: the next endpoint is its, or the next
  -- report is of it, with a reason, and one of the endpoints made before has its path and method,
  -- its operationId or its name.
  pub data Accounted
      : List Made → List EndpointEntry → List Made → List OperationIssue → Type 0 where
    finished : (before : List Made) → Accounted before [] [] []
    made :
        (before : List Made) (g : Made) (entries : List EndpointEntry) (endpoints : List Made)
        (skipped : List OperationIssue)
        → Accounted (g ∷ before) entries endpoints skipped
        → Accounted before (g.entry ∷ entries) (g ∷ endpoints) skipped
    repeated :
        (before : List Made) (issue : OperationIssue) (entries : List EndpointEntry)
        (endpoints : List Made) (skipped : List OperationIssue)
        → text_eq issue.message [] ≡ false
        → Any (Repeats issue.entry) before
        → Accounted before entries endpoints skipped
        → Accounted before (issue.entry ∷ entries) endpoints (issue ∷ skipped)

  run_kept :
      (seen : Seen) (missing : List (Text × Text)) (e : EndpointEntry)
      (entries : List EndpointEntry)
      → repeats Schemas lower quote closure input seen e ≡ false
      → keep Schemas lower quote closure input e (
          run Schemas lower quote closure input
            (seeing Schemas lower quote closure input e seen)
            (insert_missing Schemas lower quote closure (closure e).1 (operation_text e) missing)
            entries)
        ≡ run Schemas lower quote closure input seen missing (e ∷ entries)
  unfolding generate_from
  run_kept seen missing e entries t = rw t refl

  run_skipped :
      (seen : Seen) (missing : List (Text × Text)) (e : EndpointEntry)
      (entries : List EndpointEntry)
      → repeats Schemas lower quote closure input seen e ≡ true
      → skip Schemas lower quote closure input e
          (duplicate Schemas lower quote closure input e seen)
          (run Schemas lower quote closure input seen missing entries)
        ≡ run Schemas lower quote closure input seen missing (e ∷ entries)
  unfolding generate_from
  run_skipped seen missing e entries t = rw t refl

  -- the statement of the induction, on the loop's result
  abbrev Accounts : List Made → List EndpointEntry → Generating Schemas lower quote closure → Type 0
  Accounts before entries out = Accounted before entries out.endpoints out.skipped

  generate_from-Accounted :
      (seen : Seen) (missing : List (Text × Text)) (entries : List EndpointEntry)
      (before : List Made)
      → IsClaimed seen before
      → Accounts before entries (run Schemas lower quote closure input seen missing entries)
  unfolding generate_from
  generate_from-Accounted seen missing [] before c = Accounted.finished before
  generate_from-Accounted seen missing (e ∷ entries) before c =
      elim (duplicate-cases Schemas lower quote closure input seen e) [
        | inr (t, why) ↦
            let out = run Schemas lower quote closure input seen missing entries in
            let dup = duplicate Schemas lower quote closure input e seen in
            let issue : OperationIssue = record {
              entry = e;
              operation_id = ident e;
              message = dup;
            } in
            subst (Accounts before (e ∷ entries)) (run_skipped seen missing e entries t) (
              Accounted.repeated before issue entries out.endpoints out.skipped (ground (arith, t))
                (repeated-Repeats e seen before c why)
                (generate_from-Accounted seen missing entries before c))
        | inl (t, new) ↦
            let seen' = seeing Schemas lower quote closure input e seen in
            let missing' =
              insert_missing Schemas lower quote closure (closure e).1 (operation_text e) missing in
            let g = generated Schemas lower quote closure input e in
            let out = run Schemas lower quote closure input seen' missing' entries in
            subst (Accounts before (e ∷ entries)) (run_kept seen missing e entries t) (
              Accounted.made before g entries out.endpoints out.skipped (
                generate_from-Accounted seen' missing' entries (g ∷ before)
                  (see-IsClaimed e seen before c)))
      ]

  -- Every entry is accounted for, in order and each once: it has its endpoint, or it is reported as
  -- skipped with a reason, and then an endpoint of an earlier entry has its path and method, its
  -- operationId or its name. The endpoints and the reports are those of the entries and no others.
  pub generate-Accounted :
      (entries : List EndpointEntry)
      → Accounted [] entries
          (generate Schemas lower quote closure input entries).0.endpoints
          (generate Schemas lower quote closure input entries).0.skipped
  unfolding generate
  generate-Accounted entries =
      generate_from-Accounted nothing_seen [] entries [] ((λ k h. h), (λ k h. h), λ k h. h)
