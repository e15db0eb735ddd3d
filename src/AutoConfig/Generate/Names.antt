-- ===== src/AutoConfig/Generate/Names.antt =====
-- The names of the generated endpoints.
use mathlib.Core.List.{reverse, reverse-append, reverse-reverse}
use kraken_d_operator.Base.{
  ℕ, zero, suc, ◌≤◌, ◌≡◌, ◌≢◌, ◌∙◌, sym, ap, List, [], ◌∷◌, ◌++◌, inl, inr, arith, Bool-cases, ltb,
  nat_eq, length, length-append, if◌then◌else◌,
}
use kraken_d_operator.Base.Texts.{Text, text_eq}
use kraken_d_operator.Check.Verdicts.{take}
use kraken_d_operator.Route.Entries.{EndpointEntry}
use kraken_d_operator.AutoConfig.Generate.{
  max_name_length, drop_dashes, limit_name, sanitize_name, sanitize_path, operation_endpoint_name,
  endpoint_name, to_lower,
}

length-reverse : (s : Text) → length (reverse s) ≡ length s
length-reverse [] = omega arith
length-reverse (c ∷ s) =
    rw (reverse-append (c ∷ []) s)
      (omega (arith, length-append (reverse s) (c ∷ []), length-reverse s))

length-drop_dashes : (s : Text) → length (drop_dashes s) ≤ length s
length-drop_dashes [] = omega arith
length-drop_dashes (c ∷ s) = ground (arith, length-drop_dashes s)

length-take : (n : ℕ) (s : Text) → length (take n s) ≤ n
length-take zero s = omega arith
length-take (suc n) [] = omega arith
length-take (suc n) (c ∷ s) = omega (arith, length-take n s)

drop_dashes-ne : (s t : Text) → drop_dashes s ≢ b'-' ∷ t
drop_dashes-ne [] t e = cc
drop_dashes-ne (c ∷ s) t e = elim (Bool-cases (nat_eq c b'-')) [
  | inl dash ↦ drop_dashes-ne s t (rw dash at e)
  | inr other ↦ let f = rw other at e in ground (arith, f, other)
]

-- within the limit, and no dash at the end
abbrev pub IsName : Text → Type 0
IsName name = (length name ≤ 253) × ((s : Text) → name ≢ s ++ b'-' ∷ [])

limit_name-IsName : (name : Text) → IsName (limit_name name)
unfolding limit_name
limit_name-IsName name =
    let cut = if ltb max_name_length (length name) then take max_name_length name else name in
    let short : length cut ≤ 253 = elim (Bool-cases (ltb max_name_length (length name))) [
      | inl long ↦ rw long (length-take max_name_length name)
      | inr fits ↦ rw fits (ground arith)
    ] in
    (
      omega (
        arith,
        short,
        length-reverse (drop_dashes (reverse cut)),
        length-drop_dashes (reverse cut),
        length-reverse cut,
      ),
      λ s e. drop_dashes-ne (reverse cut) (reverse s) (
          sym (reverse-reverse (drop_dashes (reverse cut)))
          ∙ ap reverse e
          ∙ reverse-append s (b'-' ∷ [])),
    )

module _ (Schemas : Type 0) (lower : ℕ → ℕ) (quote : Text → Text)
    (closure : EndpointEntry → Schemas × List Text) where
  -- A generated endpoint's name has at most 253 runes, and no dash at its end.
  endpoint_name-IsName :
      (auto_config_name operation_id method path : Text)
      → IsName (endpoint_name Schemas lower quote closure auto_config_name operation_id method path)
  unfolding endpoint_name operation_endpoint_name
  endpoint_name-IsName auto_config_name operation_id method path =
      elim (Bool-cases (text_eq operation_id [])) [
        | inl none_of ↦ rw none_of (
            limit_name-IsName (
              auto_config_name
              ++ b'-'
                ∷ (to_lower Schemas lower quote closure method
                    ++ b'-' ∷ sanitize_path Schemas lower quote closure path)))
        | inr named ↦ rw named (
            limit_name-IsName
              (auto_config_name ++ b'-' ∷ sanitize_name Schemas lower quote closure operation_id))
      ]
