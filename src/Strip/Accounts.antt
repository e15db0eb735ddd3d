-- ===== src/Strip/Accounts.antt =====
-- What a strip reports, and what it keeps.
use mathlib.Core.Path.{subst}
use kraken_d_operator.Base.{
  Bool, true, false, Option, none, some, List, [], ◌∷◌, ◌≡◌, ◌≢◌, ◌↔◌, ◌⊎◌, inl, inr, refl, sym,
  All, Any, All-map, Bool-cases, arith,
}
use kraken_d_operator.Base.Texts.{Text, text_lt}
use kraken_d_operator.Route.Entries.Order.{sort_by-Any, Any-sort_by}
use kraken_d_operator.Strip.{
  NamespaceLevel, contains, Value, block, not_a_block, ExtraConfig, ce_dropped_keys,
  partly_stripped, strip_block, drops_of_block, drops_of, strip_value, strip_from, strip_namespaces,
  with_value,
}

partly_stripped-reports : (keys : List Text) → (partly_stripped keys).1 ≡ true
partly_stripped-reports [] = refl
partly_stripped-reports (k ∷ keys) = refl

strip_block-reports :
    (ns : Text) (judged : Bool × List Text) (keys : List Text)
    → ((strip_block judged keys).1 ≡ true) ↔ (drops_of_block ns judged ≢ [])
strip_block-reports ns (false, dropped) keys = ((λ h e. ground arith), (λ h. refl))
strip_block-reports ns (true, []) keys = ((λ h. ground arith), (λ h. absurd (h refl)))
strip_block-reports ns (true, d ∷ dropped) keys =
    ((λ h e. ground arith), (λ h. partly_stripped-reports _))

strip_value-reports :
    (level : NamespaceLevel) (ns : Text) (v : Value)
    → ((strip_value level ns v).1 ≡ true) ↔ (drops_of level ns (some v) ≢ [])
unfolding strip_value drops_of
strip_value-reports level ns not_a_block = ((λ h e. ground arith), (λ h. refl))
strip_value-reports level ns (block keys) =
    strip_block-reports ns (ce_dropped_keys level ns keys) keys

-- An entry of the namespace that is listed and has something to drop.
abbrev pub Drops : NamespaceLevel → List Text → Text → Text × Value → Type 0
Drops level names ns e =
    (e.0 ≡ ns) × (contains names e.0 ≡ true) × (drops_of level e.0 (some e.1) ≢ [])

strip_from-reports :
    (level : NamespaceLevel) (names : List Text) (ns : Text) (ec : ExtraConfig)
    → Any (λ n. n ≡ ns) (strip_from level names ec).1 ↔ Any (Drops level names ns) ec
unfolding strip_from
strip_from-reports level names ns [] = ((λ h. h), (λ h. h))
strip_from-reports level names ns ((k, v) ∷ ec) =
    let rest = strip_from-reports level names ns ec in
    let reports = strip_value-reports level k v in
    elim (Bool-cases (contains names k)) [
      | inr other ↦
          rw (strip_from, other)
            (
              (λ h. inr (rest.0 h)),
              (λ h. elim h [ inl p ↦ ground (arith, p.1) | inr r ↦ rest.1 r ]),
            )
      | inl listed ↦ elim (Bool-cases (strip_value level k v).1) [
        | inl told ↦
            rw (strip_from, listed, told)
              (
                (λ h. elim h [ inl e ↦ inl (e, refl, reports.0 told) | inr r ↦ inr (rest.0 r) ]),
                (λ h. elim h [ inl p ↦ inl p.0 | inr r ↦ inr (rest.1 r) ]),
              )
        | inr quiet ↦
            rw (strip_from, listed, quiet)
              (
                (λ h. inr (rest.0 h)),
                (λ h. elim h [
                  | inl p ↦ let told = reports.1 p.2 in ground (arith, quiet, told)
                  | inr r ↦ rest.1 r
                ]),
              )
      ]
    ]

-- A namespace is reported exactly if the extra_config has it, it is among the Enterprise-only names,
-- and its value has something that a community render drops.
pub strip_namespaces-reports :
    (level : NamespaceLevel) (names : List Text) (ns : Text) (ec : ExtraConfig)
    → Any (λ n. n ≡ ns) (strip_namespaces level names ec).1 ↔ Any (Drops level names ns) ec
unfolding strip_namespaces
strip_namespaces-reports level names ns ec =
    let found = strip_from-reports level names ns ec in
    let reported = (strip_from level names ec).1 in
    (
      (λ h. found.0 (Any-sort_by text_lt (λ n. n ≡ ns) reported h)),
      (λ h. sort_by-Any text_lt (λ n. n ≡ ns) reported (found.1 h)),
    )

with_value-Any :
    (P : Text × Value → Type 0) (ns : Text) (o : Option Value) (ec : ExtraConfig)
    → Any P ec
    → Any P (with_value ns o ec)
with_value-Any P ns none ec h = h
with_value-Any P ns (some v) ec h = inr h

-- What is left has every entry that is not of one of the names.
abbrev pub Keeps : List Text → ExtraConfig → ExtraConfig → Type 0
Keeps names ec left = All (λ e. (contains names e.0 ≡ true) ⊎ Any (λ x. x ≡ e) left) ec

strip_from-listed :
    (level : NamespaceLevel) (names : List Text) (k : Text) (v : Value) (ec : ExtraConfig)
    → contains names k ≡ true
    → (strip_from level names ((k, v) ∷ ec)).0
      ≡ with_value k (strip_value level k v).0 (strip_from level names ec).0
unfolding strip_from
strip_from-listed level names k v ec h = rw (strip_from, h) refl

strip_from-other :
    (level : NamespaceLevel) (names : List Text) (k : Text) (v : Value) (ec : ExtraConfig)
    → contains names k ≡ false
    → (strip_from level names ((k, v) ∷ ec)).0 ≡ (k, v) ∷ (strip_from level names ec).0
unfolding strip_from
strip_from-other level names k v ec h = rw (strip_from, h) refl

strip_from-Keeps :
    (level : NamespaceLevel) (names : List Text) (ec : ExtraConfig)
    → Keeps names ec (strip_from level names ec).0
strip_from-Keeps level names [] = tt
strip_from-Keeps level names ((k, v) ∷ ec) =
    let rest = strip_from-Keeps level names ec in
    elim (Bool-cases (contains names k)) [
      | inl listed ↦
          subst (Keeps names ((k, v) ∷ ec)) (sym (strip_from-listed level names k v ec listed)) (
            inl listed,
            All-map _ _ ec
                (λ e h. elim h [
                  | inl l ↦ inl l
                  | inr there ↦
                      inr (with_value-Any (λ x. x ≡ e) k (strip_value level k v).0 _ there)
                ])
                rest,
          )
      | inr other ↦
          subst (Keeps names ((k, v) ∷ ec)) (sym (strip_from-other level names k v ec other)) (
            inr (inl refl),
            All-map _ _ ec (λ e h. elim h [ inl l ↦ inl l | inr there ↦ inr (inr there) ]) rest,
          )
    ]

-- Every entry of a namespace that is not among the names is left as it was.
pub strip_namespaces-Keeps :
    (level : NamespaceLevel) (names : List Text) (ec : ExtraConfig)
    → Keeps names ec (strip_namespaces level names ec).0
unfolding strip_namespaces
strip_namespaces-Keeps level names ec = strip_from-Keeps level names ec
