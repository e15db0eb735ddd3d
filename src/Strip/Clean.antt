-- ===== src/Strip/Clean.antt =====
-- What a strip leaves and reports.
use mathlib.Core.Path.{subst}
use kraken_d_operator.Base.{
  Bool, true, false, Option, none, some, List, [], ◌∷◌, ◌≡◌, ◌≢◌, ◌↔◌, ◌⊎◌, inl, inr, refl, sym,
  ◌∙◌, ap, All, All-map, All-self, Any-map, delete_func-Any, Any, delete_func, Bool-cases, arith,
}
use kraken_d_operator.Base.Maps.{lookup}
use kraken_d_operator.Base.Texts.{Text, text_eq, text_eq_iff, text_key, text_lt}
use kraken_d_operator.Route.Entries.{sort_by}
use kraken_d_operator.Route.Entries.Order.{sort_by-Any, Any-sort_by}
use kraken_d_operator.Strip.{
  NamespaceLevel, level_service, level_endpoint, level_backend, level_unknown, enterprise_only,
  ce_dropped_endpoint_namespaces, contains, Value, block, not_a_block, ExtraConfig, dropped_of,
  honored_rest, partly_stripped, strip_block, drops_of_block, with_value, ce_dropped_keys,
  ce_honored_keys, ee_only_namespaces, drops_of, drops_from, ce_drops, strip_value, strip_from,
  strip_namespaces,
}

contains_iff : (names : List Text) (n : Text) → (contains names n ≡ true) ↔ Any (λ m. m ≡ n) names
contains_iff [] n = ((λ h. ground (arith, h)), (λ h. absurd h))
contains_iff (m ∷ names) n =
    let rest = contains_iff names n in
    (
      (λ h. elim (Bool-cases (text_eq m n)) [
        | inl same ↦ inl ((text_eq_iff m n).0 same)
        | inr other ↦ inr (rest.0 (ground (arith, h, other)))
      ]),
      (λ h. elim h [
        | inl e ↦ ground (arith, (text_eq_iff m n).1 e)
        | inr k ↦ ground (arith, rest.1 k)
      ]),
    )

delete_func-mem :
    (p : Text → Bool) (k : Text) (keys : List Text)
    → Any (λ x. x ≡ k) keys
    → p k ≡ false
    → Any (λ x. x ≡ k) (delete_func p keys)
delete_func-mem p k [] m h = absurd m
delete_func-mem p k (x ∷ keys) (inl e) h = rw (ap p e, h) (inl e)
delete_func-mem p k (x ∷ keys) (inr m) h = elim (Bool-cases (p x)) [
  | inl gone ↦ rw gone (delete_func-mem p k keys m h)
  | inr stays ↦ rw stays (inr (delete_func-mem p k keys m h))
]

abbrev IsJudged : List Text → List Text → Text → Type 0
IsJudged honored dropped k = (contains honored k ≡ true) ⊎ (contains dropped k ≡ true)

honored_rest-empty :
    (honored dropped keys : List Text)
    → All (IsJudged honored dropped) keys
    → honored_rest honored (delete_func (λ k. contains dropped k) keys) ≡ []
honored_rest-empty honored dropped [] h = refl
honored_rest-empty honored dropped (k ∷ keys) (p, h) = elim (Bool-cases (contains dropped k)) [
  | inl gone ↦ rw gone (honored_rest-empty honored dropped keys h)
  | inr stays ↦ elim p [
    | inl good ↦ rw (stays, good) (honored_rest-empty honored dropped keys h)
    | inr bad ↦ ground (arith, stays, bad)
  ]
]

-- every key is honored or among the dropped ones
keys-IsJudged :
    (honored keys : List Text)
    → All (IsJudged honored (sort_by text_lt (honored_rest honored keys))) keys
keys-IsJudged honored keys =
    All-map _ _ keys
      (λ k m. elim (Bool-cases (contains honored k)) [
        | inl good ↦ inl good
        | inr bad ↦ inr (
            (contains_iff (sort_by text_lt (honored_rest honored keys)) k).1 (
              sort_by-Any text_lt (λ x. x ≡ k) (honored_rest honored keys)
                (delete_func-mem (λ x. contains honored x) k keys m bad)))
      ])
      (All-self keys)

-- nothing of the value is dropped
abbrev IsClean : NamespaceLevel → Text → Value → Type 0
IsClean level ns v = drops_of level ns (some v) ≡ []

-- what is left of a block has nothing to drop, by the keys of it that are honored
strip_block-clean :
    (ns : Text) (o : Option (List Text)) (keys left : List Text)
    → (strip_block (dropped_of o keys) keys).0 ≡ some (block left)
    → drops_of_block ns (dropped_of o left) ≡ []
strip_block-clean ns none keys left h = ground arith
strip_block-clean ns (some honored) keys left h =
    go (sort_by text_lt (honored_rest honored keys)) refl h
  where
    partly :
        (d : Text) (dropped rest : List Text)
        → sort_by text_lt (honored_rest honored keys) ≡ d ∷ dropped
        → rest ≡ delete_func (λ k. contains (d ∷ dropped) k) keys
        → (partly_stripped rest).0 ≡ some (block left)
        → drops_of_block ns (dropped_of (some honored) left) ≡ []
    partly d dropped [] e r h = ground (arith, h)
    partly d dropped (k ∷ rest) e r h =
        let q : k ∷ rest ≡ left = ground (arith, h) in
        let judged : All (IsJudged honored (d ∷ dropped)) keys =
          rw e at (keys-IsJudged honored keys) in
        let cut : left ≡ delete_func (λ x. contains (d ∷ dropped) x) keys = sym q ∙ r in
        rw (cut, honored_rest-empty honored (d ∷ dropped) keys judged) refl

    go :
        (dropped : List Text)
        → sort_by text_lt (honored_rest honored keys) ≡ dropped
        → (strip_block (true, dropped) keys).0 ≡ some (block left)
        → drops_of_block ns (dropped_of (some honored) left) ≡ []
    go [] e h = let q : keys ≡ left = ground (arith, h) in rw (sym q, e) refl
    go (d ∷ dropped) e h = partly d dropped _ e refl h

partly_stripped-block : (keys : List Text) → (partly_stripped keys).0 ≢ some not_a_block
partly_stripped-block [] h = ground arith
partly_stripped-block (k ∷ keys) h = ground arith

strip_block-block :
    (judged : Bool × List Text) (keys : List Text) → (strip_block judged keys).0 ≢ some not_a_block
strip_block-block (false, dropped) keys h = ground arith
strip_block-block (true, []) keys h = ground arith
strip_block-block (true, d ∷ dropped) keys h = partly_stripped-block _ h

strip_value-IsClean :
    (level : NamespaceLevel) (ns : Text) (v w : Value)
    → (strip_value level ns v).0 ≡ some w
    → IsClean level ns w
unfolding strip_value drops_of ce_dropped_keys
strip_value-IsClean level ns not_a_block w h = ground arith
strip_value-IsClean level ns (block keys) not_a_block h =
    absurd (strip_block-block (dropped_of (ce_honored_keys level ns) keys) keys h)
strip_value-IsClean level ns (block keys) (block left) h =
    strip_block-clean ns (ce_honored_keys level ns) keys left h

-- No entry of a namespace among `names` has anything to drop.
abbrev AllClean : NamespaceLevel → List Text → ExtraConfig → Type 0
AllClean level names ec = All (λ e. (contains names e.0 ≡ false) ⊎ IsClean level e.0 e.1) ec

with_value-AllClean :
    (level : NamespaceLevel) (names : List Text) (ns : Text) (o : Option Value) (ec : ExtraConfig)
    → ((w : Value) → o ≡ some w → IsClean level ns w)
    → AllClean level names ec
    → AllClean level names (with_value ns o ec)
with_value-AllClean level names ns none ec f h = h
with_value-AllClean level names ns (some w) ec f h = (inr (f w refl), h)

strip_from-AllClean :
    (level : NamespaceLevel) (names : List Text) (ec : ExtraConfig)
    → AllClean level names (strip_from level names ec).0
unfolding strip_from
strip_from-AllClean level names [] = tt
strip_from-AllClean level names ((ns, v) ∷ ec) = elim (Bool-cases (contains names ns)) [
  | inl listed ↦
      rw (strip_from, listed)
        (with_value-AllClean level names ns (strip_value level ns v).0 _
          (λ w e. strip_value-IsClean level ns v w e) (strip_from-AllClean level names ec))
  | inr other ↦ rw (strip_from, other) (inl other, strip_from-AllClean level names ec)
]

lookup-AllClean :
    (level : NamespaceLevel) (names : List Text) (ns : Text) (ec : ExtraConfig)
    → AllClean level names ec
    → contains names ns ≡ true
    → drops_of level ns (lookup ns ec) ≡ []
unfolding drops_of
lookup-AllClean level names ns [] h m = refl
lookup-AllClean level names ns ((k, v) ∷ ec) (p, h) m = elim (Bool-cases (text_eq k ns)) [
  | inr other ↦ rw other (lookup-AllClean level names ns ec h m)
  | inl same ↦
      let e = (text_eq_iff k ns).0 same in
      elim p [
        | inl unlisted ↦
            let bad : contains names ns ≡ false = rw e at unlisted in ground (arith, bad, m)
        | inr clean ↦
            let good : drops_of level ns (some v) ≡ [] =
              subst (λ x. drops_of level x (some v) ≡ []) e clean in
            rw same good
      ]
]

drops_from-AllClean :
    (level : NamespaceLevel) (names : List Text) (some_names : List Text) (ec : ExtraConfig)
    → AllClean level names ec
    → All (λ n. contains names n ≡ true) some_names
    → drops_from level some_names ec ≡ []
drops_from-AllClean level names [] ec h m = refl
drops_from-AllClean level names (n ∷ rest) ec h (p, m) =
    rw (lookup-AllClean level names n ec h p) (drops_from-AllClean level names rest ec h m)

ee_only-listed :
    (level : NamespaceLevel)
    → All (λ n. contains (enterprise_only level) n ≡ true) (ee_only_namespaces level)
unfolding ee_only_namespaces
ee_only-listed level =
    All-map _ _ (ee_only_namespaces level)
      (λ n m. (contains_iff (enterprise_only level) n).1 (member level n m))
      (All-self (ee_only_namespaces level))
  where
    member :
        (l : NamespaceLevel) (n : Text)
        → Any (λ x. x ≡ n) (ee_only_namespaces l)
        → Any (λ x. x ≡ n) (enterprise_only l)
    member level_service n m = Any-sort_by text_lt (λ x. x ≡ n) (enterprise_only level_service) m
    member level_backend n m = Any-sort_by text_lt (λ x. x ≡ n) (enterprise_only level_backend) m
    member level_unknown n m = Any-sort_by text_lt (λ x. x ≡ n) (enterprise_only level_unknown) m
    member level_endpoint n m =
        Any-sort_by text_lt (λ x. x ≡ n) (enterprise_only level_endpoint)
          (Any-map (λ x. (x ≡ n) × (contains ce_dropped_endpoint_namespaces x ≡ false)) (λ x. x ≡ n)
            (sort_by text_lt (enterprise_only level_endpoint)) (λ x h. h.0)
            (delete_func-Any (λ x. contains ce_dropped_endpoint_namespaces x) (λ x. x ≡ n)
              (sort_by text_lt (enterprise_only level_endpoint)) m))

-- At every level, `CEDrops` reports nothing of what a strip by the level's Enterprise-only names
-- leaves of an extra_config.
pub strip_namespaces-clean :
    (level : NamespaceLevel) (ec : ExtraConfig)
    → ce_drops level (strip_namespaces level (enterprise_only level) ec).0 ≡ []
unfolding ce_drops strip_namespaces
strip_namespaces-clean level ec =
    drops_from-AllClean level (enterprise_only level) (ee_only_namespaces level) _
      (strip_from-AllClean level (enterprise_only level) ec) (ee_only-listed level)
