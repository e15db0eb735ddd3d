-- ===== src/Check/Conflicts/Fresh.antt =====
-- Which clashes are new.
use kraken_d_operator.Base.{
  Bool, true, false, ◌||◌, not, Option, List, [], ◌∷◌, ◌++◌, ◌≡◌, ◌≢◌, ◌↔◌, inl, inr, refl, arith,
  Any, All, All-map, All-at, All-self, Any-of_mem, Any-elim, Any-append_left, Any-append_right,
  Any-append_cases, Bool-cases,
}
use kraken_d_operator.Base.Texts.{text_eq, text_eq_iff}
use kraken_d_operator.Route.Entries.{NamespacedName, EntryConflict, source_eq_lem}
use kraken_d_operator.Route.Entries.Order.{sort_by-Any, Any-sort_by}
use kraken_d_operator.Route.Drop.{Conflicts}
use kraken_d_operator.Check.Conflicts.{
  RouteConflicts, Clash, ClashKey, key_of, key_eq, keys_of_loser, known_keys, is_involved, is_known,
  clash_of, fresh_of, fresh_from, clash_before, new_clashes,
}

-- Something holds of a recorded conflict, with its loser.
abbrev pub Lost : (NamespacedName → EntryConflict → Type 0) → Conflicts → Type 0
Lost P lost = Any (λ p. Any (λ e. P p.0 e) p.1) lost

-- The same entry of the same endpoint loses to the same endpoint in both.
abbrev pub IsSameClash : NamespacedName → EntryConflict → NamespacedName → EntryConflict → Type 0
IsSameClash loser e loser' e' =
    (loser' ≡ loser) × (e'.winner ≡ e.winner) × (e'.method ≡ e.method) × (e'.endpoint ≡ e.endpoint)

-- A conflict that is a router clash, that no conflict of `before` is the same as, and that concerns
-- one of `involving`, if that is given.
pub record IsNew (before : Conflicts) (involving : Option (List NamespacedName))
    (loser : NamespacedName) (e : EntryConflict) : Type 0 where
  pub is_clash : e.detail ≢ []
  pub fresh : ¬ Lost (IsSameClash loser e) before
  pub concerns : is_involved involving loser e.winner ≡ true

module _ (loser : NamespacedName) (e : EntryConflict) where
  same_key :
      (loser' : NamespacedName) (e' : EntryConflict)
      → (key_eq (key_of loser' e') (key_of loser e) ≡ true) ↔ IsSameClash loser e loser' e'
  same_key loser' e' = ground (
    arith,
    source_eq_lem loser' loser,
    source_eq_lem e'.winner e.winner,
    text_eq_iff e'.method e.method,
    text_eq_iff e'.endpoint e.endpoint,
  )

  is_known-append :
      (xs ys : List ClashKey) (key : ClashKey)
      → is_known (xs ++ ys) key ≡ (is_known xs key || is_known ys key)
  is_known-append [] ys key = refl
  is_known-append (x ∷ xs) ys key = ground (arith, is_known-append xs ys key)

  known_of_loser-Any :
      (loser' : NamespacedName) (lost : List EntryConflict)
      → (is_known (keys_of_loser loser' lost) (key_of loser e) ≡ true)
        ↔ Any (λ e'. IsSameClash loser e loser' e') lost
  known_of_loser-Any loser' [] = (λ h. ground arith, λ h. absurd h)
  known_of_loser-Any loser' (e' ∷ lost) =
      let head = same_key loser' e' in
      let tail = known_of_loser-Any loser' lost in
      (
        (λ h. elim (Bool-cases (key_eq (key_of loser' e') (key_of loser e))) [
          | inl same ↦ inl (head.0 same)
          | inr other ↦ inr (tail.0 (ground arith))
        ]),
        (λ h. elim h [ inl p ↦ rw (head.1 p) refl | inr k ↦ ground (arith, tail.1 k) ]),
      )

  known_keys-Lost :
      (lost : Conflicts)
      → (is_known (known_keys lost) (key_of loser e) ≡ true) ↔ Lost (IsSameClash loser e) lost
  unfolding known_keys
  known_keys-Lost [] = (λ h. ground arith, λ h. absurd h)
  known_keys-Lost ((loser', own) ∷ rest) =
      let head = known_of_loser-Any loser' own in
      let tail = known_keys-Lost rest in
      let both = is_known-append (keys_of_loser loser' own) (known_keys rest) (key_of loser e) in
      (
        (λ h. elim (Bool-cases (is_known (keys_of_loser loser' own) (key_of loser e))) [
          | inl same ↦ inl (head.0 same)
          | inr other ↦ inr (tail.0 (ground (arith, both)))
        ]),
        (λ h. elim h [
          | inl p ↦ ground (arith, both, head.1 p)
          | inr k ↦ ground (arith, both, tail.1 k)
        ]),
      )

  -- the test of the second loop
  abbrev skips : Conflicts → Option (List NamespacedName) → Bool
  skips before involving =
      text_eq e.detail []
      || is_known (known_keys before) (key_of loser e)
      || not (is_involved involving loser e.winner)

  skips-false :
      (before : Conflicts) (involving : Option (List NamespacedName))
      → skips before involving ≡ false
      → IsNew before involving loser e
  skips-false before involving h = record {
    is_clash = λ k. ground (arith, h, (text_eq_iff e.detail []).1 k);
    fresh = λ k. ground (arith, h, (known_keys-Lost before).1 k);
    concerns = ground (arith, h);
  }

  skips-true :
      (before : Conflicts) (involving : Option (List NamespacedName))
      → skips before involving ≡ true
      → ¬ IsNew before involving loser e
  skips-true before involving h k = elim (Bool-cases (text_eq e.detail [])) [
    | inl empty ↦ k.is_clash ((text_eq_iff e.detail []).0 empty)
    | inr full ↦ elim (Bool-cases (is_known (known_keys before) (key_of loser e))) [
      | inl known ↦ k.fresh ((known_keys-Lost before).0 known)
      | inr unknown ↦ ground (arith, h, full, unknown, k.concerns)
    ]
  ]

module _ (P : Clash → Type 0) (before : Conflicts) (involving : Option (List NamespacedName)) where
  -- A new conflict whose clash satisfies `P`.
  abbrev pub IsNewWith : NamespacedName → EntryConflict → Type 0
  IsNewWith loser e = P (clash_of loser e) × IsNew before involving loser e

  fresh_of-Any :
      (loser : NamespacedName) (lost : List EntryConflict)
      → Any P (fresh_of (known_keys before) involving loser lost) ↔ Any (IsNewWith loser) lost
  unfolding fresh_of
  fresh_of-Any loser [] = (λ h. h, λ h. h)
  fresh_of-Any loser (e ∷ lost) =
      let tail = fresh_of-Any loser lost in
      elim (Bool-cases (skips loser e before involving)) [
        | inl skip ↦
            rw (skip, fresh_of)
              (
                (λ h. inr (tail.0 h)),
                (λ h. elim h [
                  | inl p ↦ absurd (skips-true loser e before involving skip p.1)
                  | inr k ↦ tail.1 k
                ]),
              )
        | inr hit ↦
            rw (hit, fresh_of)
              (
                (λ h. elim h [
                  | inl p ↦ inl (p, skips-false loser e before involving hit)
                  | inr k ↦ inr (tail.0 k)
                ]),
                (λ h. elim h [ inl p ↦ inl p.0 | inr k ↦ inr (tail.1 k) ]),
              )
      ]

  fresh_from-Any :
      (after : Conflicts)
      → Any P (fresh_from (known_keys before) involving after) ↔ Lost IsNewWith after
  unfolding fresh_from
  fresh_from-Any [] = (λ h. h, λ h. h)
  fresh_from-Any ((loser, lost) ∷ rest) =
      let head = fresh_of-Any loser lost in
      let tail = fresh_from-Any rest in
      let own = fresh_of (known_keys before) involving loser lost in
      let more = fresh_from (known_keys before) involving rest in
      (
        (λ h. elim (Any-append_cases P own more h) [
          | inl l ↦ inl (head.0 l)
          | inr r ↦ inr (tail.0 r)
        ]),
        (λ h. elim h [
          | inl l ↦ Any-append_left P own more (head.1 l)
          | inr r ↦ Any-append_right P own more (tail.1 r)
        ]),
      )

-- Something holds of a clash that is answered exactly if it holds of the clash of a conflict after
-- that is new: it carries a router's refusal, no conflict before is of the same entry of the same
-- endpoint losing to the same endpoint, however worded, and it involves one of the endpoints asked
-- about, if any are named.
pub new_clashes-IsNew :
    (P : Clash → Type 0) (before after : RouteConflicts) (involving : Option (List NamespacedName))
    → Any P (new_clashes before after involving)
      ↔ Lost (IsNewWith P before.lost involving) after.lost
unfolding new_clashes
new_clashes-IsNew P before after involving =
    let found = fresh_from-Any P before.lost involving after.lost in
    let all = fresh_from (known_keys before.lost) involving after.lost in
    (
      (λ h. found.0 (Any-sort_by clash_before P all h)),
      (λ h. sort_by-Any clash_before P all (found.1 h)),
    )

Lost-self : (lost : Conflicts) → All (λ p. All (λ e. Lost (IsSameClash p.0 e) lost) p.1) lost
Lost-self lost =
    All-map _ _ lost
      (λ p m.
        All-map _ _ p.1
          (λ e k. Any-of_mem _ lost p m (Any-of_mem _ p.1 e k (refl, refl, refl, refl)))
          (All-self p.1))
      (All-self lost)

empty_of_none : (cs : List Clash) → ¬ Any (λ c. Unit {0}) cs → cs ≡ []
empty_of_none [] h = refl
empty_of_none (c ∷ cs) h = absurd (h (inl tt))

-- A render has no new clash against itself, whichever endpoints are asked about.
new_clashes-same :
    (r : RouteConflicts) (involving : Option (List NamespacedName)) → new_clashes r r involving ≡ []
new_clashes-same r involving = empty_of_none (new_clashes r r involving) (λ h.
    Any-elim _ ⊥ r.lost (λ p m. Any-elim _ ⊥ p.1 (λ e k. k.1.1.fresh k.0) (All-at _ _ p.1 m.0 m.1))
      (All-at _ _ r.lost (Lost-self r.lost) ((new_clashes-IsNew (λ c. Unit) r r involving).0 h)))
