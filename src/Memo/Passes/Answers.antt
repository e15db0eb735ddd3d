-- ===== src/Memo/Passes/Answers.antt =====
-- What the memo answers in a pass, and in the next one.
use kraken_d_operator.Base.{
  Bool, true, false, ◌||◌, Option, none, some, Option-cases, List, [], ◌∷◌, ◌≡◌, ◌≢◌, inl, inr,
  refl, ap, ◌∙◌, Bool-cases, arith, if◌then◌else◌,
}
use kraken_d_operator.Base.Maps.{lookup, lookup-insert}
use kraken_d_operator.Base.Texts.{Text, text_eq, text_eq_iff, text_key}
use kraken_d_operator.Route.Entries.{NamespacedName, source_eq, source_eq_lem, source_key}
use kraken_d_operator.Route.Admission.{or_empty}
use kraken_d_operator.Check.Verdicts.{Verdict}
use kraken_d_operator.Memo.Passes.{
  VerdictMap, VerdictMemo, PassMemo, look_up, store, begin_pass, copy_into, end_pass,
}

-- what a pass does with its memo
pub data Use : Type 0 where
  looked_up : Text → Use
  stored : Text → Verdict → Use

abbrev pub use_memo : Use → PassMemo → PassMemo
use_memo (looked_up key) p = (look_up key p).1
use_memo (stored key v) p = store key v p

-- the memo after the uses, the latest first
abbrev pub after_uses : List Use → PassMemo → PassMemo
after_uses [] p = p
after_uses (u ∷ uses) p = use_memo u (after_uses uses p)

-- What a pass that began with `kept` should answer: the verdict stored last in this pass, and the
-- kept one if there is none.
abbrev pub latest : Text → VerdictMap → List Use → Option Verdict
latest key kept [] = lookup key kept
latest key kept (looked_up k ∷ uses) = latest key kept uses
latest key kept (stored k v ∷ uses) =
    let before = latest key kept uses in if text_eq k key then some v else before

abbrev pub is_used : Text → List Use → Bool
is_used key [] = false
is_used key (looked_up k ∷ uses) = text_eq k key || is_used key uses
is_used key (stored k v ∷ uses) = text_eq k key || is_used key uses

abbrev or_else : Option Verdict → Option Verdict → Option Verdict
or_else none b = b
or_else (some v) b = some v

-- what `Lookup` answers
abbrev answer : Text → PassMemo → Option Verdict
answer key p = or_else (lookup key p.used) (lookup key p.kept)

look_up-answer : (key : Text) (p : PassMemo) → (look_up key p).0 ≡ answer key p
unfolding look_up
look_up-answer key p = elim (Option-cases (lookup key p.used)) [
  | inl missing ↦ elim (Option-cases (lookup key p.kept)) [
    | inl none_kept ↦ rw (look_up, missing, none_kept) refl
    | inr (v, there) ↦ rw (look_up, missing, there) refl
  ]
  | inr (v, there) ↦ rw (look_up, there) refl
]

look_up-kept : (k : Text) (p : PassMemo) → (look_up k p).1.kept ≡ p.kept
unfolding look_up
look_up-kept k p = elim (Option-cases (lookup k p.used)) [
  | inl missing ↦ elim (Option-cases (lookup k p.kept)) [
    | inl none_kept ↦ rw (look_up, missing, none_kept) refl
    | inr (v, there) ↦ rw (look_up, missing, there) refl
  ]
  | inr (v, there) ↦ rw (look_up, there) refl
]

look_up-used_self : (key : Text) (p : PassMemo) → lookup key (look_up key p).1.used ≡ answer key p
unfolding look_up
look_up-used_self key p = elim (Option-cases (lookup key p.used)) [
  | inl missing ↦ elim (Option-cases (lookup key p.kept)) [
    | inl none_kept ↦ rw (look_up, missing, none_kept) missing
    | inr (v, there) ↦
        rw (look_up, missing, there, lookup-insert key key v p.used, (text_eq_iff key key).1 refl)
          refl
  ]
  | inr (v, there) ↦ rw (look_up, there) there
]

-- a lookup makes the answer one that this pass used
look_up-used :
    (k key : Text) (p : PassMemo)
    → lookup key (look_up k p).1.used ≡ (if text_eq k key then answer key p else lookup key p.used)
unfolding look_up
look_up-used k key p = elim (Bool-cases (text_eq k key)) [
  | inl same ↦
      let e = (text_eq_iff k key).0 same in
      rw (same, ap (λ x. lookup key (look_up x p).1.used) e) (look_up-used_self key p)
  | inr other ↦ elim (Option-cases (lookup k p.used)) [
    | inl missing ↦ elim (Option-cases (lookup k p.kept)) [
      | inl none_kept ↦ rw (look_up, missing, none_kept, other) refl
      | inr (v, there) ↦ rw (look_up, missing, there, lookup-insert k key v p.used, other) refl
    ]
    | inr (v, there) ↦ rw (look_up, there, other) refl
  ]
]

lookup-copy_into :
    (key : Text) (keep used : VerdictMap)
    → lookup key (copy_into keep used) ≡ or_else (lookup key used) (lookup key keep)
unfolding copy_into
lookup-copy_into key keep [] = refl
lookup-copy_into key keep ((k, v) ∷ used) =
    rw (copy_into, lookup-insert k key v (copy_into keep used))
      (elim (Bool-cases (text_eq k key)) [
        | inl same ↦ rw same refl
        | inr other ↦ rw (other, lookup-copy_into key keep used) refl
      ])

or_else_twice : (a b : Option Verdict) → or_else (or_else a b) b ≡ or_else a b
or_else_twice none none = refl
or_else_twice none (some v) = refl
or_else_twice (some v) b = refl

module _ (kept : VerdictMap) where
  abbrev fresh : PassMemo
  fresh = record { kept = kept; used = [] }

  use_memo-kept : (uses : List Use) → (after_uses uses fresh).kept ≡ kept
  unfolding store
  use_memo-kept [] = refl
  use_memo-kept (looked_up k ∷ uses) = look_up-kept k (after_uses uses fresh) ∙ use_memo-kept uses
  use_memo-kept (stored k v ∷ uses) = use_memo-kept uses

  store-used :
      (k key : Text) (v : Verdict) (p : PassMemo)
      → lookup key (store k v p).used ≡ (if text_eq k key then some v else lookup key p.used)
  unfolding store
  store-used k key v p = lookup-insert k key v p.used

  -- what the pass used is what it should answer, for the keys it used
  after_uses-used :
      (key : Text) (uses : List Use)
      → (lookup key (after_uses uses fresh).used
          ≡ (if is_used key uses then latest key kept uses else none))
        × (answer key (after_uses uses fresh) ≡ latest key kept uses)
  unfolding store
  after_uses-used key [] = (refl, refl)
  after_uses-used key (looked_up k ∷ uses) =
      let p = after_uses uses fresh in
      let (u, w) = after_uses-used key uses in
      elim (Bool-cases (text_eq k key)) [
        | inl same ↦ (
          rw (look_up-used k key p, same) w,
          rw (look_up-used k key p, look_up-kept k p, same)
              (or_else_twice (lookup key p.used) (lookup key p.kept) ∙ w),
        )
        | inr other ↦ (
          rw (look_up-used k key p, other) u,
          rw (look_up-used k key p, look_up-kept k p, other) w,
        )
      ]
  after_uses-used key (stored k v ∷ uses) =
      let p = after_uses uses fresh in
      let (u, w) = after_uses-used key uses in
      elim (Bool-cases (text_eq k key)) [
        | inl same ↦ (
          rw (lookup-insert k key v p.used, same) refl,
          rw (lookup-insert k key v p.used, same) refl,
        )
        | inr other ↦
            (rw (lookup-insert k key v p.used, other) u, rw (lookup-insert k key v p.used, other) w)
      ]

-- In a pass that has used its memo in any way, a lookup answers the verdict that the pass stored
-- last for the key, and where it stored none, what the owner's memo held when the pass began.
look_up-latest :
    (owner : NamespacedName) (memo : VerdictMemo) (key : Text) (uses : List Use)
    → (look_up key (after_uses uses (begin_pass owner memo))).0
      ≡ latest key (or_empty (lookup owner memo)) uses
unfolding begin_pass
look_up-latest owner memo key uses =
    look_up-answer key (after_uses uses (fresh (or_empty (lookup owner memo))))
    ∙ (after_uses-used (or_empty (lookup owner memo)) key uses).1

end_pass-other :
    (owner other : NamespacedName) (p : PassMemo) (failed : Bool) (memo : VerdictMemo)
    → source_eq owner other ≡ false
    → lookup other (end_pass owner p failed memo) ≡ lookup other memo
unfolding end_pass
end_pass-other owner other p failed memo h =
    rw
      (
        end_pass,
        lookup-insert owner other (if failed then copy_into p.kept p.used else p.used) memo,
        h,
      )
      refl

begin_pass-end_pass :
    (owner : NamespacedName) (p : PassMemo) (failed : Bool) (memo : VerdictMemo)
    → begin_pass owner (end_pass owner p failed memo)
      ≡ record { kept = if failed then copy_into p.kept p.used else p.used; used = [] }
unfolding begin_pass end_pass
begin_pass-end_pass owner p failed memo =
    rw
      (
        begin_pass,
        end_pass,
        lookup-insert owner owner (if failed then copy_into p.kept p.used else p.used) memo,
        (source_eq_lem owner owner).1 refl,
      )
      refl

next_answer :
    (kept : VerdictMap) (key : Text) (uses : List Use) (failed : Bool)
    → lookup key (
        if failed
        then copy_into (after_uses uses (fresh kept)).kept (after_uses uses (fresh kept)).used
        else (after_uses uses (fresh kept)).used)
      ≡ (if failed || is_used key uses then latest key kept uses else none)
next_answer kept key uses true =
    lookup-copy_into key (after_uses uses (fresh kept)).kept (after_uses uses (fresh kept)).used
    ∙ (after_uses-used kept key uses).1
next_answer kept key uses false = (after_uses-used kept key uses).0

-- The first lookup of the next pass of an owner, after a pass that used its memo in any way: if the
-- pass failed, what the pass itself would have answered; if it did not, that for the keys the pass
-- used, and nothing for the others. For another owner the pass changes nothing.
pub end_pass-latest :
    (owner other : NamespacedName) (memo : VerdictMemo) (key : Text) (uses : List Use)
    (failed : Bool)
    → (other ≢ owner)
    → ((look_up key (
          begin_pass owner
            (end_pass owner (after_uses uses (begin_pass owner memo)) failed memo))).0
        ≡ (if failed || is_used key uses
            then latest key (or_empty (lookup owner memo)) uses
            else none))
      × (lookup other (end_pass owner (after_uses uses (begin_pass owner memo)) failed memo)
          ≡ lookup other memo)
unfolding begin_pass
end_pass-latest owner other memo key uses failed h =
    let kept = or_empty (lookup owner memo) in
    let p = after_uses uses (fresh kept) in
    (
      rw (begin_pass-end_pass owner p failed memo)
          (look_up-answer key _ ∙ next_answer kept key uses failed),
      end_pass-other owner other p failed memo (ground (arith, source_eq_lem owner other, h)),
    )
