-- ===== src/Memo/Kinds.antt =====
-- operator/internal/controller/absent_kind_memo.go. A kind is its group, version and kind as one
-- text; an instant is a count of nanoseconds.
use kraken_d_operator.Base.{
  Bool, true, false, Option, none, some, List, [], ◌∷◌, ◌≡◌, ◌≢◌, ◌↔◌, ◌⊎◌, inl, inr, refl,
  Bool-cases, arith, if◌then◌else◌,
}
use kraken_d_operator.Base.Int.{
  ℤ, pos, negsuc, ◌+ℤ◌, ◌≤ℤ◌, ◌<ℤ◌, ltb_ℤ, ltb_ℤ→lt, lt→ltb_ℤ, le→ltb_ℤ,
}
use kraken_d_operator.Base.Maps.{lookup, insert, delete, lookup-insert, lookup-delete}
use kraken_d_operator.Base.Texts.{Text, text_eq, text_eq_iff, text_key}

-- a minute
abbrev pub absent_kind_window : ℤ
absent_kind_window = pos 60000000000

-- the zero `time.Time`: the first instant of the year 1
abbrev pub zero_time : ℤ
zero_time = negsuc 62135596799999999999

abbrev pub AbsentKinds : Type 0
AbsentKinds = List (Text × ℤ)

abbrev or_zero_time : Option ℤ → ℤ
or_zero_time none = zero_time
or_zero_time (some t) = t

unfoldable pub absent : Text → ℤ → AbsentKinds → Bool
absent kind now until = ltb_ℤ now (or_zero_time (lookup kind until))

unfoldable pub remember_absent : Text → ℤ → AbsentKinds → AbsentKinds
remember_absent kind now until = insert kind (now +ℤ absent_kind_window) until

unfoldable pub forget_absent : Text → AbsentKinds → AbsentKinds
forget_absent kind until = delete kind until

pub data Event : Type 0 where
  found_absent : Text → ℤ → Event
  found_present : Text → Event

abbrev pub after_events : List Event → AbsentKinds
after_events [] = []
after_events (found_absent kind now ∷ events) = remember_absent kind now (after_events events)
after_events (found_present kind ∷ events) = forget_absent kind (after_events events)

-- The events, the latest first, still say at `now` that the kind is absent: the last answer on the
-- kind was negative and is less than a minute old.
pub StillAbsent : Text → ℤ → List Event → Type 0
StillAbsent kind now [] = ⊥
StillAbsent kind now (found_absent k t ∷ events) =
    ((k ≡ kind) × (now <ℤ t +ℤ absent_kind_window)) ⊎ ((k ≢ kind) × StillAbsent kind now events)
StillAbsent kind now (found_present k ∷ events) = (k ≢ kind) × StillAbsent kind now events

absent-remember_absent :
    (kind k : Text) (now t : ℤ) (until : AbsentKinds)
    → absent kind now (remember_absent k t until)
      ≡ (if text_eq k kind then ltb_ℤ now (t +ℤ absent_kind_window) else absent kind now until)
unfolding absent remember_absent
absent-remember_absent kind k now t until =
    rw (absent, remember_absent, lookup-insert k kind (t +ℤ absent_kind_window) until)
      (elim (Bool-cases (text_eq k kind)) [ inl same ↦ rw same refl | inr other ↦ rw other refl ])

absent-forget_absent :
    (kind k : Text) (now : ℤ) (until : AbsentKinds)
    → absent kind now (forget_absent k until)
      ≡ (if text_eq k kind then ltb_ℤ now zero_time else absent kind now until)
unfolding absent forget_absent
absent-forget_absent kind k now until =
    rw (absent, forget_absent, lookup-delete k kind until)
      (elim (Bool-cases (text_eq k kind)) [ inl same ↦ rw same refl | inr other ↦ rw other refl ])

absent-empty : (kind : Text) (now : ℤ) → absent kind now [] ≡ ltb_ℤ now zero_time
unfolding absent
absent-empty kind now = refl

differ : (a b : Text) → text_eq a b ≡ false → a ≢ b
differ a b h e = ground (arith, h, (text_eq_iff a b).1 e)

-- From the first instant of the year 1 on, whatever the answers before, the memo reports a kind as
-- absent exactly if the last answer on that kind was negative and is less than a minute old.
pub absent_iff :
    (kind : Text) (now : ℤ) (events : List Event)
    → zero_time ≤ℤ now
    → (absent kind now (after_events events) ≡ true) ↔ StillAbsent kind now events
unfolding StillAbsent
absent_iff kind now [] h =
    let never = le→ltb_ℤ now zero_time h in
    ((λ k. ground (arith, rw (absent-empty kind now, never) at k)), (λ k. absurd k))
absent_iff kind now (found_absent k t ∷ events) h =
    let before = absent_iff kind now events h in
    let e = absent-remember_absent kind k now t (after_events events) in
    elim (Bool-cases (text_eq k kind)) [
      | inl same ↦
          let is_kind = (text_eq_iff k kind).0 same in
          rw (e, same)
            (
              (λ x. inl (is_kind, ltb_ℤ→lt now (t +ℤ absent_kind_window) x)),
              (λ x. elim x [
                | inl y ↦ lt→ltb_ℤ now (t +ℤ absent_kind_window) y.1
                | inr y ↦ absurd (y.0 is_kind)
              ]),
            )
      | inr other ↦
          rw (e, other)
            (
              (λ x. inr (differ k kind other, before.0 x)),
              (λ x. elim x [ inl y ↦ absurd (differ k kind other y.0) | inr y ↦ before.1 y.1 ]),
            )
    ]
absent_iff kind now (found_present k ∷ events) h =
    let before = absent_iff kind now events h in
    let never = le→ltb_ℤ now zero_time h in
    let e = absent-forget_absent kind k now (after_events events) in
    elim (Bool-cases (text_eq k kind)) [
      | inl same ↦
          rw (e, same, never)
            ((λ x. ground (arith, x)), (λ x. absurd (x.0 ((text_eq_iff k kind).0 same))))
      | inr other ↦ rw (e, other) ((λ x. (differ k kind other, before.0 x)), (λ x. before.1 x.1))
    ]
