-- ===== src/AutoConfig/Plan/Held.antt =====
-- Passes that are held, or some of whose writes are rejected.
use kraken_d_operator.Base.{
  Bool, true, ◌||◌, any, ◌≡◌, ◌⊎◌, inl, inr, refl, arith, Option, some, List, [], ◌∷◌, Bool-cases,
  if◌then◌else◌,
}
use kraken_d_operator.Base.Maps.{lookup, lookup-insert}
use kraken_d_operator.Base.Texts.{Text, text_eq, text_key}
use kraken_d_operator.AutoConfig.Plan.{
  stored, Endpoint, Controlled, plan_endpoints, or_created, merged, write_endpoint, write_each,
  reconcile_endpoints,
}
use kraken_d_operator.AutoConfig.Plan.Writes.{wanted, writes, wanted-writes}

module _ (Spec Value : Type 0) (marshal : Spec → Option Text) (unmarshal : Text → Option Value)
    (deep_equal : Value → Value → Bool) (encode : Spec → Spec) where
  abbrev Item : Type 0
  Item = Endpoint Spec Value marshal unmarshal deep_equal encode

  abbrev Store : Type 0
  Store = Controlled Spec Value marshal unmarshal deep_equal encode

  abbrev is_in : List Item → Text → Bool
  is_in = wanted Spec Value marshal unmarshal deep_equal encode

  -- The endpoint is as it was, or it is desired and there is one of its name.
  abbrev pub IsKept : List Item → Text → Item → Store → Type 0
  IsKept eps name cur store =
      (lookup name store ≡ some cur)
      ⊎ ((is_in eps name ≡ true) × ((live : Item) × (lookup name store ≡ some live)))

  abbrev write_to : Spec → (Item → Bool) → Store → Item → Store
  write_to zero_spec rejects store ep =
      if rejects ep
      then store
      else write_endpoint Spec Value marshal unmarshal deep_equal encode zero_spec store ep

  later-IsKept :
      (ep : Item) (eps : List Item) (name : Text) (cur : Item) (store : Store)
      → IsKept eps name cur store
      → IsKept (ep ∷ eps) name cur store
  later-IsKept ep eps name cur store (inl h) = inl h
  later-IsKept ep eps name cur store (inr (w, there)) = inr ((ground (arith, w)), there)

  -- an endpoint of that name is there whichever way it is kept
  IsKept-there :
      (eps : List Item) (name : Text) (cur : Item) (store : Store)
      → IsKept eps name cur store
      → (live : Item) × (lookup name store ≡ some live)
  IsKept-there eps name cur store (inl h) = (cur, h)
  IsKept-there eps name cur store (inr (w, there)) = there

  write_each-IsKept :
      (zero_spec : Spec) (rejects : Item → Bool) (eps : List Item) (store : Store) (name : Text)
      (cur : Item)
      → lookup name store ≡ some cur
      → IsKept eps name cur
          (write_each Spec Value marshal unmarshal deep_equal encode zero_spec rejects store eps)
  unfolding write_each write_endpoint
  write_each-IsKept zero_spec rejects [] store name cur h = inl h
  write_each-IsKept zero_spec rejects (ep ∷ eps) store name cur h =
      let live = stored Spec Value marshal unmarshal deep_equal encode (
        merged Spec Value marshal unmarshal deep_equal encode ep (
          or_created Spec Value marshal unmarshal deep_equal encode ep.name zero_spec
            (lookup ep.name store))) in
      let next = write_to zero_spec rejects store ep in
      let end =
        write_each Spec Value marshal unmarshal deep_equal encode zero_spec rejects next eps in
      elim (Bool-cases (rejects ep)) [
        | inl no_write ↦
            later-IsKept ep eps name cur end
              (write_each-IsKept zero_spec rejects eps next name cur (rw no_write h))
        | inr fine ↦ elim (Bool-cases (text_eq ep.name name)) [
          | inl same ↦ inr (
            rw same refl,
            IsKept-there eps name live end (
                write_each-IsKept zero_spec rejects eps next name live
                  (rw fine (rw (lookup-insert ep.name name live store) (rw same refl)))),
          )
          | inr other ↦ later-IsKept ep eps name cur end (
              write_each-IsKept zero_spec rejects eps next name cur
                (rw fine (rw (lookup-insert ep.name name live store) (rw other h))))
        ]
      ]

  desired-IsKept :
      (before : Store) (desired : List Item) (name : Text) (cur : Item) (store : Store)
      → IsKept (writes Spec Value marshal unmarshal deep_equal encode before desired) name cur store
      → IsKept desired name cur store
  desired-IsKept before desired name cur store (inl h) = inl h
  desired-IsKept before desired name cur store (inr (w, there)) =
      elim (Bool-cases (is_in desired name)) [
        | inl yes_in ↦ inr (yes_in, there)
        | inr out ↦
            let not_in =
              wanted-writes Spec Value marshal unmarshal deep_equal encode before desired name
                out in
            ground (arith, not_in, w)
      ]

  -- Where an operation is held or a write is rejected, a pass deletes nothing: each controlled
  -- endpoint is afterwards as it was, or it is desired and an endpoint of its name is still there.
  pub reconcile_endpoints-IsKept :
      (zero_spec : Spec) (rejects undeleted : Item → Bool) (held : Bool) (controlled : Store)
      (desired : List Item) (name : Text) (cur : Item)
      → held
          || any rejects
              (plan_endpoints Spec Value marshal unmarshal deep_equal encode controlled desired).0
        ≡ true
      → lookup name controlled ≡ some cur
      → IsKept desired name cur (
          reconcile_endpoints Spec Value marshal unmarshal deep_equal encode zero_spec rejects
            undeleted held controlled desired)
  unfolding plan_endpoints reconcile_endpoints
  reconcile_endpoints-IsKept zero_spec rejects undeleted held controlled desired name cur stop h =
      let todo = writes Spec Value marshal unmarshal deep_equal encode controlled desired in
      let after =
        write_each Spec Value marshal unmarshal deep_equal encode zero_spec rejects controlled
          todo in
      let kept =
        desired-IsKept controlled desired name cur after
          (write_each-IsKept zero_spec rejects todo controlled name cur h) in
      elim (Bool-cases held) [
        | inl yes_held ↦ rw yes_held kept
        | inr free ↦ rw (free, (rw free at stop)) kept
      ]
