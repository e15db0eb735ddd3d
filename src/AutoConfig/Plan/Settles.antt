-- ===== src/AutoConfig/Plan/Settles.antt =====
-- A pass whose plan is carried out: the deletions, and the plan that is left.
use kraken_d_operator.Base.{
  All-of_mem, Bool, true, false, ◌≡◌, ◌∙◌, inl, inr, refl, sym, ap, arith, Option, none,
  Option-cases, List, [], ◌∷◌, All, Any, Bool-cases,
}
use kraken_d_operator.Base.Maps.{lookup, delete, lookup-delete, entry-lookup}
use kraken_d_operator.Base.Texts.{Text, text_eq, text_eq_iff, text_lt, text_key}
use kraken_d_operator.Route.Entries.{sort_by}
use kraken_d_operator.Route.Entries.Order.{sort_by-Any, Any-sort_by}
use kraken_d_operator.AutoConfig.Plan.{writes_of, stale_of, plan_endpoints, delete_all, apply_plan}
use kraken_d_operator.AutoConfig.Plan.Writes.{
  json, Item, Store, wanted, writing, writes, AllSettled, IsDesired, lookup-write_all,
  wanted-writes, write_all-settles,
}

module _ (Spec Value : Type 0) (marshal : Spec → Option Text) (unmarshal : Text → Option Value)
    (deep_equal : Value → Value → Bool) (encode : Spec → Spec) where
  abbrev Here : Type 0
  Here = Item Spec Value marshal unmarshal deep_equal encode

  abbrev Held : Type 0
  Held = Store Spec Value marshal unmarshal deep_equal encode

  abbrev is_in : List Here → Text → Bool
  is_in = wanted Spec Value marshal unmarshal deep_equal encode

  abbrev after_writes : Spec → Held → List Here → Held
  after_writes = writing Spec Value marshal unmarshal deep_equal encode

  abbrev due : Held → List Here → List Here
  due = writes Spec Value marshal unmarshal deep_equal encode

  abbrev Settled : Held → List Here → Type 0
  Settled = AllSettled Spec Value marshal unmarshal deep_equal encode

  abbrev erased : Held → Held → Held
  erased = delete_all Spec Value marshal unmarshal deep_equal encode

  abbrev stale : List Here → Held → Held
  stale = stale_of Spec Value marshal unmarshal deep_equal encode

  -- a name that no deletion has stays
  lookup-delete_all :
      (desired : List Here) (store gone : Held) (name : Text)
      → is_in desired name ≡ true
      → All (λ g. is_in desired g.0 ≡ false) gone
      → lookup name (erased store gone) ≡ lookup name store
  unfolding delete_all
  lookup-delete_all desired store [] name w h = refl
  lookup-delete_all desired store ((k, v) ∷ gone) name w (p, h) =
      lookup-delete_all desired (delete k store) gone name w h
      ∙ rw (lookup-delete k name store) (elim (Bool-cases (text_eq k name)) [
        | inr other ↦ rw other refl
        | inl same ↦
            let eq = (text_eq_iff k name).0 same in
            let no : is_in desired name ≡ false = rw (sym eq) p in ground (arith, no, w)
      ])

  -- a missing name stays missing
  delete_all-none :
      (store gone : Held) (name : Text)
      → lookup name store ≡ none
      → lookup name (erased store gone) ≡ none
  unfolding delete_all
  delete_all-none store [] name h = h
  delete_all-none store ((k, v) ∷ gone) name h =
      delete_all-none (delete k store) gone name
        (rw (lookup-delete k name store) (rw h (ground arith)))

  -- a deleted name is missing
  delete_all-gone :
      (store gone : Held) (name : Text) (cur : Here)
      → Any (λ g. g ≡ (name, cur)) gone
      → lookup name (erased store gone) ≡ none
  unfolding delete_all
  delete_all-gone store [] name cur h = absurd h
  delete_all-gone store ((k, v) ∷ gone) name cur (inl p) =
      let same : k ≡ name = ap (λ (g : Text × Here). g.0) p in
      delete_all-none (delete k store) gone name
        (rw (lookup-delete k name store) (rw ((text_eq_iff k name).1 same) refl))
  delete_all-gone store ((k, v) ∷ gone) name cur (inr h) =
      delete_all-gone (delete k store) gone name cur h

  stale_of-All :
      (desired : List Here) (sorted : Held)
      → All (λ g. is_in desired g.0 ≡ false) (stale desired sorted)
  unfolding stale_of
  stale_of-All desired [] = tt
  stale_of-All desired ((k, v) ∷ sorted) =
      let rest = stale_of-All desired sorted in
      elim (Bool-cases (is_in desired k)) [ inl w ↦ rw w rest | inr out ↦ rw out (out, rest) ]

  -- a controlled endpoint that is not wanted is stale
  stale-member :
      (desired : List Here) (sorted : Held) (name : Text) (cur : Here)
      → is_in desired name ≡ false
      → Any (λ g. g ≡ (name, cur)) sorted
      → Any (λ g. g ≡ (name, cur)) (stale desired sorted)
  unfolding stale_of
  stale-member desired [] name cur h a = absurd a
  stale-member desired ((k, v) ∷ sorted) name cur h (inl p) =
      let same : k ≡ name = ap (λ (g : Text × Here). g.0) p in
      let out : is_in desired k ≡ false = rw same h in rw out (inl p)
  stale-member desired ((k, v) ∷ sorted) name cur h (inr a) =
      let rest = stale-member desired sorted name cur h a in
      elim (Bool-cases (is_in desired k)) [ inl w ↦ rw w rest | inr out ↦ rw out (inr rest) ]

  -- a store where every name but the wanted ones is missing has none stale
  missing-absent :
      (store : Held) (name : Text) (cur : Here)
      → lookup name store ≡ none
      → Any (λ g. g ≡ (name, cur)) store
      → ⊥
  missing-absent [] name cur h a = a
  missing-absent ((k, v) ∷ store) name cur h (inl p) =
      let same : k ≡ name = ap (λ (g : Text × Here). g.0) p in
      let hit = (text_eq_iff k name).1 same in ground (arith, h, hit)
  missing-absent ((k, v) ∷ store) name cur h (inr a) = elim (Bool-cases (text_eq k name)) [
    | inl hit ↦ ground (arith, h, hit)
    | inr other ↦ missing-absent store name cur (rw other at h) a
  ]

  stale_of-empty :
      (desired : List Here) (sorted : Held)
      → All (λ g. is_in desired g.0 ≡ true) sorted
      → stale desired sorted ≡ []
  unfolding stale_of
  stale_of-empty desired [] h = refl
  stale_of-empty desired ((k, v) ∷ sorted) (p, h) = rw p (stale_of-empty desired sorted h)

  writes_of-empty : (store : Held) (eps : List Here) → Settled store eps → due store eps ≡ []
  unfolding writes_of
  writes_of-empty store [] h = refl
  writes_of-empty store (ep ∷ eps) (p, h) = rw p (writes_of-empty store eps h)

  abbrev by_name : (Text × Here) → (Text × Here) → Bool
  by_name a b = text_lt a.0 b.0

  abbrev applied : Spec → Held → List Here → Held
  applied zero_spec store desired =
      erased (after_writes zero_spec store (due store desired))
        (stale desired (sort_by by_name store))

  -- a name that is not wanted is missing after the pass
  applied-missing :
      (zero_spec : Spec) (store : Held) (desired : List Here) (name : Text)
      → is_in desired name ≡ false
      → lookup name (applied zero_spec store desired) ≡ none
  applied-missing zero_spec store desired name out =
      let after = after_writes zero_spec store (due store desired) in
      let stales = stale desired (sort_by by_name store) in
      let same =
        lookup-write_all Spec Value marshal unmarshal deep_equal encode zero_spec store
          (due store desired) name
          (wanted-writes Spec Value marshal unmarshal deep_equal encode store desired name out) in
      elim (Option-cases (lookup name store)) [
        | inl gone ↦ delete_all-none after stales name (same ∙ gone)
        | inr (cur, have) ↦ delete_all-gone after stales name cur (
            stale-member desired (sort_by by_name store) name cur out
              (sort_by-Any by_name (λ g. g ≡ (name, cur)) store (entry-lookup name cur store have)))
      ]

  mem_wanted :
      (desired : List Here) (ep : Here) → Any (λ e. e ≡ ep) desired → is_in desired ep.name ≡ true
  mem_wanted [] ep a = absurd a
  mem_wanted (e ∷ desired) ep (inl p) =
      let same : e.name ≡ ep.name = ap (λ (x : Here). x.name) p in
      rw ((text_eq_iff e.name ep.name).1 same) refl
  mem_wanted (e ∷ desired) ep (inr a) = let rest = mem_wanted desired ep a in ground (arith, rest)

  -- the deletions leave a settled endpoint
  delete_all-Settled :
      (desired : List Here) (store gone : Held) (eps : List Here)
      → All (λ g. is_in desired g.0 ≡ false) gone
      → All (λ e. is_in desired e.name ≡ true) eps
      → Settled store eps
      → Settled (erased store gone) eps
  delete_all-Settled desired store gone [] g w h = tt
  delete_all-Settled desired store gone (ep ∷ eps) g (w, ws) (p, h) = (
    rw (lookup-delete_all desired store gone ep.name w g) p,
    delete_all-Settled desired store gone eps g ws h,
  )

  applied-Settled :
      (zero_spec : Spec) (store : Held) (desired : List Here)
      → IsDesired Spec Value marshal unmarshal deep_equal encode desired
      → ((spec : Spec)
          → json Spec Value marshal unmarshal deep_equal encode (encode spec)
            ≡ json Spec Value marshal unmarshal deep_equal encode spec)
      → Settled (applied zero_spec store desired) desired
  applied-Settled zero_spec store desired d kept =
      delete_all-Settled desired (after_writes zero_spec store (due store desired))
        (stale desired (sort_by by_name store)) desired
        (stale_of-All desired (sort_by by_name store)) (All-of_mem _ desired (mem_wanted desired))
        (write_all-settles Spec Value marshal unmarshal deep_equal encode zero_spec store store
          desired d kept (All-of_mem _ desired (λ e m. refl)))

  -- every name left is wanted
  applied-wanted :
      (zero_spec : Spec) (store : Held) (desired : List Here)
      → All (λ g. is_in desired g.0 ≡ true) (sort_by by_name (applied zero_spec store desired))
  applied-wanted zero_spec store desired =
      let final = applied zero_spec store desired in
      All-of_mem _ (sort_by by_name final) (λ g m. elim (Bool-cases (is_in desired g.0)) [
        | inl w ↦ w
        | inr out ↦ absurd (
            missing-absent final g.0 g.1 (applied-missing zero_spec store desired g.0 out)
              (Any-sort_by by_name (λ x. x ≡ g) final m))
      ])

  -- the plan after a pass that is carried out is empty
  pub apply_plan-settles :
      (zero_spec : Spec) (controlled : Held) (desired : List Here)
      → IsDesired Spec Value marshal unmarshal deep_equal encode desired
      → ((spec : Spec)
          → json Spec Value marshal unmarshal deep_equal encode (encode spec)
            ≡ json Spec Value marshal unmarshal deep_equal encode spec)
      → plan_endpoints Spec Value marshal unmarshal deep_equal encode
          (apply_plan Spec Value marshal unmarshal deep_equal encode zero_spec controlled desired)
          desired
        ≡ ([], [])
  unfolding plan_endpoints apply_plan
  apply_plan-settles zero_spec controlled desired d kept =
      let final = applied zero_spec controlled desired in
      let left =
        writes_of-empty final desired (applied-Settled zero_spec controlled desired d kept) in
      let right =
        stale_of-empty desired (sort_by by_name final)
          (applied-wanted zero_spec controlled desired) in
      λ i. (left i, right i)
