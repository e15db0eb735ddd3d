-- ===== src/AutoConfig/Plan/Passes.antt =====
-- A pass that nothing holds back.
use kraken_d_operator.Base.{Bool, false, any, ◌≡◌, ◌∙◌, refl, ap, Option, List, [], ◌∷◌}
use kraken_d_operator.Base.Maps.{delete}
use kraken_d_operator.Base.Texts.{Text, text_key}
use kraken_d_operator.AutoConfig.Plan.{
  json_value, Endpoint, Controlled, plan_endpoints, write_endpoint, write_all, write_each,
  delete_all, delete_each, apply_plan, reconcile_endpoints,
}
use kraken_d_operator.AutoConfig.Plan.Writes.{IsDesired}
use kraken_d_operator.AutoConfig.Plan.Settles.{apply_plan-settles}

module _ (Spec Value : Type 0) (marshal : Spec → Option Text) (unmarshal : Text → Option Value)
    (deep_equal : Value → Value → Bool) (encode : Spec → Spec) where
  abbrev Item : Type 0
  Item = Endpoint Spec Value marshal unmarshal deep_equal encode

  abbrev Store : Type 0
  Store = Controlled Spec Value marshal unmarshal deep_equal encode

  abbrev never : Item → Bool
  never ep = false

  any-never : (eps : List Item) → any never eps ≡ false
  any-never [] = refl
  any-never (ep ∷ eps) = any-never eps

  write_each-never :
      (zero_spec : Spec) (store : Store) (eps : List Item)
      → write_each Spec Value marshal unmarshal deep_equal encode zero_spec never store eps
        ≡ write_all Spec Value marshal unmarshal deep_equal encode zero_spec store eps
  unfolding write_each write_all
  write_each-never zero_spec store [] = refl
  write_each-never zero_spec store (ep ∷ eps) =
      write_each-never zero_spec
        (write_endpoint Spec Value marshal unmarshal deep_equal encode zero_spec store ep) eps

  delete_each-never :
      (store stale : Store)
      → delete_each Spec Value marshal unmarshal deep_equal encode never store stale
        ≡ delete_all Spec Value marshal unmarshal deep_equal encode store stale
  unfolding delete_each delete_all
  delete_each-never store [] = refl
  delete_each-never store ((name, cur) ∷ stale) = delete_each-never (delete name store) stale

  reconcile_endpoints-never :
      (zero_spec : Spec) (store : Store) (desired : List Item)
      → reconcile_endpoints Spec Value marshal unmarshal deep_equal encode zero_spec never never
          false store desired
        ≡ apply_plan Spec Value marshal unmarshal deep_equal encode zero_spec store desired
  unfolding reconcile_endpoints apply_plan
  reconcile_endpoints-never zero_spec store desired =
      let p = plan_endpoints Spec Value marshal unmarshal deep_equal encode store desired in
      rw (any-never p.0) (
        delete_each-never
          (write_each Spec Value marshal unmarshal deep_equal encode zero_spec never store p.0) p.1
        ∙ ap (λ s. delete_all Spec Value marshal unmarshal deep_equal encode s p.1)
            (write_each-never zero_spec store p.0))

  -- After a pass that holds no operation, and none of whose writes and deletions fails, the plan of
  -- the same desired endpoints is empty: nothing is written again and nothing is deleted. The
  -- desired endpoints' names differ, their labels have no key twice, and each spec has a JSON value
  -- that equals itself. The specs are kept as the API server re-encodes them, which changes no spec's
  -- JSON value.
  pub reconcile_endpoints-settles :
      (zero_spec : Spec) (controlled : Store) (desired : List Item)
      → IsDesired Spec Value marshal unmarshal deep_equal encode desired
      → ((spec : Spec)
          → json_value Spec Value marshal unmarshal deep_equal encode (encode spec)
            ≡ json_value Spec Value marshal unmarshal deep_equal encode spec)
      → plan_endpoints Spec Value marshal unmarshal deep_equal encode
          (reconcile_endpoints Spec Value marshal unmarshal deep_equal encode zero_spec never never
            false controlled desired)
          desired
        ≡ ([], [])
  reconcile_endpoints-settles zero_spec controlled desired d kept =
      ap (λ s. plan_endpoints Spec Value marshal unmarshal deep_equal encode s desired)
        (reconcile_endpoints-never zero_spec controlled desired)
      ∙ apply_plan-settles Spec Value marshal unmarshal deep_equal encode zero_spec controlled
          desired d kept
