-- ===== src/License/Reconcile/Steady.antt =====
-- A pass that finds what the last pass found.
use kraken_d_operator.Base.{
  refl, ◌∙◌, String, ◌≡◌, Bool, true, false, arith, Option, none, some, List,
}
use kraken_d_operator.Base.Int.{ℤ}
use kraken_d_operator.Base.Results.{Result, ok, err}
use kraken_d_operator.Status.{Condition, license_secret_unavailable, status_is_true}
use kraken_d_operator.License.Window.{Window, Stage, stage_at}
use kraken_d_operator.License.Reconcile.{
  Env, Gateway, Edition, ce, ee, PassState, is_past_buffer, judge_known, by_known_expiry,
  by_edition, window_of, reconcile_unreadable_license, reconcile_read_license, read_license,
  forget_license, reconcile_license, unreadable_condition, set_problem_condition,
}
use kraken_d_operator.License.Reconcile.Settled.{
  is_reported, set_problem_condition-is_reported, set_problem_condition_idle, Settled,
  apply_license_stage-Settled, apply_license_stage_idle, apply_license_stage-unavailable,
  license_expiry-apply_license_stage, Settled-set,
}

module _ (env : Env) (gw : Gateway) where
  open env.api use {find_status_condition, find-set, is_true_lem}

  pub type-unreadable_condition :
      (e : String) → (unreadable_condition env gw e).type ≡ license_secret_unavailable
  unfolding unreadable_condition
  type-unreadable_condition e = ground arith

  status-unreadable_condition :
      (e : String) → status_is_true (unreadable_condition env gw e).status ≡ true
  unfolding unreadable_condition
  status-unreadable_condition e = ground arith

  -- What the conditions show once an unreadable licence has been reported.
  abbrev Reported : String → List Condition → Type 0
  Reported e cs =
      is_reported (unreadable_condition env gw e).reason
        (find_status_condition cs license_secret_unavailable)
      ≡ true

  judge_known-unavailable :
      (past recorded : Bool) (stage : Stage) (known : ℤ) (e : String) (s : PassState)
      → find_status_condition
          (judge_known env gw past stage known recorded e s).0.conditions
          license_secret_unavailable
        ≡ find_status_condition s.conditions license_secret_unavailable
  unfolding judge_known
  judge_known-unavailable true recorded stage known e s =
      apply_license_stage-unavailable env gw stage known s
  judge_known-unavailable false recorded stage known e s = simp find-set

  abbrev SettledIf : Bool → Stage → List Condition → Type 0
  SettledIf true stage cs = Settled env gw stage cs
  SettledIf false stage cs = Unit

  judge_known-SettledIf :
      (past recorded : Bool) (stage : Stage) (known : ℤ) (e : String) (s : PassState)
      → SettledIf past stage (judge_known env gw past stage known recorded e s).0.conditions
  unfolding judge_known
  judge_known-SettledIf true recorded stage known e s =
      apply_license_stage-Settled env gw stage known s
  judge_known-SettledIf false recorded stage known e s = tt

  judge_known_idle :
      (past recorded : Bool) (stage : Stage) (known : ℤ) (e : String) (s : PassState)
      → SettledIf past stage s.conditions
      → (judge_known env gw past stage known recorded e s).0.events ≡ s.events
  unfolding judge_known
  judge_known_idle true recorded stage known e s h = apply_license_stage_idle env gw stage known s h
  judge_known_idle false recorded stage known e s h = refl

  license_expiry-judge_known :
      (past recorded : Bool) (stage : Stage) (known : ℤ) (e : String) (s : PassState)
      → (judge_known env gw past stage known recorded e s).0.license_expiry ≡ s.license_expiry
  unfolding judge_known
  license_expiry-judge_known true recorded stage known e s =
      license_expiry-apply_license_stage env gw stage known s
  license_expiry-judge_known false recorded stage known e s = refl

  SettledIf-set :
      (past : Bool) (stage : Stage) (cs : List Condition) (c : Condition)
      → c.type ≡ license_secret_unavailable
      → SettledIf past stage cs
      → SettledIf past stage (env.api.set_status_condition cs c)
  SettledIf-set true stage cs c e h = Settled-set env gw stage cs c e h
  SettledIf-set false stage cs c e h = tt

  -- What a pass that could not read the licence leaves behind.
  abbrev SettledBy : Option ℤ → Window → List Condition → Type 0
  SettledBy none w cs = Unit
  SettledBy (some known) w cs =
      SettledIf (is_past_buffer (stage_at w known env.now)) (stage_at w known env.now) cs

  by_known_expiry_leaves :
      (known : Option ℤ) (recorded : Bool) (e : String) (w : Window) (s : PassState)
      → Reported e s.conditions
      → s.license_expiry ≡ known
      → Reported e (by_known_expiry env gw known recorded e w s).0.conditions
        × SettledBy known w (by_known_expiry env gw known recorded e w s).0.conditions
        × ((by_known_expiry env gw known recorded e w s).0.license_expiry ≡ known)
  unfolding by_known_expiry
  by_known_expiry_leaves none recorded e w s h k = (simp find-set h, tt, k)
  by_known_expiry_leaves (some known) recorded e w s h k = (
    rw judge_known-unavailable h,
    judge_known-SettledIf _ recorded _ known e _,
    license_expiry-judge_known _ recorded _ known e _ ∙ k,
  )

  pub license_expiry-by_known_expiry :
      (known : Option ℤ) (recorded : Bool) (e : String) (w : Window) (s : PassState)
      → (by_known_expiry env gw known recorded e w s).0.license_expiry ≡ s.license_expiry
  unfolding by_known_expiry
  license_expiry-by_known_expiry none recorded e w s = refl
  license_expiry-by_known_expiry (some known) recorded e w s =
      license_expiry-judge_known _ recorded _ known e _

  by_known_expiry_idle :
      (known : Option ℤ) (recorded : Bool) (e : String) (w : Window) (s : PassState)
      → SettledBy known w s.conditions
      → (by_known_expiry env gw known recorded e w s).0.events ≡ s.events
  unfolding by_known_expiry
  by_known_expiry_idle none recorded e w s h = refl
  by_known_expiry_idle (some known) recorded e w s h = judge_known_idle _ recorded _ known e _ h

  SettledBy-set :
      (known : Option ℤ) (w : Window) (cs : List Condition) (c : Condition)
      → c.type ≡ license_secret_unavailable
      → SettledBy known w cs
      → SettledBy known w (env.api.set_status_condition cs c)
  SettledBy-set none w cs c e h = tt
  SettledBy-set (some known) w cs c e h =
      SettledIf-set (is_past_buffer (stage_at w known env.now)) _ cs c e h

  pub conditions-set_problem_condition :
      (c : Condition) (s : PassState)
      → (set_problem_condition env gw c s).conditions ≡ env.api.set_status_condition s.conditions c
  unfolding set_problem_condition
  conditions-set_problem_condition c s = ground arith

  pub license_expiry-set_problem_condition :
      (c : Condition) (s : PassState)
      → (set_problem_condition env gw c s).license_expiry ≡ s.license_expiry
  unfolding set_problem_condition
  license_expiry-set_problem_condition c s = ground arith

  unreadable_leaves :
      (e : String) (w : Window) (s : PassState)
      → Reported e (reconcile_unreadable_license env gw e w s).0.conditions
        × SettledBy s.license_expiry w (reconcile_unreadable_license env gw e w s).0.conditions
        × ((reconcile_unreadable_license env gw e w s).0.license_expiry ≡ s.license_expiry)
  unfolding reconcile_unreadable_license
  unreadable_leaves e w s =
      by_known_expiry_leaves s.license_expiry _ e w _
        (rw (← type-unreadable_condition e) (
          set_problem_condition-is_reported env gw (unreadable_condition env gw e) s
            (status-unreadable_condition e)))
        (license_expiry-set_problem_condition _ s)

  unreadable_idle :
      (e : String) (w : Window) (s : PassState)
      → Reported e s.conditions
      → SettledBy s.license_expiry w s.conditions
      → (reconcile_unreadable_license env gw e w s).0.events ≡ s.events
  unfolding reconcile_unreadable_license
  unreadable_idle e w s h k =
      by_known_expiry_idle s.license_expiry _ e w _ (
        rw conditions-set_problem_condition
          (SettledBy-set s.license_expiry w s.conditions _ (type-unreadable_condition e) k))
      ∙ set_problem_condition_idle env gw _ s (rw (type-unreadable_condition e) h)

  unreadable_steady :
      (e : String) (w : Window) (s : PassState)
      → (reconcile_unreadable_license env gw e w
          (reconcile_unreadable_license env gw e w s).0).0.events
        ≡ (reconcile_unreadable_license env gw e w s).0.events
  unreadable_steady e w s =
      let (reported, settled, same) = unreadable_leaves e w s in
      unreadable_idle e w _ reported (rw same settled)

  by_edition_steady :
      (edition : Edition) (found : Result (String × ℤ)) (s : PassState)
      → (by_edition env gw edition found (by_edition env gw edition found s).0).0.events
        ≡ (by_edition env gw edition found s).0.events
  unfolding by_edition reconcile_read_license forget_license
  by_edition_steady ce found s = refl
  by_edition_steady ee (err e) s = unreadable_steady e (window_of env gw) s
  by_edition_steady ee (ok (checksum, e)) s = apply_license_stage_idle env gw _ e _ (
      Settled-set env gw (stage_at (window_of env gw) e env.now) _ _ refl
        (apply_license_stage-Settled env gw _ e _))

  -- A second pass that finds the same Secret, clock and spec, on the state that the first pass
  -- left, records no event.
  pub reconcile_license_steady :
      (s : PassState)
      → (reconcile_license env gw (reconcile_license env gw s).0).0.events
        ≡ (reconcile_license env gw s).0.events
  unfolding reconcile_license
  reconcile_license_steady s = by_edition_steady gw.edition (read_license env gw) s
