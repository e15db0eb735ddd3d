-- ===== src/License/Reconcile/Fallback.antt =====
-- The CE fallback of a pass and its conditions.
use kraken_d_operator.Base.{refl, sym, Option, String, ◌≡◌, Bool, true, false, arith, none, some}
use kraken_d_operator.Base.Int.{ℤ}
use kraken_d_operator.Base.Results.{Result, ok, err}
use kraken_d_operator.Status.{find-delete_func, cond_true, license_degraded}
use kraken_d_operator.License.Window.{Window, Stage, valid, expiring_soon, pre_expiry, expired}
use kraken_d_operator.License.Reconcile.{
  Env, Gateway, PassState, recover_license, expire_license, judge_known, by_edition, Edition, ce,
  ee, reconcile_unreadable_license, reconcile_read_license, read_license, window_of,
  by_known_expiry, forget_license, is_license_type, apply_license_stage, reconcile_license,
}

module _ (env : Env) (gw : Gateway) where
  open env.api use {find_status_condition, find-set, is_true_lem}

  recover_license-degraded :
      (s : PassState)
      → cond_true (find_status_condition (recover_license env gw s).conditions license_degraded)
        ≡ false
  unfolding recover_license
  recover_license-degraded s = grind (arith, find-set, is_true_lem)

  expire_license-degraded :
      (s : PassState) (reason message : String) (fallback : Bool)
      → cond_true (
          find_status_condition
            (expire_license env gw reason message fallback s).conditions
            license_degraded)
        ≡ fallback
  unfolding expire_license
  expire_license-degraded s reason message true = grind (arith, find-set, is_true_lem)
  expire_license-degraded s reason message false = grind (arith, find-set, is_true_lem)

  apply_license_stage-degraded :
      (stage : Stage) (not_after : ℤ) (s : PassState)
      → cond_true (
          find_status_condition
            (apply_license_stage env gw stage not_after s).0.conditions
            license_degraded)
        ≡ (apply_license_stage env gw stage not_after s).1
  unfolding apply_license_stage
  apply_license_stage-degraded valid e s = grind (arith, find-set, recover_license-degraded)
  apply_license_stage-degraded expiring_soon e s = grind (arith, find-set, recover_license-degraded)
  apply_license_stage-degraded pre_expiry e s = grind (arith, find-set, is_true_lem)
  apply_license_stage-degraded expired e s = grind (arith, find-set, is_true_lem)

  judge_known-degraded :
      (past recorded : Bool) (stage : Stage) (known : ℤ) (e : String) (s : PassState)
      → recorded ≡ cond_true (find_status_condition s.conditions license_degraded)
      → (judge_known env gw past stage known recorded e s).1
        ≡ cond_true (
            find_status_condition
              (judge_known env gw past stage known recorded e s).0.conditions
              license_degraded)
  unfolding judge_known
  judge_known-degraded true recorded stage known e s h =
      sym (apply_license_stage-degraded stage known s)
  judge_known-degraded false recorded stage known e s h = grind (arith, find-set)

  by_known_expiry-degraded :
      (known : Option ℤ) (recorded : Bool) (e : String) (w : Window) (s : PassState)
      → recorded ≡ cond_true (find_status_condition s.conditions license_degraded)
      → (by_known_expiry env gw known recorded e w s).1.ce_fallback
        ≡ cond_true (
            find_status_condition
              (by_known_expiry env gw known recorded e w s).0.conditions
              license_degraded)
  unfolding by_known_expiry
  by_known_expiry-degraded none recorded e w s h = grind (arith, find-set)
  by_known_expiry-degraded (some known) recorded e w s h =
      judge_known-degraded _ recorded _ known e (record s { expiry_metric = _ }) h

  find-forget_license :
      (s : PassState) (t : String)
      → is_license_type t ≡ true
      → find_status_condition (forget_license env gw s).conditions t ≡ none
  unfolding forget_license
  find-forget_license s t h = find-delete_func env.api is_license_type s.conditions t h

  unreadable-degraded :
      (e : String) (w : Window) (s : PassState)
      → (reconcile_unreadable_license env gw e w s).1.ce_fallback
        ≡ cond_true (
            find_status_condition
              (reconcile_unreadable_license env gw e w s).0.conditions
              license_degraded)
  unfolding reconcile_unreadable_license
  unreadable-degraded e w s =
      by_known_expiry-degraded s.license_expiry _ e w _ (is_true_lem _ license_degraded)

  by_edition-degraded :
      (edition : Edition) (found : Result (String × ℤ)) (s : PassState)
      → (by_edition env gw edition found s).1.ce_fallback
        ≡ cond_true (
            find_status_condition (by_edition env gw edition found s).0.conditions license_degraded)
  unfolding by_edition reconcile_read_license
  by_edition-degraded ce found s = rw (find-forget_license s license_degraded refl)
  by_edition-degraded ee (err e) s = unreadable-degraded e (window_of env gw) s
  by_edition-degraded ee (ok (checksum, e)) s = sym (apply_license_stage-degraded _ e _)

  -- After a pass, whatever the edition and whether or not the licence could be read, the gateway
  -- falls back to CE exactly if its LicenseDegraded condition is True.
  pub ce_fallback-eq-degraded :
      (s : PassState)
      → (reconcile_license env gw s).1.ce_fallback
        ≡ cond_true
            (find_status_condition (reconcile_license env gw s).0.conditions license_degraded)
  unfolding reconcile_license
  ce_fallback-eq-degraded s = by_edition-degraded gw.edition (read_license env gw) s
