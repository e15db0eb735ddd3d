-- ===== src/License/Reconcile/Settled.antt =====
-- What applying a stage leaves in the conditions, and what applying it again records.
use kraken_d_operator.Base.{
  eq_refl, ◌&&◌, ◌==◌, refl, String, ◌≡◌, Bool, true, false, arith, Option, none, some, List,
}
use kraken_d_operator.Base.Int.{ℤ}
use kraken_d_operator.Status.{
  Condition, cond_true, license_valid, license_degraded, license_expired,
  license_secret_unavailable, status_is_true,
}
use kraken_d_operator.License.Window.{Stage, valid, expiring_soon, pre_expiry, expired}
use kraken_d_operator.License.Reconcile.{
  Env, Gateway, PassState, falls_back, recover_license, warn_expiring, expire_license,
  apply_license_stage, is_expiring_soon, set_problem_condition,
}

-- a problem condition that is True for this reason
abbrev pub is_reported : String → Option Condition → Bool
is_reported reason none = false
is_reported reason (some c) = status_is_true c.status && c.reason == reason

module _ (env : Env) (gw : Gateway) where
  open env.api use {find_status_condition, find-set, is_true_lem}

  pub set_problem_condition-is_reported :
      (c : Condition) (s : PassState)
      → status_is_true c.status ≡ true
      → is_reported c.reason
          (find_status_condition (set_problem_condition env gw c s).conditions c.type)
        ≡ true
  unfolding set_problem_condition
  set_problem_condition-is_reported c s h =
      ground (arith, find-set s.conditions c c.type, eq_refl c.type, eq_refl c.reason)

  pub set_problem_condition_idle :
      (c : Condition) (s : PassState)
      → is_reported c.reason (find_status_condition s.conditions c.type) ≡ true
      → (set_problem_condition env gw c s).events ≡ s.events
  unfolding set_problem_condition
  set_problem_condition_idle c s h = ground (arith, h)

  abbrev pub FallbackSettled : Bool → List Condition → Type 0
  FallbackSettled true cs =
      is_reported "LicenseFallbackCE" (find_status_condition cs license_degraded) ≡ true
  FallbackSettled false cs =
      (cond_true (find_status_condition cs license_expired) ≡ true)
      × (cond_true (find_status_condition cs license_degraded) ≡ false)

  abbrev pub Recovered : List Condition → Type 0
  Recovered cs =
      (cond_true (find_status_condition cs license_expired) ≡ false)
      × (cond_true (find_status_condition cs license_degraded) ≡ false)

  -- What the conditions show once a stage has been applied.
  abbrev pub Settled : Stage → List Condition → Type 0
  Settled valid cs = Recovered cs
  Settled expiring_soon cs =
      Recovered cs × (is_expiring_soon (find_status_condition cs license_valid) ≡ true)
  Settled _ cs = FallbackSettled (falls_back gw) cs

  recover_license-Recovered : (s : PassState) → Recovered (recover_license env gw s).conditions
  unfolding recover_license
  recover_license-Recovered s =
      (grind (arith, find-set, is_true_lem), grind (arith, find-set, is_true_lem))

  pub recover_license_idle : (s : PassState) → Recovered s.conditions → recover_license env gw s ≡ s
  unfolding recover_license
  recover_license_idle s (p, q) =
      ground
        (arith, is_true_lem s.conditions license_expired, is_true_lem s.conditions license_degraded)

  expire_license-FallbackSettled :
      (reason message : String) (fallback : Bool) (s : PassState)
      → FallbackSettled fallback (expire_license env gw reason message fallback s).conditions
  unfolding expire_license set_problem_condition
  expire_license-FallbackSettled reason message true s = set_problem_condition-is_reported _ _ refl
  expire_license-FallbackSettled reason message false s =
      (grind (arith, find-set, is_true_lem), grind (arith, find-set, is_true_lem))

  pub expire_license_idle :
      (reason message : String) (fallback : Bool) (s : PassState)
      → FallbackSettled fallback s.conditions
      → (expire_license env gw reason message fallback s).events ≡ s.events
  unfolding expire_license
  expire_license_idle reason message true s h = set_problem_condition_idle _ _ (simp find-set h)
  expire_license_idle reason message false s (p, q) = grind (arith, find-set, is_true_lem)

  conditions-warn_expiring :
      (b : Bool) (m : String) (s : PassState)
      → (warn_expiring env gw b m s).conditions ≡ s.conditions
  unfolding warn_expiring
  conditions-warn_expiring true m s = refl
  conditions-warn_expiring false m s = refl

  pub apply_license_stage-Settled :
      (stage : Stage) (e : ℤ) (s : PassState)
      → Settled stage (apply_license_stage env gw stage e s).0.conditions
  unfolding apply_license_stage
  apply_license_stage-Settled valid e s = simp find-set (recover_license-Recovered s)
  apply_license_stage-Settled expiring_soon e s =
      simp (conditions-warn_expiring, find-set) (recover_license-Recovered s, refl)
  apply_license_stage-Settled pre_expiry e s = expire_license-FallbackSettled _ _ (falls_back gw) s
  apply_license_stage-Settled expired e s = expire_license-FallbackSettled _ _ (falls_back gw) s

  pub apply_license_stage_idle :
      (stage : Stage) (e : ℤ) (s : PassState)
      → Settled stage s.conditions
      → (apply_license_stage env gw stage e s).0.events ≡ s.events
  unfolding apply_license_stage
  apply_license_stage_idle valid e s h = rw (recover_license_idle s h)
  apply_license_stage_idle expiring_soon e s (h, k) = rw (recover_license_idle s h, k)
  apply_license_stage_idle pre_expiry e s h = expire_license_idle _ _ (falls_back gw) s h
  apply_license_stage_idle expired e s h = expire_license_idle _ _ (falls_back gw) s h

  pub expire_license-unavailable :
      (reason message : String) (fallback : Bool) (s : PassState)
      → find_status_condition
          (expire_license env gw reason message fallback s).conditions
          license_secret_unavailable
        ≡ find_status_condition s.conditions license_secret_unavailable
  unfolding expire_license set_problem_condition
  expire_license-unavailable reason message true s = grind (arith, find-set)
  expire_license-unavailable reason message false s = grind (arith, find-set)

  license_expiry-expire_license :
      (reason message : String) (fallback : Bool) (s : PassState)
      → (expire_license env gw reason message fallback s).license_expiry ≡ s.license_expiry
  unfolding expire_license set_problem_condition
  license_expiry-expire_license reason message true s = ground arith
  license_expiry-expire_license reason message false s = ground arith

  pub license_expiry-apply_license_stage :
      (stage : Stage) (e : ℤ) (s : PassState)
      → (apply_license_stage env gw stage e s).0.license_expiry ≡ s.license_expiry
  unfolding apply_license_stage recover_license warn_expiring
  license_expiry-apply_license_stage valid e s = ground arith
  license_expiry-apply_license_stage expiring_soon e s = ground arith
  license_expiry-apply_license_stage pre_expiry e s = license_expiry-expire_license _ _ _ s
  license_expiry-apply_license_stage expired e s = license_expiry-expire_license _ _ _ s

  pub apply_license_stage-unavailable :
      (stage : Stage) (e : ℤ) (s : PassState)
      → find_status_condition
          (apply_license_stage env gw stage e s).0.conditions
          license_secret_unavailable
        ≡ find_status_condition s.conditions license_secret_unavailable
  unfolding apply_license_stage recover_license warn_expiring
  apply_license_stage-unavailable valid e s = grind (arith, find-set)
  apply_license_stage-unavailable expiring_soon e s = grind (arith, find-set)
  apply_license_stage-unavailable pre_expiry e s = expire_license-unavailable _ _ _ s
  apply_license_stage-unavailable expired e s = expire_license-unavailable _ _ _ s

  pub FallbackSettled-set :
      (fallback : Bool) (cs : List Condition) (c : Condition)
      → c.type ≡ license_secret_unavailable
      → FallbackSettled fallback cs
      → FallbackSettled fallback (env.api.set_status_condition cs c)
  FallbackSettled-set true cs c e h = simp (find-set, e) h
  FallbackSettled-set false cs c e h = simp (find-set, e) h

  pub Settled-set :
      (stage : Stage) (cs : List Condition) (c : Condition)
      → c.type ≡ license_secret_unavailable
      → Settled stage cs
      → Settled stage (env.api.set_status_condition cs c)
  Settled-set valid cs c e h = simp (find-set, e) h
  Settled-set expiring_soon cs c e h = simp (find-set, e) h
  Settled-set pre_expiry cs c e h = FallbackSettled-set (falls_back gw) cs c e h
  Settled-set expired cs c e h = FallbackSettled-set (falls_back gw) cs c e h
