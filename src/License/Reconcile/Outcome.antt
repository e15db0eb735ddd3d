-- ===== src/License/Reconcile/Outcome.antt =====
-- What a pass decides and writes, with a readable and with an unreadable licence.
use kraken_d_operator.Base.{
  ◌≡◌, refl, ◌∙◌, String, Bool, true, false, arith, Option, none, some, if◌then◌else◌, ◌&&◌,
}
use kraken_d_operator.Base.Int.{ℤ}
use kraken_d_operator.Base.Results.{Result, ok, err}
use kraken_d_operator.Status.{
  Condition, ConditionStatus, is_true, is_false, unknown, cond_true, license_valid,
  license_degraded, license_expired,
}
use kraken_d_operator.License.Window.{Stage, valid, expiring_soon, pre_expiry, expired, stage_at}
use kraken_d_operator.License.Reconcile.{
  Env, Gateway, Edition, ce, ee, PassState, falls_back, is_past_buffer, recover_license,
  warn_expiring, expire_license, apply_license_stage, judge_known, by_known_expiry, by_edition,
  window_of, reconcile_unreadable_license, reconcile_read_license, read_license, reconcile_license,
  unreadable_condition, set_problem_condition, checksum_for, LicenseVerdict,
}
use kraken_d_operator.License.Reconcile.Settled.{license_expiry-apply_license_stage}
use kraken_d_operator.License.Reconcile.Steady.{
  type-unreadable_condition, conditions-set_problem_condition, license_expiry-set_problem_condition,
  license_expiry-by_known_expiry,
}

abbrev status_of : Option Condition → ConditionStatus
status_of none = unknown
status_of (some c) = c.status

-- The status of LicenseValid in each stage.
abbrev pub validity : Stage → ConditionStatus
validity valid = is_true
validity expiring_soon = is_true
validity _ = is_false

module _ (env : Env) (gw : Gateway) where
  open env.api use {find_status_condition, find-set, is_true_lem}

  expire_license-valid :
      (reason message : String) (fallback : Bool) (s : PassState)
      → (status_of (
            find_status_condition
              (expire_license env gw reason message fallback s).conditions
              license_valid)
          ≡ is_false)
        × (cond_true (
              find_status_condition
                (expire_license env gw reason message fallback s).conditions
                license_expired)
            ≡ true)
  unfolding expire_license set_problem_condition
  expire_license-valid reason message true s = (grind (arith, find-set), grind (arith, find-set))
  expire_license-valid reason message false s = (grind (arith, find-set), grind (arith, find-set))

  apply_license_stage-valid :
      (stage : Stage) (e : ℤ) (s : PassState)
      → (status_of (
            find_status_condition (apply_license_stage env gw stage e s).0.conditions license_valid)
          ≡ validity stage)
        × (cond_true (
              find_status_condition
                (apply_license_stage env gw stage e s).0.conditions
                license_expired)
            ≡ is_past_buffer stage)
  unfolding apply_license_stage recover_license warn_expiring
  apply_license_stage-valid valid e s =
      (grind (arith, find-set, is_true_lem), grind (arith, find-set, is_true_lem))
  apply_license_stage-valid expiring_soon e s =
      (grind (arith, find-set, is_true_lem), grind (arith, find-set, is_true_lem))
  apply_license_stage-valid pre_expiry e s = expire_license-valid _ _ (falls_back gw) s
  apply_license_stage-valid expired e s = expire_license-valid _ _ (falls_back gw) s

  apply_license_stage-fallback :
      (stage : Stage) (e : ℤ) (s : PassState)
      → (apply_license_stage env gw stage e s).1 ≡ (is_past_buffer stage && falls_back gw)
  unfolding apply_license_stage
  apply_license_stage-fallback valid e s = refl
  apply_license_stage-fallback expiring_soon e s = refl
  apply_license_stage-fallback pre_expiry e s = refl
  apply_license_stage-fallback expired e s = refl

  -- What a pass leaves when it read a licence that is in `stage`.
  pub record IsJudged (stage : Stage) (checksum : String) (not_after : ℤ)
      (r : PassState × LicenseVerdict) : Type 0 where
    pub license_valid_status :
        status_of (find_status_condition r.0.conditions license_valid) ≡ validity stage
    pub license_expired_status :
        cond_true (find_status_condition r.0.conditions license_expired) ≡ is_past_buffer stage
    pub fallback : r.1.ce_fallback ≡ (is_past_buffer stage && falls_back gw)
    pub mounted : (deployed : String) → checksum_for r.1 deployed ≡ checksum
    pub expiry : r.0.license_expiry ≡ some not_after

  by_edition-IsJudged :
      (edition : Edition) (found : Result (String × ℤ)) (checksum : String) (e : ℤ) (s : PassState)
      → edition ≡ ee
      → found ≡ ok (checksum, e)
      → IsJudged
          (stage_at (window_of env gw) e env.now)
          checksum
          e
          (by_edition env gw edition found s)
  unfolding by_edition reconcile_read_license checksum_for
  by_edition-IsJudged ce found checksum e s h k = cc
  by_edition-IsJudged ee (err m) checksum e s h k = cc
  by_edition-IsJudged ee (ok (c, x)) checksum e s h k =
      let same_c : c ≡ checksum = cc in
      let same_e : x ≡ e = cc in
      rw (← same_c, ← same_e)
        (record {
          license_valid_status = (apply_license_stage-valid _ x _).0;
          license_expired_status = (apply_license_stage-valid _ x _).1;
          fallback = apply_license_stage-fallback _ x _;
          mounted = λ deployed. refl;
          expiry = license_expiry-apply_license_stage env gw _ x _;
        })

  -- An EE gateway whose licence could be read: LicenseValid has the status of the stage at the
  -- clock, LicenseExpired is True exactly inside the safety buffer or past the expiry, the gateway
  -- falls back to CE exactly then and if the spec allows it, the Deployment carries the checksum
  -- that was read, and the status has the expiry that was read.
  pub reconcile_license-readable :
      (checksum : String) (not_after : ℤ) (s : PassState)
      → gw.edition ≡ ee
      → read_license env gw ≡ ok (checksum, not_after)
      → IsJudged
          (stage_at (window_of env gw) not_after env.now)
          checksum
          not_after
          (reconcile_license env gw s)
  unfolding reconcile_license
  reconcile_license-readable checksum e s h k =
      by_edition-IsJudged gw.edition (read_license env gw) checksum e s h k

  -- Whether the last known expiry is inside the safety buffer or past.
  abbrev pub known_past : Option ℤ → Bool
  known_past none = false
  known_past (some known) = is_past_buffer (stage_at (window_of env gw) known env.now)

  -- What a pass that could not read the licence decides, from the state it began in.
  pub record IsHeld (s : PassState) (r : PassState × LicenseVerdict) : Type 0 where
    pub fallback : r.1.ce_fallback ≡ (
        if known_past s.license_expiry
        then falls_back gw
        else cond_true (find_status_condition s.conditions license_degraded))
    pub mounted : (deployed : String) → checksum_for r.1 deployed ≡ deployed
    pub expiry : r.0.license_expiry ≡ s.license_expiry

  judge_known-fallback :
      (past recorded : Bool) (stage : Stage) (known : ℤ) (m : String) (s : PassState)
      → is_past_buffer stage ≡ past
      → (judge_known env gw past stage known recorded m s).1
        ≡ (if past then falls_back gw else recorded)
  unfolding judge_known
  judge_known-fallback true recorded stage known m s h = rw apply_license_stage-fallback (rw h)
  judge_known-fallback false recorded stage known m s h = refl

  by_known_expiry-fallback :
      (known : Option ℤ) (recorded : Bool) (m : String) (s : PassState)
      → ((by_known_expiry env gw known recorded m (window_of env gw) s).1.ce_fallback
          ≡ (if known_past known then falls_back gw else recorded))
        × ((by_known_expiry env gw known recorded m (window_of env gw) s).1.keep_deployed_license
            ≡ true)
  unfolding by_known_expiry
  by_known_expiry-fallback none recorded m s = (refl, refl)
  by_known_expiry-fallback (some known) recorded m s =
      (judge_known-fallback _ recorded _ known m _ refl, refl)

  reported-degraded :
      (m : String) (s : PassState)
      → env.api.is_status_condition_true
          (set_problem_condition env gw (unreadable_condition env gw m) s).conditions
          license_degraded
        ≡ cond_true (find_status_condition s.conditions license_degraded)
  reported-degraded m s =
      is_true_lem _ license_degraded
      ∙ simp (conditions-set_problem_condition env gw, find-set, type-unreadable_condition env gw)

  unreadable-IsHeld :
      (m : String) (s : PassState)
      → IsHeld s (reconcile_unreadable_license env gw m (window_of env gw) s)
  unfolding reconcile_unreadable_license checksum_for
  unreadable-IsHeld m s =
      let (fallback, keep) = by_known_expiry-fallback s.license_expiry _ m _ in
      record {
        fallback = rw (← reported-degraded m s) fallback;
        mounted = λ deployed. rw keep;
        expiry =
            license_expiry-by_known_expiry env gw s.license_expiry _ m _ _
            ∙ license_expiry-set_problem_condition env gw _ s;
      }

  by_edition-IsHeld :
      (edition : Edition) (found : Result (String × ℤ)) (m : String) (s : PassState)
      → edition ≡ ee
      → found ≡ err m
      → IsHeld s (by_edition env gw edition found s)
  unfolding by_edition
  by_edition-IsHeld ce found m s h k = cc
  by_edition-IsHeld ee (ok x) m s h k = cc
  by_edition-IsHeld ee (err x) m s h k = unreadable-IsHeld x s

  -- An EE gateway whose licence could not be read keeps the checksum that its Deployment carries
  -- and the expiry that it knew. It keeps its recorded fallback decision, unless the known expiry
  -- is inside the safety buffer or past: then the spec alone decides.
  pub reconcile_license-unreadable :
      (m : String) (s : PassState)
      → gw.edition ≡ ee
      → read_license env gw ≡ err m
      → IsHeld s (reconcile_license env gw s)
  unfolding reconcile_license
  reconcile_license-unreadable m s h k = by_edition-IsHeld gw.edition (read_license env gw) m s h k
