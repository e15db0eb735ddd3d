-- ===== src/License/Tests.antt =====
-- Runs of the licence stage, and each theorem at a concrete input.
use kraken_d_operator.Base.{
  ◌≡◌, ◌≢◌, ◌*◌, refl, String, true, false, arith, none, some, List, [], ◌∷◌,
}
use kraken_d_operator.Base.Int.{ℤ, pos, ◌+ℤ◌, ◌-ℤ◌, ◌≤ℤ◌, ◌<ℤ◌}
use kraken_d_operator.Base.Results.{Result, ok, err}
use kraken_d_operator.Status.{cond_true, license_degraded}
use kraken_d_operator.Status.ListApi.{list_api}
use kraken_d_operator.License.Window.{
  Window, valid, expiring_soon, pre_expiry, expired, stage_at, next_change, time_sub,
}
use kraken_d_operator.License.Window.Stages.{
  IsWellFormed, stage_at-before_next_change, stage_at-next_change,
}
use kraken_d_operator.License.Reconcile.{
  Env, Gateway, ee, LicenseConfig, PassState, read_license, reconcile_license, second,
  license_secret, next_license_check, license_recheck_interval, window_of,
}
use kraken_d_operator.License.Reconcile.Fallback.{ce_fallback-eq-degraded}
use kraken_d_operator.License.Reconcile.Steady.{reconcile_license_steady}
use kraken_d_operator.License.Reconcile.Schedule.{
  stage_at-until_next_check, requeue_after_bounds, window_of_overflow,
}
use kraken_d_operator.License.Reconcile.Outcome.{
  IsJudged, reconcile_license-readable, IsHeld, reconcile_license-unreadable,
}

abbrev window : Window
window = record { warning = pos 1000; safety_buffer = pos 100 }

window-IsWellFormed : IsWellFormed window
window-IsWellFormed = record { buffer_nonneg = omega arith; buffer_lt_warning = omega arith }

stages :
    (stage_at window (pos 5000) (pos 10) ≡ valid)
    × (stage_at window (pos 5000) (pos 4000) ≡ expiring_soon)
    × (stage_at window (pos 5000) (pos 4900) ≡ pre_expiry)
    × (stage_at window (pos 5000) (pos 5000) ≡ expired)
    × (next_change window (pos 5000) (pos 10) ≡ pos 3990)
unfolding stage_at next_change time_sub ◌+ℤ◌ ◌-ℤ◌
stages = (refl, refl, refl, refl, refl)

before_example : stage_at window (pos 5000) (pos 3999) ≡ stage_at window (pos 5000) (pos 10)
unfolding next_change time_sub ◌+ℤ◌ ◌-ℤ◌
before_example =
    stage_at-before_next_change window (pos 5000) (pos 10) (pos 3999) window-IsWellFormed
      (omega arith) (omega arith)

not_expired : stage_at window (pos 5000) (pos 10) ≢ expired
unfolding stage_at ◌+ℤ◌
not_expired h = cc

next_change_example :
    stage_at window (pos 5000) (pos 10 +ℤ next_change window (pos 5000) (pos 10))
    ≢ stage_at window (pos 5000) (pos 10)
unfolding ◌-ℤ◌
next_change_example =
    stage_at-next_change window (pos 5000) (pos 10) window-IsWellFormed (omega arith) not_expired

until_example : stage_at window (pos 5000) (pos 4050) ≡ stage_at window (pos 5000) (pos 4000)
unfolding next_license_check next_change time_sub ◌+ℤ◌ ◌-ℤ◌
until_example =
    stage_at-until_next_check window (pos 5000) (pos 4000) (pos 4050) window-IsWellFormed
      (omega arith) (omega arith)

-- A gateway whose licence bytes are the name of the Secret, and expire at one hour and ten seconds.
abbrev env_at : ℤ → Result (List (String × String)) → Env
env_at now secret = record {
  api = list_api;
  get_secret = λ name namespace. secret;
  parse_license = λ bytes. ok (pos (3610 * second));
  sha256_hex = λ bytes. bytes;
  format_time = λ t. "soon";
  crd_available = ok true;
  now = now;
}

abbrev config : ℤ → LicenseConfig
config days = record {
  external_secret_enabled = false;
  secret_ref = some (record { name = "lic"; key = "" });
  fallback_to_ce = true;
  expiry_warning_days = days;
}

abbrev gateway : ℤ → Gateway
gateway days = record {
  name = "gw";
  namespace = "ns";
  generation = 3;
  edition = ee;
  license = some (config days);
}

abbrev fresh : PassState
fresh = record { conditions = []; license_expiry = none; events = []; expiry_metric = none }

abbrev secret : Result (List (String × String))
secret = ok (("LICENSE", "bytes") ∷ [])

abbrev late : Env
late = env_at (pos (60 * second)) secret

abbrev unread : Env
unread = env_at (pos (60 * second)) (err "not found")

late_read : read_license late (gateway (pos 0)) ≡ ok ("bytes", pos (3610 * second))
unfolding read_license license_secret
late_read = refl

unread_read : read_license unread (gateway (pos 0)) ≡ err "not found"
unfolding read_license license_secret
unread_read = refl

ce_fallback-eq-degraded_example :
    (reconcile_license late (gateway (pos 0)) fresh).1.ce_fallback
    ≡ cond_true (
        list_api.find_status_condition
          (reconcile_license late (gateway (pos 0)) fresh).0.conditions
          license_degraded)
ce_fallback-eq-degraded_example = ce_fallback-eq-degraded late (gateway (pos 0)) fresh

steady_example :
    (reconcile_license late
      (gateway (pos 0))
      (reconcile_license late (gateway (pos 0)) fresh).0).0.events
    ≡ (reconcile_license late (gateway (pos 0)) fresh).0.events
steady_example = reconcile_license_steady late (gateway (pos 0)) fresh

requeue_after_bounds_example :
    (pos 0 <ℤ (reconcile_license late (gateway (pos 0)) fresh).1.requeue_after)
    × ((reconcile_license late (gateway (pos 0)) fresh).1.requeue_after ≤ℤ license_recheck_interval)
requeue_after_bounds_example = requeue_after_bounds late (gateway (pos 0)) fresh refl

window_of_overflow_example :
    ((window_of late (gateway (pos 150000))).warning <ℤ pos 0)
    × (¬ IsWellFormed (window_of late (gateway (pos 150000))))
window_of_overflow_example =
    window_of_overflow late (gateway (pos 150000)) (omega arith) (omega arith)

readable_example :
    IsJudged late
      (gateway (pos 0))
      (stage_at (window_of late (gateway (pos 0))) (pos (3610 * second)) late.now)
      "bytes"
      (pos (3610 * second))
      (reconcile_license late (gateway (pos 0)) fresh)
readable_example =
    reconcile_license-readable late (gateway (pos 0)) "bytes" (pos (3610 * second)) fresh refl
      late_read

unreadable_example :
    IsHeld unread (gateway (pos 0)) fresh (reconcile_license unread (gateway (pos 0)) fresh)
unreadable_example =
    reconcile_license-unreadable unread (gateway (pos 0)) "not found" fresh refl unread_read
