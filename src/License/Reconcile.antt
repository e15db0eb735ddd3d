-- ===== src/License/Reconcile.antt =====
-- The licence stage of operator/internal/controller/gateway_license.go, with
-- operator/internal/resources/license.go and `setProblemCondition` of gateway_events.go. A pass
-- returns the new state. The Secret, the certificate parser, the hash, the clock and the printing
-- of times are the environment's.
pub mod Fallback
mod Settled
pub mod Steady
pub mod Schedule
pub mod Outcome
use Prim.Native.String
use kraken_d_operator.Base.{
  ℕ, ◌*◌, ◌%◌, ◌^◌, ◌-◌, suc, String, Bool, true, false, not, Option, none, some, List, [], ◌∷◌,
  ◌++◌, ◌&&◌, ◌||◌, ◌==◌, if◌then◌else◌, ltb, delete_func,
}
use kraken_d_operator.Base.Int.{ℤ, pos, negsuc, ltb_ℤ, sub_ℕ, pos_part}
use kraken_d_operator.Base.Maps.{lookup, string_eq}
use kraken_d_operator.Base.Results.{Result, ok, err, ◌>>=◌}
use kraken_d_operator.Status.{
  Condition, ConditionStatus, is_true, is_false, unknown, ConditionApi, Event, EventType, normal,
  warning, license_valid, license_degraded, license_expired, license_secret_unavailable,
  is_new_problem, status_is_true,
}
use kraken_d_operator.License.Window.{
  Window, Stage, valid, expiring_soon, pre_expiry, expired, time_sub, stage_at, next_change,
}

pub data Edition : Type 0 where
  ce ee : Edition

pub record SecretKeySelector : Type 0 where
  pub name : String
  pub key : String

-- The fields of `LicenseConfig` that the stage reads.
pub record LicenseConfig : Type 0 where
  pub external_secret_enabled : Bool
  pub secret_ref : Option SecretKeySelector
  pub fallback_to_ce : Bool
  pub expiry_warning_days : ℤ

pub record Gateway : Type 0 where
  pub name : String
  pub namespace : String
  pub generation : ℕ
  pub edition : Edition
  pub license : Option LicenseConfig

-- What a pass reads and writes: the conditions and the expiry of the gateway's status, the events
-- that the recorder was given, and the series of the expiry metric.
pub record PassState : Type 0 where
  pub conditions : List Condition
  pub license_expiry : Option ℤ
  pub events : List Event
  pub expiry_metric : Option ℤ

pub record Env : Type 0 where
  pub api : ConditionApi
  pub get_secret : String → String → Result (List (String × String))
  pub parse_license : String → Result ℤ
  pub sha256_hex : String → String
  pub format_time : ℤ → String
  pub crd_available : Result Bool
  pub now : ℤ

pub record LicenseVerdict : Type 0 where
  pub ce_fallback : Bool
  pub requeue_after : ℤ
  pub license_checksum : String
  pub keep_deployed_license : Bool

pub checksum_for : LicenseVerdict → String → String
checksum_for v deployed = if v.keep_deployed_license then deployed else v.license_checksum

-- Durations in nanoseconds.
abbrev pub second : ℕ
second = 1000000000

abbrev pub license_recheck_interval : ℤ
license_recheck_interval = pos (300 * second)

abbrev pub license_safety_buffer : ℤ
license_safety_buffer = pos (3600 * second)

-- `time.Duration(days) * 24 * time.Hour`: both products are of `int64`, and wrap
abbrev pub wrap64 : ℕ → ℤ
wrap64 n = if ltb (n % 2 ^ 64) (2 ^ 63) then pos (n % 2 ^ 64) else negsuc (2 ^ 64 - n % 2 ^ 64 - 1)

abbrev pub warning_days : Option LicenseConfig → ℤ
warning_days none = pos 30
warning_days (some l) =
    if ltb_ℤ (pos 0) l.expiry_warning_days then l.expiry_warning_days else pos 30

-- the number of days is positive, so its positive part is all of it
unfoldable pub expiry_warning : Gateway → ℤ
expiry_warning gw = wrap64 (pos_part (warning_days gw.license) * 24 * (3600 * second))

unfoldable pub next_license_check : Window → ℤ → ℤ → ℤ
next_license_check w not_after now =
    let d = next_change w not_after now in
    if ltb_ℤ (pos 0) d && ltb_ℤ d license_recheck_interval then d else license_recheck_interval

abbrev pub license_key : String
license_key = "LICENSE"

abbrev pub key_or_default : String → String
key_or_default key = if key == "" then license_key else key

abbrev pub secret_of : Gateway → LicenseConfig → Option SecretKeySelector → Option (String × String)
secret_of gw lic (some ref) =
    if ref.name == "" then none else some (ref.name, key_or_default ref.key)
secret_of gw lic none =
    if lic.external_secret_enabled then some (String.◌++◌ gw.name "-license", license_key) else none

-- `ok = false` is `none`
unfoldable pub license_secret : Gateway → Option (String × String)
license_secret gw = elim gw.license [ none ↦ none | some lic ↦ secret_of gw lic lic.secret_ref ]

abbrev pub falls_back : Gateway → Bool
falls_back gw = elim gw.license [ none ↦ false | some lic ↦ lic.fallback_to_ce ]

abbrev pub uses_external_secret : Gateway → Bool
uses_external_secret gw = elim gw.license [ none ↦ false | some lic ↦ lic.external_secret_enabled ]

abbrev pub is_license_type : String → Bool
is_license_type t =
    t == license_valid
    || t == license_expired
    || t == license_degraded
    || t == license_secret_unavailable

-- `Recorder.Event`
abbrev with_event : EventType → String → String → PassState → PassState
with_event kind reason message s = record s {
  events = s.events ++ record { event_type = kind; reason = reason; message = message } ∷ [];
}

abbrev pub condition : Gateway → String → ConditionStatus → String → String → Condition
condition gw type status reason message = record {
  type = type;
  status = status;
  observed_generation = gw.generation;
  reason = reason;
  message = message;
}

abbrev pub is_expiring_soon : Option Condition → Bool
is_expiring_soon none = false
is_expiring_soon (some c) = c.reason == "LicenseExpiringSoon"

abbrev pub is_past_buffer : Stage → Bool
is_past_buffer pre_expiry = true
is_past_buffer expired = true
is_past_buffer _ = false

abbrev no_fallback_message : String
no_fallback_message = "license expired and fallbackToCE is not enabled"

module _ (env : Env) (gw : Gateway) where
  open env.api use {find_status_condition, set_status_condition, is_status_condition_true}

  -- `meta.SetStatusCondition` on the gateway
  abbrev pub set_condition : Condition → PassState → PassState
  set_condition c s = record s { conditions = set_status_condition s.conditions c }

  pub set_problem_condition : Condition → PassState → PassState
  set_problem_condition c s =
      let t = set_condition c s in
      if is_new_problem (find_status_condition s.conditions c.type) c
      then with_event warning c.reason c.message t
      else t

  abbrev pub set_license_valid : ConditionStatus → String → String → PassState → PassState
  set_license_valid status reason message =
      set_condition (condition gw license_valid status reason message)

  abbrev restored : String → Condition
  restored type = condition gw type is_false "LicenseRestored" "license is now valid"

  pub recover_license : PassState → PassState
  recover_license s =
      if not (is_status_condition_true s.conditions license_expired)
        && not (is_status_condition_true s.conditions license_degraded)
      then s
      else with_event normal "LicenseRestored" "license restored, recovering from degraded state"
          (set_condition (restored license_expired) (set_condition (restored license_degraded) s))

  -- the `switch` of `expireLicense`, with what it read before the first write
  fall_back_or_warn : Bool → Bool → Bool → PassState → PassState
  unfolding set_problem_condition
  fall_back_or_warn true was_expired was_falling_back s =
      set_problem_condition
        (condition gw license_degraded is_true "LicenseFallbackCE"
          "license expired, falling back to CE edition")
        s
  fall_back_or_warn false was_expired was_falling_back s =
      if not was_expired || was_falling_back
      then with_event warning "LicenseExpiredNoFallback" no_fallback_message s
      else s

  clear_degraded : Bool → PassState → PassState
  clear_degraded true s = s
  clear_degraded false s = elim (find_status_condition s.conditions license_degraded) [
    | none ↦ s
    | some _ ↦
        set_condition
          (condition gw license_degraded is_false "LicenseExpiredNoFallback" no_fallback_message) s
  ]

  pub expire_license : String → String → Bool → PassState → PassState
  unfolding fall_back_or_warn clear_degraded
  expire_license reason message fallback s =
      let was_expired = is_status_condition_true s.conditions license_expired in
      let was_falling_back = is_status_condition_true s.conditions license_degraded in
      let recorded =
        set_condition (condition gw license_expired is_true reason message)
          (set_license_valid is_false reason message s) in
      clear_degraded fallback (fall_back_or_warn fallback was_expired was_falling_back recorded)

  warn_expiring : Bool → String → PassState → PassState
  warn_expiring true message s = with_event warning "LicenseExpiringSoon" message s
  warn_expiring false message s = s

  -- returns whether the gateway must fall back to CE
  pub apply_license_stage : Stage → ℤ → PassState → PassState × Bool
  unfolding recover_license expire_license warn_expiring
  apply_license_stage valid not_after s = (
    set_license_valid is_true "LicenseOK"
        (String.◌++◌ "license valid until " (env.format_time not_after)) (recover_license s),
    false,
  )
  apply_license_stage expiring_soon not_after s =
      let recovered = recover_license s in
      let entering =
        not (is_expiring_soon (find_status_condition recovered.conditions license_valid)) in
      let message = String.◌++◌ "license expires at " (env.format_time not_after) in
      (
        warn_expiring entering message
            (set_license_valid is_true "LicenseExpiringSoon" message recovered),
        false,
      )
  apply_license_stage pre_expiry not_after s =
      let message =
        String.◌++◌ "license expires at "
          (String.◌++◌ (env.format_time not_after) ", inside the 1h0m0s safety buffer") in
      (expire_license "LicensePreExpiry" message (falls_back gw) s, falls_back gw)
  apply_license_stage expired not_after s =
      let message = String.◌++◌ "license certificate expired at " (env.format_time not_after) in
      (expire_license "LicenseExpired" message (falls_back gw) s, falls_back gw)

  abbrev secret_key : List (String × String) → String → Result String
  secret_key secret key = elim (lookup key secret) [
    | none ↦ err "license key not found in secret data"
    | some data' ↦ ok data'
  ]

  pub read_license_secret : Result String
  read_license_secret = elim (license_secret gw) [
    | none ↦ err "no license configuration found"
    | some (name, key) ↦ env.get_secret name gw.namespace >>= λ secret. secret_key secret key
  ]

  -- the checksum of the licence's bytes, and the `NotAfter` of its certificate
  unfoldable pub read_license : Result (String × ℤ)
  unfolding read_license_secret
  read_license = do
    bytes ← read_license_secret
    not_after ← env.parse_license bytes
    ok (env.sha256_hex bytes, not_after)

  external_secret_crd_missing : Bool
  external_secret_crd_missing = elim env.crd_available [
    | ok present ↦ uses_external_secret gw && not present
    | err _ ↦ false
  ]

  pub unreadable_condition : String → Condition
  unfolding external_secret_crd_missing
  unreadable_condition read_err =
      if external_secret_crd_missing
      then condition gw license_secret_unavailable is_true "CRDNotInstalled" (
          String.◌++◌
            "spec.license.externalSecret is enabled but the external-secrets.io ExternalSecret CRD is not installed, so Secret "
            (String.◌++◌ gw.name (String.◌++◌ "-license is never synced: " read_err)))
      else condition gw license_secret_unavailable is_true "LicenseSecretMissing" read_err

  -- the part of `reconcileUnreadableLicense` behind the test of the last known expiry
  judge_known : Bool → Stage → ℤ → Bool → String → PassState → PassState × Bool
  unfolding apply_license_stage
  judge_known true stage known recorded read_err s = apply_license_stage stage known s
  judge_known false stage known recorded read_err s =
      (set_license_valid unknown "LicenseSecretMissing" read_err s, recorded)

  abbrev verdict : Bool → ℤ → String → Bool → LicenseVerdict
  verdict ce_fallback requeue_after checksum keep = record {
    ce_fallback = ce_fallback;
    requeue_after = requeue_after;
    license_checksum = checksum;
    keep_deployed_license = keep;
  }

  -- behind the report of the unreadable Secret, by the last known expiry
  pub by_known_expiry : Option ℤ → Bool → String → Window → PassState → PassState × LicenseVerdict
  by_known_expiry none recorded read_err window s = (
    record (set_license_valid unknown "LicenseSecretMissing" read_err s) { expiry_metric = none },
    verdict recorded license_recheck_interval "" true,
  )
  by_known_expiry (some known) recorded read_err window s =
      let stage = stage_at window known env.now in
      let metered = record s { expiry_metric = some (time_sub known env.now) } in
      let judged = judge_known (is_past_buffer stage) stage known recorded read_err metered in
      (judged.0, verdict judged.1 (next_license_check window known env.now) "" true)

  pub reconcile_unreadable_license : String → Window → PassState → PassState × LicenseVerdict
  reconcile_unreadable_license read_err window s =
      let reported = set_problem_condition (unreadable_condition read_err) s in
      by_known_expiry s.license_expiry
        (is_status_condition_true reported.conditions license_degraded) read_err window reported

  pub reconcile_read_license : String → ℤ → Window → PassState → PassState × LicenseVerdict
  reconcile_read_license checksum not_after window s =
      let found =
        set_condition
          (condition gw license_secret_unavailable is_false "SecretAvailable"
            "license secret is available")
          (record s {
            license_expiry = some not_after;
            expiry_metric = some (time_sub not_after env.now);
          }) in
      let judged = apply_license_stage (stage_at window not_after env.now) not_after found in
      (judged.0, verdict judged.1 (next_license_check window not_after env.now) checksum false)

  pub forget_license : PassState → PassState
  forget_license s = record s {
    conditions = delete_func (λ c. is_license_type c.type) s.conditions;
    license_expiry = none;
    expiry_metric = none;
  }

  abbrev pub window_of : Window
  window_of = record { warning = expiry_warning gw; safety_buffer = license_safety_buffer }

  by_edition : Edition → Result (String × ℤ) → PassState → PassState × LicenseVerdict
  by_edition ce found s = (forget_license s, verdict false (pos 0) "" false)
  by_edition ee (err e) s = reconcile_unreadable_license e window_of s
  by_edition ee (ok (checksum, not_after)) s = reconcile_read_license checksum not_after window_of s

  pub reconcile_license : PassState → PassState × LicenseVerdict
  unfolding by_edition
  reconcile_license s = by_edition gw.edition read_license s
