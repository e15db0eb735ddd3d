-- ===== src/License/Reconcile/Schedule.antt =====
-- When the gateway looks at its licence again, and the window that it uses.
use kraken_d_operator.Base.{
  ◌≤◌, ◌≡◌, ◌∙◌, ap, sym, String, Bool, true, arith, Option, none, some, Bool-cases, inl, inr,
}
use kraken_d_operator.Base.Int.{
  ℤ, pos, ◌+ℤ◌, ◌≤ℤ◌, ◌<ℤ◌, ltb_ℤ, pos_part, int_laws, ltb_ℤ→le, eq_of_parts,
}
use kraken_d_operator.Base.Results.{Result, ok, err}
use kraken_d_operator.License.Window.{Window, Stage, expired, stage_at, next_change}
use kraken_d_operator.License.Window.Stages.{
  rank, rank-stage_at_mono, IsWellFormed, stage_at-before_next_change, next_change_zero_iff,
}
use kraken_d_operator.License.Reconcile.{
  Env, Gateway, Edition, ce, ee, PassState, license_recheck_interval, next_license_check,
  expiry_warning, warning_days, window_of, by_edition, by_known_expiry, read_license,
  reconcile_unreadable_license, reconcile_read_license, reconcile_license,
}

abbrev IsSoon : ℤ → Type 0
IsSoon d = (pos 0 <ℤ d) × (d ≤ℤ license_recheck_interval)

next_license_check-IsSoon : (w : Window) (e now : ℤ) → IsSoon (next_license_check w e now)
unfolding next_license_check
next_license_check-IsSoon w e now = ground arith

next_license_check-le :
    (w : Window) (e now : ℤ)
    → ltb_ℤ (pos 0) (next_change w e now) ≡ true
    → next_license_check w e now ≤ℤ next_change w e now
unfolding next_license_check
next_license_check-le w e now h = ground arith

expired_of_rank : (s : Stage) → 3 ≤ rank s → s ≡ expired
expired_of_rank s h = ground arith

stays_expired :
    (w : Window) (e now t : ℤ)
    → IsWellFormed w
    → now ≤ℤ t
    → stage_at w e now ≡ expired
    → stage_at w e t ≡ stage_at w e now
stays_expired w e now t wf lo h =
    expired_of_rank _ (omega (arith, rank-stage_at_mono w e now t wf lo, ap rank h)) ∙ sym h

-- With a well-formed window, the licence is looked at again before its stage can have changed:
-- the stage is the one of `now` at every instant from `now` on, up to the next check.
pub stage_at-until_next_check :
    (w : Window) (not_after now t : ℤ)
    → IsWellFormed w
    → now ≤ℤ t
    → t <ℤ (now +ℤ next_license_check w not_after now)
    → stage_at w not_after t ≡ stage_at w not_after now
stage_at-until_next_check w e now t wf lo hi =
    elim (Bool-cases (ltb_ℤ (pos 0) (next_change w e now))) [
      | inl ahead ↦
          stage_at-before_next_change w e now t wf lo
            (omega (int_laws, ltb_ℤ→le, eq_of_parts, next_license_check-le w e now ahead))
      | inr over ↦
          let (zero_iff, nonneg) = next_change_zero_iff w e now wf in
          stays_expired w e now t wf lo (
            zero_iff.0 (
              eq_of_parts (next_change w e now) (pos 0) (
                omega
                  (int_laws, ltb_ℤ→le, eq_of_parts, ltb_ℤ→le (pos 0) (next_change w e now) over))))
    ]

module _ (env : Env) (gw : Gateway) where
  by_known_expiry-IsSoon :
      (known : Option ℤ) (recorded : Bool) (m : String) (w : Window) (s : PassState)
      → IsSoon (by_known_expiry env gw known recorded m w s).1.requeue_after
  unfolding by_known_expiry
  by_known_expiry-IsSoon none recorded m w s = omega arith
  by_known_expiry-IsSoon (some known) recorded m w s = next_license_check-IsSoon w known env.now

  by_edition-IsSoon :
      (edition : Edition) (found : Result (String × ℤ)) (s : PassState)
      → edition ≡ ee
      → IsSoon (by_edition env gw edition found s).1.requeue_after
  unfolding by_edition reconcile_read_license reconcile_unreadable_license
  by_edition-IsSoon ce found s h = cc
  by_edition-IsSoon ee (ok (c, e)) s h = next_license_check-IsSoon (window_of env gw) e env.now
  by_edition-IsSoon ee (err m) s h =
      by_known_expiry-IsSoon s.license_expiry _ m (window_of env gw) _

  -- An EE gateway is looked at again within five minutes, and not at once, whether or not its
  -- licence could be read.
  pub requeue_after_bounds :
      (s : PassState)
      → gw.edition ≡ ee
      → (pos 0 <ℤ (reconcile_license env gw s).1.requeue_after)
        × ((reconcile_license env gw s).1.requeue_after ≤ℤ license_recheck_interval)
  unfolding reconcile_license
  requeue_after_bounds s e = by_edition-IsSoon gw.edition (read_license env gw) s e

-- With a warning of at most 106751 days, the default included, the gateway's window is well
-- formed.
window_of-IsWellFormed :
    (env : Env) (gw : Gateway)
    → pos_part (warning_days gw.license) ≤ 106751
    → IsWellFormed (window_of env gw)
unfolding expiry_warning
window_of-IsWellFormed env gw h = ground arith

-- With a configured warning of 106752 to 213503 days, the warning of the gateway's window, whose
-- product in nanoseconds passes the end of `int64`, is a negative duration, and so the window is not
-- well formed: its warning is not longer than its safety buffer.
pub window_of_overflow :
    (env : Env) (gw : Gateway)
    → 106752 ≤ pos_part (warning_days gw.license)
    → pos_part (warning_days gw.license) ≤ 213503
    → ((window_of env gw).warning <ℤ pos 0) × (¬ IsWellFormed (window_of env gw))
unfolding expiry_warning
window_of_overflow env gw h k = (ground arith, λ w. ground arith)
