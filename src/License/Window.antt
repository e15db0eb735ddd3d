-- ===== src/License/Window.antt =====
-- operator/internal/util/license/window.go. An instant is a number of nanoseconds from a fixed
-- origin, and a `time.Duration` one in the range of `int64`. `Time.Add` is exact, and `Time.Sub`
-- stops at the ends of `int64`.
pub mod Stages
use kraken_d_operator.Base.{Bool, not, if◌then◌else◌}
use kraken_d_operator.Base.Int.{ℤ, pos, ◌+ℤ◌, ◌-ℤ◌, ltb_ℤ, max_int64, min_int64}

pub data Stage : Type 0 where
  valid expiring_soon pre_expiry expired : Stage

pub record Window : Type 0 where
  pub warning : ℤ
  pub safety_buffer : ℤ

-- `t.After(u)`
abbrev pub after : ℤ → ℤ → Bool
after t u = ltb_ℤ u t

-- `t.Sub(u)`
unfoldable pub time_sub : ℤ → ℤ → ℤ
time_sub t u =
    let d = t -ℤ u in
    if ltb_ℤ max_int64 d then max_int64 else if ltb_ℤ d min_int64 then min_int64 else d

unfoldable pub stage_at : Window → ℤ → ℤ → Stage
stage_at w not_after now =
    if not (after not_after now)
    then expired
    else if not (after not_after (now +ℤ w.safety_buffer))
    then pre_expiry
    else if not (after not_after (now +ℤ w.warning))
    then expiring_soon
    else valid

-- the loop over the three boundaries, in the order of the slice; `-w.Warning` is exact for every
-- duration but the smallest `int64`
unfoldable pub next_change : Window → ℤ → ℤ → ℤ
next_change w not_after now =
    if after (not_after -ℤ w.warning) now
    then time_sub (not_after -ℤ w.warning) now
    else if after (not_after -ℤ w.safety_buffer) now
    then time_sub (not_after -ℤ w.safety_buffer) now
    else if after not_after now
    then time_sub not_after now
    else pos 0
