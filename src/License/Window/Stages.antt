-- ===== src/License/Window/Stages.antt =====
-- Stages along time, and `NextChange` as the distance to the next change of stage.
use kraken_d_operator.Base.{◌∙◌, sym, Bool-cases, inl, inr, ℕ, ◌≤◌, ◌≡◌, refl, ◌≢◌, ◌↔◌, arith}
use kraken_d_operator.Base.Int.{
  ℤ, pos, ◌+ℤ◌, ◌-ℤ◌, ◌≤ℤ◌, ◌<ℤ◌, max_int64, ltb_ℤ, ltb_ℤ→lt, ltb_ℤ→le, int_laws, eq_of_parts,
  +ℤ_parts, -ℤ_parts,
}
use kraken_d_operator.License.Window.{
  Window, Stage, valid, expiring_soon, pre_expiry, expired, time_sub, stage_at, next_change,
}

-- A window whose safety buffer is not negative and whose warning is longer than it.
pub record IsWellFormed (w : Window) : Type 0 where
  pub buffer_nonneg : pos 0 ≤ℤ w.safety_buffer
  pub buffer_lt_warning : w.safety_buffer <ℤ w.warning

abbrev pub rank : Stage → ℕ
rank valid = 0
rank expiring_soon = 1
rank pre_expiry = 2
rank expired = 3

-- With a safety buffer that is not negative and a longer warning, the stage of a licence never goes
-- back as time goes on.
pub rank-stage_at_mono :
    (w : Window) (not_after now later : ℤ)
    → IsWellFormed w
    → now ≤ℤ later
    → rank (stage_at w not_after now) ≤ rank (stage_at w not_after later)
unfolding stage_at
rank-stage_at_mono w e now later wf h = ground (
  arith,
  +ℤ_parts now w.safety_buffer,
  +ℤ_parts later w.safety_buffer,
  +ℤ_parts now w.warning,
  +ℤ_parts later w.warning,
)

-- In a well-formed window, `next_change` is 0 exactly when the licence has expired, and it is never
-- negative.
pub next_change_zero_iff :
    (w : Window) (not_after now : ℤ)
    → IsWellFormed w
    → ((next_change w not_after now ≡ pos 0) ↔ (stage_at w not_after now ≡ expired))
      × (pos 0 ≤ℤ next_change w not_after now)
unfolding next_change stage_at time_sub
next_change_zero_iff w e now wf = ground (
  arith,
  +ℤ_parts now w.safety_buffer,
  +ℤ_parts now w.warning,
  -ℤ_parts e w.safety_buffer,
  -ℤ_parts e w.warning,
  -ℤ_parts (e -ℤ w.safety_buffer) now,
  -ℤ_parts (e -ℤ w.warning) now,
  -ℤ_parts e now,
)

-- Where an instant stands, with the boundary that comes next.
data Place (w : Window) (e now : ℤ) : Type 0 where
  past : e ≤ℤ now → Place w e now
  before_expiry : now <ℤ e → e ≤ℤ (now +ℤ w.safety_buffer) → Place w e now
  before_buffer : (now +ℤ w.safety_buffer) <ℤ e → e ≤ℤ (now +ℤ w.warning) → Place w e now
  before_warning : (now +ℤ w.warning) <ℤ e → Place w e now

abbrev stage_of : {w : Window} {e now : ℤ} → Place w e now → Stage
stage_of (past _) = expired
stage_of (before_expiry _ _) = pre_expiry
stage_of (before_buffer _ _) = expiring_soon
stage_of (before_warning _) = valid

abbrev boundary_of : {w : Window} {e now : ℤ} → Place w e now → ℤ
boundary_of {now} (past _) = now
boundary_of {e} (before_expiry _ _) = e
boundary_of {w} {e} (before_buffer _ _) = e -ℤ w.safety_buffer
boundary_of {w} {e} (before_warning _) = e -ℤ w.warning

place : (w : Window) (e now : ℤ) → Place w e now
place w e now = elim (Bool-cases (ltb_ℤ now e)) [
  | inr p ↦ past (ltb_ℤ→le now e p)
  | inl p ↦ elim (Bool-cases (ltb_ℤ (now +ℤ w.safety_buffer) e)) [
    | inr q ↦ before_expiry (ltb_ℤ→lt now e p) (ltb_ℤ→le (now +ℤ w.safety_buffer) e q)
    | inl q ↦ elim (Bool-cases (ltb_ℤ (now +ℤ w.warning) e)) [
      | inr r ↦ before_buffer (ltb_ℤ→lt _ e q) (ltb_ℤ→le _ e r)
      | inl r ↦ before_warning (ltb_ℤ→lt _ e r)
    ]
  ]
]

time_sub_self : (t : ℤ) → time_sub t t ≡ pos 0
unfolding time_sub
time_sub_self t = ground (arith, -ℤ_parts t t)

time_sub-le : (t u x : ℤ) → u ≤ℤ t → x <ℤ (u +ℤ time_sub t u) → x <ℤ t
unfolding time_sub
time_sub-le t u x h k = ground (arith, -ℤ_parts t u, +ℤ_parts u (time_sub t u))

add-time_sub : (t u : ℤ) → u ≤ℤ t → (t -ℤ u) ≤ℤ max_int64 → u +ℤ time_sub t u ≡ t
unfolding time_sub
add-time_sub t u h k =
    ground (arith, -ℤ_parts t u, +ℤ_parts u (time_sub t u), eq_of_parts (u +ℤ time_sub t u) t)

sub_mono : (t e u : ℤ) → t ≤ℤ e → (e -ℤ u) ≤ℤ max_int64 → (t -ℤ u) ≤ℤ max_int64
sub_mono t e u h k = omega int_laws

module _ (w : Window) (e now : ℤ) (wf : IsWellFormed w) where
  stage_at_lem : (p : Place w e now) → stage_at w e now ≡ stage_of p
  unfolding stage_at
  stage_at_lem (past h) = ground arith
  stage_at_lem (before_expiry h k) = ground arith
  stage_at_lem (before_buffer h k) = ground (arith, +ℤ_parts now w.safety_buffer)
  stage_at_lem (before_warning h) =
      ground (arith, +ℤ_parts now w.safety_buffer, +ℤ_parts now w.warning)

  next_change_lem : (p : Place w e now) → next_change w e now ≡ time_sub (boundary_of p) now
  unfolding next_change
  next_change_lem (past h) =
      ground (arith, -ℤ_parts e w.safety_buffer, -ℤ_parts e w.warning, time_sub_self now)
  next_change_lem (before_expiry h k) =
      ground (arith, -ℤ_parts e w.safety_buffer, -ℤ_parts e w.warning, +ℤ_parts now w.safety_buffer)
  next_change_lem (before_buffer h k) = ground (
    arith,
    -ℤ_parts e w.safety_buffer,
    -ℤ_parts e w.warning,
    +ℤ_parts now w.safety_buffer,
    +ℤ_parts now w.warning,
  )
  next_change_lem (before_warning h) = ground (arith, -ℤ_parts e w.warning, +ℤ_parts now w.warning)

  now-le-boundary : (p : Place w e now) → now ≤ℤ boundary_of p
  now-le-boundary (past h) = omega arith
  now-le-boundary (before_expiry h k) = omega arith
  now-le-boundary (before_buffer h k) = omega int_laws
  now-le-boundary (before_warning h) = omega int_laws

  boundary-le-expiry : (p : Place w e now) → stage_of p ≢ expired → boundary_of p ≤ℤ e
  boundary-le-expiry (past h) live = absurd (live refl)
  boundary-le-expiry (before_expiry h k) live = omega arith
  boundary-le-expiry (before_buffer h k) live = omega int_laws
  boundary-le-expiry (before_warning h) live = omega int_laws

  before_boundary :
      (t : ℤ) (p : Place w e now) → now ≤ℤ t → t <ℤ boundary_of p → stage_at w e t ≡ stage_of p
  unfolding stage_at
  before_boundary t (past h) lo hi = absurd (omega arith)
  before_boundary t (before_expiry h k) lo hi =
      ground (arith, +ℤ_parts t w.safety_buffer, +ℤ_parts now w.safety_buffer)
  before_boundary t (before_buffer h k) lo hi = ground (
    arith,
    -ℤ_parts e w.safety_buffer,
    +ℤ_parts t w.safety_buffer,
    +ℤ_parts t w.warning,
    +ℤ_parts now w.warning,
  )
  before_boundary t (before_warning h) lo hi =
      ground (arith, -ℤ_parts e w.warning, +ℤ_parts t w.safety_buffer, +ℤ_parts t w.warning)

  at_boundary :
      (p : Place w e now) → stage_of p ≢ expired → stage_at w e (boundary_of p) ≢ stage_of p
  unfolding stage_at
  at_boundary (past h) live = absurd (live refl)
  at_boundary (before_expiry h k) live = ground arith
  at_boundary (before_buffer h k) live =
      ground (arith, -ℤ_parts e w.safety_buffer, +ℤ_parts (e -ℤ w.safety_buffer) w.safety_buffer)
  at_boundary (before_warning h) live = ground (
    arith,
    -ℤ_parts e w.warning,
    +ℤ_parts (e -ℤ w.warning) w.safety_buffer,
    +ℤ_parts (e -ℤ w.warning) w.warning,
  )

-- With a safety buffer that is not negative and a longer warning, the stage is the one of `now` at
-- every instant from `now` on, as long as `next_change` has not passed.
pub stage_at-before_next_change :
    (w : Window) (not_after now t : ℤ)
    → IsWellFormed w
    → now ≤ℤ t
    → t <ℤ (now +ℤ next_change w not_after now)
    → stage_at w not_after t ≡ stage_at w not_after now
stage_at-before_next_change w e now t wf lo hi =
    let p = place w e now in
    let soon : t <ℤ (now +ℤ time_sub (boundary_of p) now) =
      rw (← next_change_lem w e now wf p) hi in
    let within = time_sub-le (boundary_of p) now t (now-le-boundary w e now wf p) soon in
    before_boundary w e now wf t p lo within ∙ sym (stage_at_lem w e now wf p)

-- Once `next_change` has passed the stage is another one than at `now`, if the licence had not
-- expired at `now`, the safety buffer is not negative and the warning is longer than it, and the
-- time from `now` to the expiry is at most the longest duration.
pub stage_at-next_change :
    (w : Window) (not_after now : ℤ)
    → IsWellFormed w
    → (not_after -ℤ now) ≤ℤ max_int64
    → stage_at w not_after now ≢ expired
    → stage_at w not_after (now +ℤ next_change w not_after now) ≢ stage_at w not_after now
stage_at-next_change w e now wf fits live =
    let p = place w e now in
    let here = stage_at_lem w e now wf p in
    let alive : stage_of p ≢ expired = λ q. live (here ∙ q) in
    let exact : now +ℤ next_change w e now ≡ boundary_of p = rw (next_change_lem w e now wf p) (
      add-time_sub (boundary_of p) now (now-le-boundary w e now wf p)
        (sub_mono (boundary_of p) e now (boundary-le-expiry w e now wf p alive) fits)) in
    rw (exact, here) (at_boundary w e now wf p alive)
