-- ===== src/Rollout/Conditions.antt =====
-- What the roll-out's writers leave in the conditions.
use kraken_d_operator.Base.{
  Bool, ℕ, String, false, Option, none, some, Option-cases, List, ◌≡◌, ◌≢◌, ◌==◌, inl, inr, refl,
  sym, eq_iff, Bool-cases,
}
use kraken_d_operator.Status.{Condition, ConditionApi}
use kraken_d_operator.Rollout.{
  Deployment, RolloutNote, condition_progressing, condition_available, is_rollout_failed, note_for,
  raise_progressing, dep_cond_true, reset_rollout_failed_availability,
}

-- what a pass of a gateway of that generation leaves of a condition whose reason it reuses
abbrev pub refreshed : ℕ → Option Condition → Option Condition
refreshed generation none = none
refreshed generation (some c) = some (record c { observed_generation = generation })

-- whether a condition is there that says the roll-out failed
abbrev pub has_rollout_failed : Option Condition → Bool
has_rollout_failed none = false
has_rollout_failed (some c) = is_rollout_failed c

module _ (api : ConditionApi) where
  -- A roll-out that is reported keeps its reason and message, whatever the generations: after a
  -- pass at one generation that raised Progressing with any note, or none, a pass at any generation
  -- without a note leaves the condition that is found there, with its own generation as the
  -- observed one.
  pub raise_progressing-again :
      (earlier later : ℕ) (chosen : Option RolloutNote) (cs : List Condition)
      → api.find_status_condition
          (raise_progressing api later none (raise_progressing api earlier chosen cs))
          condition_progressing
        ≡ refreshed later (
            api.find_status_condition
              (raise_progressing api earlier chosen cs)
              condition_progressing)
  unfolding raise_progressing note_for
  raise_progressing-again earlier later chosen cs = rw (api.find-set, api.find-set) refl

  -- After a reset, no Available condition says that the roll-out failed, and conditions of other
  -- types are found as before, whether Available was left, set or removed.
  pub reset_rollout_failed_availability-clears :
      (generation : ℕ) (dep : Deployment) (cs : List Condition) (t : String)
      → t ≢ condition_available
      → (has_rollout_failed (
            api.find_status_condition
              (reset_rollout_failed_availability api generation dep cs)
              condition_available)
          ≡ false)
        × (api.find_status_condition (reset_rollout_failed_availability api generation dep cs) t
            ≡ api.find_status_condition cs t)
  unfolding reset_rollout_failed_availability
  reset_rollout_failed_availability-clears generation dep cs t h =
      let off : condition_available == t ≡ false = elim (Bool-cases (condition_available == t)) [
        | inl same ↦ absurd (h (sym ((eq_iff condition_available t).0 same)))
        | inr other ↦ other
      ] in
      elim (Option-cases (api.find_status_condition cs condition_available)) [
        | inl missing ↦ rw (reset_rollout_failed_availability, missing) (rw missing refl, refl)
        | inr (cur, there) ↦ elim (Bool-cases (is_rollout_failed cur)) [
          | inr other ↦ rw (reset_rollout_failed_availability, there, other) (rw there other, refl)
          | inl stale ↦ elim (Bool-cases (dep_cond_true api generation dep.available)) [
            | inl up ↦
                rw (reset_rollout_failed_availability, there, stale, up)
                  (rw api.find-set refl, rw (api.find-set, off) refl)
            | inr down ↦
                rw (reset_rollout_failed_availability, there, stale, down)
                  (rw api.find-remove refl, rw (api.find-remove, off) refl)
          ]
        ]
      ]
