-- ===== src/Rollout/Tests.antt =====
-- Runs of the roll-out's writers, and each theorem at a concrete input.
use kraken_d_operator.Base.{true, false, none, some, [], ◌∷◌, ◌≡◌, refl, arith, eq_iff}
use kraken_d_operator.Status.{Condition, is_true, is_false}
use kraken_d_operator.Status.ListApi.{list_api}
use kraken_d_operator.Rollout.{
  DeploymentCondition, Deployment, RolloutNote, condition_progressing, condition_available,
  rollout_failed, failed_rollout_applies, raise_progressing, reset_rollout_failed_availability,
}
use kraken_d_operator.Rollout.Conditions.{
  refreshed, has_rollout_failed, raise_progressing-again, reset_rollout_failed_availability-clears,
}

abbrev up : DeploymentCondition
up = record { status = is_true; reason = "MinimumReplicasAvailable" }

abbrev stuck : DeploymentCondition
stuck = record { status = is_false; reason = "ProgressDeadlineExceeded" }

abbrev deployment : Deployment
deployment = record {
  annotations = [];
  mounted_config_map = "gw-config";
  generation = 3;
  observed_generation = 3;
  replicas = 2;
  updated_replicas = 2;
  progressing = some stuck;
  available = some up;
}

deadline :
    (failed_rollout_applies deployment ≡ true)
    × (failed_rollout_applies (record deployment { observed_generation = 2 }) ≡ false)
unfolding failed_rollout_applies
deadline = (refl, refl)

abbrev failure : Condition
failure = record {
  type = condition_available;
  status = is_false;
  observed_generation = 2;
  reason = rollout_failed;
  message = "deadline";
}

abbrev deployed : RolloutNote
deployed = record {
  reason = "ConfigDeployed";
  message = "Configuration updated, rolling deployment";
}

raise_progressing-again_example :
    list_api.find_status_condition
      (raise_progressing list_api 4 none (raise_progressing list_api 3 (some deployed) []))
      condition_progressing
    ≡ refreshed 4 (
        list_api.find_status_condition
          (raise_progressing list_api 3 (some deployed) [])
          condition_progressing)
raise_progressing-again_example = raise_progressing-again list_api 3 4 (some deployed) []

abbrev rolling : Condition
rolling = record {
  type = condition_progressing;
  status = is_true;
  observed_generation = 3;
  reason = "ConfigDeployed";
  message = "Configuration updated, rolling deployment";
}

-- The Deployment is not available, so the condition is removed.
abbrev down : Deployment
down = record deployment { available = none }

reset_rollout_failed_availability-clears_example :
    (has_rollout_failed (
        list_api.find_status_condition
          (reset_rollout_failed_availability list_api 3 down (failure ∷ rolling ∷ []))
          condition_available)
      ≡ false)
    × (list_api.find_status_condition
          (reset_rollout_failed_availability list_api 3 down (failure ∷ rolling ∷ []))
          condition_progressing
        ≡ list_api.find_status_condition (failure ∷ rolling ∷ []) condition_progressing)
reset_rollout_failed_availability-clears_example =
    reset_rollout_failed_availability-clears list_api 3 down (failure ∷ rolling ∷ [])
      condition_progressing
      (λ e. ground (arith, (eq_iff condition_progressing condition_available).1 e))
