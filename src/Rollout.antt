-- ===== src/Rollout.antt =====
-- The conditions about a roll-out of the gateway's Deployment:
-- operator/internal/controller/gateway_rollout.go. Of the Deployment the model has the fields that
-- are read; its own conditions are the ones that `findDeploymentCondition` finds.
pub mod Conditions
mod Tests
use kraken_d_operator.Base.{
  ℕ, String, Bool, true, false, ◌&&◌, ◌||◌, not, Option, none, some, List, [], ◌∷◌, ◌≡◌, ◌==◌, leb,
  ltb, if◌then◌else◌,
}
use kraken_d_operator.Base.Maps.{Eq, string_eq, lookup}
use kraken_d_operator.Status.{
  Condition, ConditionStatus, is_true, is_false, unknown, cond_true, ConditionApi,
}

pub record DeploymentCondition : Type 0 where
  pub status : ConditionStatus
  pub reason : String

pub record Deployment : Type 0 where
  pub annotations : List (String × String)
  pub mounted_config_map : String
  pub generation : ℕ
  pub observed_generation : ℕ
  pub replicas : ℕ
  pub updated_replicas : ℕ
  pub progressing : Option DeploymentCondition
  pub available : Option DeploymentCondition

pub record DeploymentObservation : Type 0 where
  pub dep : Option Deployment
  pub failed : Bool
  pub refused : Bool
  pub unreconciled : Bool
  pub created : Bool
  pub template_changed : Bool

-- the fields of `infraInputs` that are read
pub record InfraInputs : Type 0 where
  pub applied_checksum : String
  pub plugin_checksum : String
  pub image : String
  pub license_checksum : String
  pub config_map_name : String

-- the annotations' keys, constants of operator/internal/resources
pub record AnnotationKeys : Type 0 where
  pub post_restart_job_checksum : String
  pub plugin : String
  pub image_key : String
  pub license : String

pub record RolloutNote : Type 0 where
  pub reason : String
  pub message : String

abbrev pub condition_progressing : String
condition_progressing = "Progressing"

abbrev pub condition_available : String
condition_available = "Available"

abbrev pub rollout_failed : String
rollout_failed = "RolloutFailed"

-- a missing key reads as the empty string
abbrev or_empty_string : Option String → String
or_empty_string none = ""
or_empty_string (some s) = s

unfoldable pub template_runs_want : AnnotationKeys → Deployment → InfraInputs → Bool
template_runs_want keys dep want =
    (or_empty_string (lookup keys.post_restart_job_checksum dep.annotations)
      == want.applied_checksum)
    && (or_empty_string (lookup keys.plugin dep.annotations) == want.plugin_checksum)
    && (or_empty_string (lookup keys.image_key dep.annotations) == want.image)
    && (or_empty_string (lookup keys.license dep.annotations) == want.license_checksum)
    && (dep.mounted_config_map == want.config_map_name)

unfoldable pub rollout_in_flight : AnnotationKeys → DeploymentObservation → InfraInputs → Bool
unfolding template_runs_want
rollout_in_flight keys obs want = elim obs.dep [
  | none ↦ false
  | some dep ↦
      obs.created
      || obs.template_changed
      || not (template_runs_want keys dep want)
      || ltb dep.updated_replicas dep.replicas
]

abbrev is_deadline_exceeded : DeploymentCondition → Bool
is_deadline_exceeded c = elim c.status [
  | is_true ↦ false
  | is_false ↦ c.reason == "ProgressDeadlineExceeded"
  | unknown ↦ false
]

unfoldable pub failed_rollout_applies : Deployment → Bool
failed_rollout_applies dep = elim dep.progressing [
  | none ↦ false
  | some c ↦ is_deadline_exceeded c && leb dep.generation dep.observed_generation
]

abbrev pub is_rollout_failed : Condition → Bool
is_rollout_failed c = elim c.status [
  | is_true ↦ false
  | is_false ↦ c.reason == rollout_failed
  | unknown ↦ false
]

module _ (api : ConditionApi) (generation : ℕ) where
  -- the reason and message of `cur`, the note, or the default
  pub note_for : Option RolloutNote → Option Condition → RolloutNote
  note_for (some note) cur = note
  note_for none none = record {
    reason = "DeploymentUpdated";
    message = "Deployment is rolling out a changed pod template";
  }
  note_for none (some cur) =
      let reported : RolloutNote = record { reason = cur.reason; message = cur.message } in
      let default : RolloutNote = record {
        reason = "DeploymentUpdated";
        message = "Deployment is rolling out a changed pod template";
      } in
      if cond_true (some cur) then reported else default

  unfoldable pub raise_progressing : Option RolloutNote → List Condition → List Condition
  unfolding note_for
  raise_progressing given cs =
      let chosen = note_for given (api.find_status_condition cs condition_progressing) in
      api.set_status_condition cs (record {
        type = condition_progressing;
        status = is_true;
        observed_generation = generation;
        reason = chosen.reason;
        message = chosen.message;
      })

  abbrev pub dep_cond_true : Option DeploymentCondition → Bool
  dep_cond_true none = false
  dep_cond_true (some c) = cond_true (
      some (record {
        type = condition_available;
        status = c.status;
        observed_generation = 0;
        reason = c.reason;
        message = "";
      }))

  unfoldable pub reset_rollout_failed_availability : Deployment → List Condition → List Condition
  reset_rollout_failed_availability dep cs =
      elim (api.find_status_condition cs condition_available) [
        | none ↦ cs
        | some cur ↦
            if not (is_rollout_failed cur)
            then cs
            else if dep_cond_true dep.available
            then api.set_status_condition cs (record {
              type = condition_available;
              status = is_true;
              observed_generation = generation;
              reason = "DeploymentAvailable";
              message = "All replicas are available";
            })
            else api.remove_status_condition cs condition_available
      ]
