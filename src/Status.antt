-- ===== src/Status.antt =====
-- Status conditions and events. The functions of k8s.io/apimachinery/pkg/api/meta are not part of
-- the repository: `ConditionApi` holds them with what their documentation says. A condition's
-- transition time, which that package alone writes, is left out.
pub mod ListApi
use kraken_d_operator.Base.{
  ℕ, String, ◌≡◌, ◌≢◌, Bool, true, false, Option, none, some, List, [], ◌∷◌, ◌++◌, ◌==◌, All, Any,
  ◌&&◌, if◌then◌else◌, not, ◌||◌, delete_func, delete_func-Any, Any-elim, Option-cases, inl, inr,
}

-- `metav1.ConditionStatus`
pub data ConditionStatus : Type 0 where
  is_true is_false unknown : ConditionStatus

pub record Condition : Type 0 where
  pub type : String
  pub status : ConditionStatus
  pub observed_generation : ℕ
  pub reason : String
  pub message : String

abbrev pub status_is_true : ConditionStatus → Bool
status_is_true is_true = true
status_is_true _ = false

-- `condTrue` of krakendgateway_controller.go; `nil` is `none`
abbrev pub cond_true : Option Condition → Bool
cond_true none = false
cond_true (some c) = status_is_true c.status

pub record ConditionApi : Type 0 where
  pub find_status_condition : List Condition → String → Option Condition
  pub set_status_condition : List Condition → Condition → List Condition
  pub remove_status_condition : List Condition → String → List Condition
  pub is_status_condition_true : List Condition → String → Bool
  pub find-set :
      (cs : List Condition) (c : Condition) (t : String)
      → find_status_condition (set_status_condition cs c) t
        ≡ (if c.type == t then some c else find_status_condition cs t)
  pub find-remove :
      (cs : List Condition) (t u : String)
      → find_status_condition (remove_status_condition cs t) u
        ≡ (if t == u then none else find_status_condition cs u)
  pub find_listed :
      (cs : List Condition) (t : String) (c : Condition)
      → find_status_condition cs t ≡ some c
      → Any (λ d. d ≡ c) cs × (c.type ≡ t)
  pub find_missing :
      (cs : List Condition) (t : String)
      → find_status_condition cs t ≡ none
      → All (λ c. c.type ≢ t) cs
  pub is_true_lem :
      (cs : List Condition) (t : String)
      → is_status_condition_true cs t ≡ cond_true (find_status_condition cs t)

pub data EventType : Type 0 where
  normal warning : EventType

pub record Event : Type 0 where
  pub event_type : EventType
  pub reason : String
  pub message : String

-- The condition types of operator/api/v1alpha1/shared_types.go that the model uses.
abbrev pub license_valid : String
license_valid = "LicenseValid"

abbrev pub license_degraded : String
license_degraded = "LicenseDegraded"

abbrev pub license_expired : String
license_expired = "LicenseExpired"

abbrev pub license_secret_unavailable : String
license_secret_unavailable = "LicenseSecretUnavailable"

abbrev pub progressing : String
progressing = "Progressing"

abbrev pub available : String
available = "Available"

-- whether a condition with this reason, turned True, is a transition that is worth an event
abbrev pub is_new_problem : Option Condition → Condition → Bool
is_new_problem none cond = status_is_true cond.status
is_new_problem (some prev) cond =
    status_is_true cond.status
    && (not (status_is_true prev.status) || not (prev.reason == cond.reason))

-- Conditions of the deleted types are not found any more.
pub find-delete_func :
    (api : ConditionApi) (p : String → Bool) (cs : List Condition) (t : String)
    → p t ≡ true
    → api.find_status_condition (delete_func (λ c. p c.type) cs) t ≡ none
find-delete_func api p cs t h =
    elim (Option-cases (api.find_status_condition (delete_func (λ c. p c.type) cs) t)) [
      | inl e ↦ e
      | inr (c, e) ↦
          let (listed, same) = api.find_listed _ t c e in
          absurd (
            Any-elim _ ⊥ cs (λ d q. refuse c d q.0 q.1 same)
              (delete_func-Any (λ d. p d.type) (λ d. d ≡ c) cs listed))
    ]
  where
    refuse : (c d : Condition) → d ≡ c → p d.type ≡ false → c.type ≡ t → ⊥
    refuse c d q r same = cc
