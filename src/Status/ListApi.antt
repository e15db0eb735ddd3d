-- ===== src/Status/ListApi.antt =====
-- A plain implementation of the condition functions on lists, to instantiate `ConditionApi` with.
use kraken_d_operator.Base.{
  String, ◌≡◌, ◌≢◌, refl, Option, none, some, List, [], ◌∷◌, ◌==◌, All, Any, if◌then◌else◌,
  delete_func, arith, eq_iff, Bool-cases, inl, inr,
}
use kraken_d_operator.Status.{Condition, ConditionApi, cond_true}

abbrev pub find : List Condition → String → Option Condition
find [] t = none
find (c ∷ cs) t = if c.type == t then some c else find cs t

abbrev pub set : List Condition → Condition → List Condition
set [] c = c ∷ []
set (d ∷ cs) c = if d.type == c.type then c ∷ cs else d ∷ set cs c

abbrev pub remove : List Condition → String → List Condition
remove cs t = delete_func (λ c. c.type == t) cs

pub find-set_lem :
    (cs : List Condition) (c : Condition) (t : String)
    → find (set cs c) t ≡ (if c.type == t then some c else find cs t)
find-set_lem [] c t = refl
find-set_lem (d ∷ cs) c t =
    ground (arith, find-set_lem cs c t, eq_iff d.type c.type, eq_iff d.type t, eq_iff c.type t)

pub find-remove_lem :
    (cs : List Condition) (t u : String)
    → find (remove cs t) u ≡ (if t == u then none else find cs u)
find-remove_lem [] t u = ground arith
find-remove_lem (d ∷ cs) t u =
    ground (arith, find-remove_lem cs t u, eq_iff d.type t, eq_iff d.type u, eq_iff t u)

pub find_listed_lem :
    (cs : List Condition) (t : String) (c : Condition)
    → find cs t ≡ some c
    → Any (λ d. d ≡ c) cs × (c.type ≡ t)
find_listed_lem [] t c h = cc
find_listed_lem (d ∷ cs) t c h = elim (Bool-cases (d.type == t)) [
  | inl same ↦ let e : d ≡ c = ground (arith, same) in (inl e, ground (arith, eq_iff d.type t))
  | inr other ↦ let (later, e) = find_listed_lem cs t c (rw other at h) in (inr later, e)
]

pub find_missing_lem :
    (cs : List Condition) (t : String) → find cs t ≡ none → All (λ c. c.type ≢ t) cs
find_missing_lem [] t h = tt
find_missing_lem (d ∷ cs) t h = elim (Bool-cases (d.type == t)) [
  | inl same ↦ absurd (ground (arith, same))
  | inr other ↦ (ground (arith, eq_iff d.type t), find_missing_lem cs t (rw other at h))
]

abbrev pub list_api : ConditionApi
list_api = record {
  find_status_condition = find;
  set_status_condition = set;
  remove_status_condition = remove;
  is_status_condition_true = λ cs t. cond_true (find cs t);
  find-set = find-set_lem;
  find-remove = find-remove_lem;
  find_listed = find_listed_lem;
  find_missing = find_missing_lem;
  is_true_lem = λ cs t. refl;
}
