-- ===== src/Core/Conditions.antt =====
-- core/conditions/conditions.go, and the mergeCondition and removeCondition of the status writers
-- (pkg/apis/*/application/status.go). A slice is a list, nil and empty alike; the time of a write is
-- an argument.
pub mod Laws
mod Examples
use environments.Common.{
  ℕ, String, Bool, true, false, ◌&&◌, Option, none, some, List, [], ◌∷◌, ◌==◌, not, if◌then◌else◌,
}

-- metav1.Condition, by the fields that the code names and the one that it leaves alone
pub record Condition : Type 0 where
  pub kind : String
  pub status : String
  pub observed_generation : ℕ
  pub last_transition_time : ℕ
  pub reason : String
  pub message : String

abbrev pub condition_true : String
condition_true = "True"

abbrev pub condition_false : String
condition_false = "False"

abbrev pub condition_unknown : String
condition_unknown = "Unknown"

module _ (kind status reason message : String) (now : ℕ) where
  -- The loop stops at the first condition of the type; without one a new one is appended.
  pub set_condition : List Condition → List Condition
  set_condition [] =
      record {
        kind = kind;
        status = status;
        observed_generation = 0;
        last_transition_time = now;
        reason = reason;
        message = message;
      }
      ∷ []
  set_condition (c ∷ cs) =
      if c.kind == kind
      then record c {
        status = status;
        reason = reason;
        message = message;
        last_transition_time = now;
      }
        ∷ cs
      else c ∷ set_condition cs

pub get_condition : List Condition → String → Option Condition
get_condition [] kind = none
get_condition (c ∷ cs) kind = if c.kind == kind then some c else get_condition cs kind

pub has_condition : List Condition → String → String → Bool
has_condition [] kind status = false
has_condition (c ∷ cs) kind status =
    if c.kind == kind && c.status == status then true else has_condition cs kind status

pub merge_condition : List Condition → Condition → List Condition
merge_condition [] new = new ∷ []
merge_condition (c ∷ cs) new = if c.kind == new.kind then new ∷ cs else c ∷ merge_condition cs new

pub remove_condition : List Condition → String → List Condition
remove_condition [] kind = []
remove_condition (c ∷ cs) kind =
    let kept = remove_condition cs kind in if not (c.kind == kind) then c ∷ kept else kept
