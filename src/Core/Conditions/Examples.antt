-- ===== src/Core/Conditions/Examples.antt =====
-- Setting a condition beside another one.
use environments.Common.{String, ◌≡◌, refl, some, List, [], ◌∷◌, ◌==◌, if◌then◌else◌}
use environments.Core.Conditions.{Condition, set_condition, get_condition, has_condition}
use environments.Core.Conditions.Laws.{Unique, written, set_condition_lem}

abbrev condition : String → Condition
condition kind = record {
  kind = kind;
  status = "False";
  observed_generation = 4;
  last_transition_time = 10;
  reason = "Pending";
  message = "";
}

abbrev before : List Condition
before = condition "Ready" ∷ condition "Resolved" ∷ []

before-Unique : Unique before
unfolding get_condition
before-Unique = (refl, (refl, tt))

set_condition_lem_example :
    let after = set_condition "Ready" "True" "Done" "all applied" 12 before in
    Unique after
    × (get_condition after "Ready" ≡ (
        if "Ready" == "Ready"
        then some (written "Ready" "True" "Done" "all applied" 12 (get_condition before "Ready"))
        else get_condition before "Ready"))
    × (has_condition after "Ready" "True"
        ≡ (if "Ready" == "Ready" then "True" == "True" else has_condition before "Ready" "True"))
set_condition_lem_example =
    set_condition_lem "Ready" "True" "Done" "all applied" 12 before "Ready" "True" before-Unique
