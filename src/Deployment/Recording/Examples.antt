-- ===== src/Deployment/Recording/Examples.antt =====
-- The condition of a rollout that failed, and its write beside another writer.
use environments.Common.{ℕ, ◌∷◌, List, Option, String, ◌≡◌, ◌↔◌, ◌⊎◌, some, [], ok, Result}
use environments.Core.Conditions.{Condition}
use environments.Deployment.Strategy.{DeploymentResult}
use environments.Deployment.Service.{ExecError, exec_result, exec_error}
use environments.Deployment.Recording.{condition, derive_condition}
use environments.Deployment.Recording.Laws.{HasFailed, IsReady, derive_condition_lem}

abbrev text : ExecError → String
text e = "deployment failed"

abbrev outcome : Result DeploymentResult
outcome = ok (record {
  phase = "Failed";
  message = "";
  runtime = "kubernetes.io/container-runtime";
  strategy = "Rolling";
  service_units = [];
})

condition_derived :
    (c : Condition) × (derive_condition text 9 (exec_result outcome) (exec_error outcome) ≡ some c)
    × ((c.status ≡ "False") ↔ HasFailed outcome)
    × (((c.kind ≡ "Ready") × (c.status ≡ "True")) ↔ IsReady outcome)
    × ((c.kind ≡ "Ready") ⊎ ((c.kind ≡ "Reconciling") × (c.status ≡ "True")))
condition_derived = derive_condition_lem text 9 outcome

abbrev marshal : DeploymentResult → Result (List ℕ)
marshal r = ok (b'{' ∷ b'}' ∷ [])

abbrev result : Option DeploymentResult
result = some (record {
  phase = "Ready";
  message = "";
  runtime = "kubernetes.io/container-runtime";
  strategy = "Rolling";
  service_units = [];
})

abbrev ready : Condition
ready = condition "Ready" "True" "DeploymentReady" "" 9
