-- ===== src/Deployment/Strategy/Examples.antt =====
-- One unit that is applied, and the phases of mixed rollouts.
use environments.Common.{String, ◌≡◌, refl, ◌≢◌, ◌↔◌, List, [], ◌∷◌, ok}
use environments.Deployment.Provider.{ServiceUnitResult, apply_service_unit, is_deployment_ready}
use environments.Samples.{client, text, intent}
use environments.Deployment.Strategy.{
  DeploymentResult, derive_deployment_phase, execute_rolling, execute_k8s, execute_runtime,
  apply_units,
}
use environments.Deployment.Strategy.Laws.{
  AnyFailed, AllReady, IsExecuted, execute_runtime-IsExecuted, derive_deployment_phase_lem,
}

abbrev result_of : String → ServiceUnitResult
result_of phase = record {
  name = "app";
  phase = phase;
  image = "registry/app:1";
  runtime = "kubernetes.io/container-runtime";
  message = "";
  error = "";
}

abbrev mixed : List ServiceUnitResult
mixed = result_of "Ready" ∷ result_of "Failed" ∷ result_of "Deploying" ∷ []

derive_deployment_phase_lem_example :
    ((derive_deployment_phase mixed ≡ "Pending") ↔ (mixed ≡ []))
    × ((derive_deployment_phase mixed ≡ "Failed") ↔ AnyFailed mixed)
    × ((derive_deployment_phase mixed ≡ "Ready") ↔ ((mixed ≢ []) × AllReady mixed))
derive_deployment_phase_lem_example = derive_deployment_phase_lem mixed

abbrev deployed : DeploymentResult
deployed = record {
  phase = "Ready";
  message = "";
  runtime = "kubernetes.io/container-runtime";
  strategy = "Rolling";
  service_units = result_of "Ready" ∷ [];
}

execute_runtime_test : (execute_runtime client text intent 0).0 ≡ ok deployed
unfolding execute_runtime execute_k8s execute_rolling apply_units apply_service_unit
    is_deployment_ready derive_deployment_phase
execute_runtime_test = refl

execute_runtime-IsExecuted_example :
    IsExecuted client text intent 0 deployed (execute_runtime client text intent 0).1
execute_runtime-IsExecuted_example =
    execute_runtime-IsExecuted client text intent 0 deployed execute_runtime_test
