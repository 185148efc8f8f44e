-- ===== src/Deployment/Service/Examples.antt =====
-- A reconciliation that applies one unit, and a teardown that is refused the deletion of Services.
use environments.Common.{ℕ, String, ◌≡◌, refl, none, some, Bool, true, All}
use environments.Intent.{
  DeploymentIntent, build, unit_intents, resolve_service_unit_intent, new_deployment_intent,
}
use environments.Intent.Laws.{IsPlanOf}
use environments.Deployment.Provider.{apply_service_unit, is_deployment_ready}
use environments.Deployment.Strategy.{
  DeploymentResult, execute_runtime, execute_k8s, execute_rolling, apply_units,
  derive_deployment_phase, failure,
}
use environments.Deployment.Executor.{Kustomizer, execute}
use environments.Samples.{
  types, client, text, name_of, namespace_of, units, resolved, exists, refusing_client, deletes,
}
use environments.Deployment.Service.{WriteResult, run_intent, reconcile, teardown_deployment}
use environments.Deployment.Service.Teardown.{Settled, teardown_deployment-Settled}
use environments.Deployment.Service.Laws.{IsReconciled, reconcile-IsReconciled}

abbrev kustomizer : Kustomizer ℕ String ℕ
kustomizer = record {
  reconcile_kustomization = λ o intent url ref path w. (none, w);
  teardown_flux_resources = λ o w. (none, w);
}

abbrev write_result : WriteResult ℕ String
write_result o result error w = (none, w)

reconcile_test :
    (reconcile types name_of namespace_of client text kustomizer write_result
      (some resolved)
      units
      0).0
    ≡ none
unfolding reconcile run_intent build unit_intents resolve_service_unit_intent new_deployment_intent
    execute execute_runtime execute_k8s execute_rolling apply_units apply_service_unit
    is_deployment_ready derive_deployment_phase failure
reconcile_test = refl

reconcile-IsReconciled_example :
    (i : DeploymentIntent ℕ) × IsPlanOf types name_of namespace_of resolved units i
    × ((r : DeploymentResult) × IsReconciled types name_of namespace_of client text kustomizer
          write_result "shop" 0 i r)
reconcile-IsReconciled_example =
    reconcile-IsReconciled types name_of namespace_of client text kustomizer write_result resolved
      units 0 reconcile_test

abbrev no_flux : Kustomizer Bool String ℕ
no_flux = record {
  reconcile_kustomization = λ o intent url ref path w. (none, w);
  teardown_flux_resources = λ o w. (none, w);
}

teardown_deployment-Settled_example :
    All
      (Settled name_of namespace_of refusing_client text no_flux exists deletes "apps" (
        teardown_deployment name_of namespace_of refusing_client text no_flux 0
          (some resolved)
          true))
      resolved.spec.service_units
teardown_deployment-Settled_example =
    teardown_deployment-Settled name_of namespace_of refusing_client text no_flux exists deletes 0
      resolved true refl refl
