-- ===== src/Resolution/Deployment/Examples.antt =====
-- A contract with a manifests repo, and the theorem about Deployments at it.
use environments.Common.{ℕ, ◌≡◌, refl, some, List, [], ◌∷◌, Result, ok, true}
use environments.Json.{
  Fields, str, bool, obj, arr, cons, nil, end, field, lookup, must_string, optional_string,
  optional_bool,
}
use environments.Resolution.Contract.{decode_contract}
use environments.Resolution.Contract.Laws.{ComesFrom}
use environments.Resolution.Deployment.{
  ResolvedDeployment, service_unit_entries, resolve_service_units, resolve_deployment_strategy,
  resolve_git_owner, resolve_repo_fields, resolve_manifests_repo, resolve_deployment_runtime,
  normalize_runtime, resolve_reconciliation_strategy, normalize_reconciliation_strategy,
  resolve_reconciliation, resolve_deployment_spec, resolve_deployment,
}
use environments.Resolution.Deployment.Laws.{IsDeploymentOf, resolve_deployment-IsDeploymentOf}
use environments.Resolution.Deployment.Contract.{
  to_contract_runtime, to_contract_reconciliation_strategy, to_contract-normalize,
}
use environments.Samples.{runtimes, strategies, raw, bytes}

abbrev contract : Fields ℕ
contract = field "serviceUnits" (arr (cons (str "app") (cons (str "worker") nil))) (
    field "runtime" (str "kubernetes") (
      field "strategy" (str "BlueGreen") (
        field "imageAutomation" (bool true) (
          field "manifestsRepo"
            (obj (field "url" (str "https://example.org/m.git") (field "ref" (str "main") end)))
            (field "reconciliationStrategy" (str "kustomize") end)))))

abbrev unmarshal : List ℕ → Result (Fields ℕ)
unmarshal _ = ok contract

abbrev resolved : ResolvedDeployment (List ℕ)
resolved = record {
  deployment = bytes;
  spec = record {
    service_units = "app" ∷ "worker" ∷ [];
    runtime = "kubernetes.io/container-runtime";
    strategy = "BlueGreen";
    git_owner = "";
    image_automation = true;
    manifests_repo = some (record {
      url = "https://example.org/m.git";
      ref = "main";
      path = "";
      strategy = "";
      clone_secret = "";
    });
    reconciliation_strategy = "Kustomize";
  };
}

resolve_deployment_test :
    resolve_deployment runtimes strategies raw unmarshal (some bytes) ≡ ok resolved
unfolding resolve_deployment resolve_deployment_spec resolve_service_units service_unit_entries
    resolve_deployment_strategy resolve_git_owner resolve_repo_fields resolve_manifests_repo
    resolve_deployment_runtime normalize_runtime resolve_reconciliation_strategy
    normalize_reconciliation_strategy resolve_reconciliation must_string optional_string
    optional_bool lookup decode_contract
resolve_deployment_test = refl

resolve_deployment-IsDeploymentOf_example :
    ComesFrom raw unmarshal
      (some bytes)
      bytes
      (λ m. IsDeploymentOf runtimes strategies m resolved.spec)
resolve_deployment-IsDeploymentOf_example =
    resolve_deployment-IsDeploymentOf runtimes strategies raw unmarshal (some bytes) resolved
      resolve_deployment_test

runtime_test : normalize_runtime runtimes 2 ≡ ok "knative.dev/service-runtime"
unfolding normalize_runtime
runtime_test = refl

mode_test : normalize_reconciliation_strategy strategies 0 ≡ ok "Imperative"
unfolding normalize_reconciliation_strategy
mode_test = refl

to_contract-normalize_example :
    (to_contract_runtime runtimes strategies "knative.dev/service-runtime" ≡ 2)
    × (to_contract_reconciliation_strategy runtimes strategies "Imperative" ≡ 0)
to_contract-normalize_example =
    to_contract-normalize runtimes strategies 2 0 "knative.dev/service-runtime" "Imperative"
      runtime_test mode_test
