-- ===== src/Deployment/Executor.antt =====
-- pkg/apis/deployment/reconcile/reconciliation.go: applying live, or committing manifests for Flux.
-- The provider that clones, renders and pushes (pkg/apis/deployment/api/kustomization.go) is an
-- interface here. An error that aggregates others is their list, nil the empty list.
pub mod Laws
use environments.Common.{
  String, Option, none, some, List, [], ◌∷◌, ◌==◌, if◌then◌else◌, Error, errorf, errorf_of, Result,
  ok, err, Exec, Effect, after,
}
use environments.Resolution.Deployment.{reconciliation_kustomize, reconciliation_helm}
use environments.Intent.{DeploymentIntent, ManifestsRepo}
use environments.Deployment.Provider.{Client}
use environments.Deployment.Strategy.{DeploymentResult, execute_runtime, teardown_runtime}

pub record Kustomizer (W Object Int32 : Type 0) : Type 0 where
  -- the CR, the intent, then url, ref and path of the repo
  pub reconcile_kustomization :
      Object → DeploymentIntent Int32 → String → String → String → Effect W
  pub teardown_flux_resources : Object → Effect W

abbrev errors_of : Option Error → List Error
errors_of none = []
errors_of (some e) = e ∷ []

-- Flux applies the workloads later: a result without units.
flux_result : {Int32 : Type 0} → DeploymentIntent Int32 → DeploymentResult
flux_result intent = record {
  phase = "Reconciling";
  message = "";
  runtime = intent.runtime;
  strategy = intent.strategy;
  service_units = [];
}

module _ {W Object Int32 : Type 0} (client : Client W Int32) (text : Error → String)
    (kustomizer : Kustomizer W Object Int32) where
  execute_repo : Object → DeploymentIntent Int32 → Option ManifestsRepo → Exec W DeploymentResult
  unfolding flux_result
  execute_repo o intent none w = execute_runtime client text intent w
  execute_repo o intent (some repo) w =
      if intent.reconciliation_strategy == reconciliation_kustomize
      then (after (kustomizer.reconcile_kustomization o intent repo.url repo.ref.commit repo.path w)
          (λ w'. (ok (flux_result intent), w')))
      else if intent.reconciliation_strategy == reconciliation_helm
      then (err (errorf "helm reconciliation not implemented"), w)
      else (err (errorf_of "unsupported reconciliation strategy" intent.reconciliation_strategy), w)

  unfoldable pub execute : Object → Option (DeploymentIntent Int32) → Exec W DeploymentResult
  unfolding execute_repo
  execute o none w = (err (errorf "nil deployment intent"), w)
  execute o (some intent) w = execute_repo o intent intent.manifests_repo w

  flux_errors : Option Error × W → List Error × W
  flux_errors (e, w) = (errors_of e, w)

  teardown_repo : Object → DeploymentIntent Int32 → Option ManifestsRepo → W → List Error × W
  unfolding flux_errors
  teardown_repo o intent none w = teardown_runtime client intent w
  teardown_repo o intent (some repo) w =
      if intent.reconciliation_strategy == reconciliation_kustomize
      then flux_errors (kustomizer.teardown_flux_resources o w)
      else if intent.reconciliation_strategy == reconciliation_helm
      then (errorf "helm reconciliation not implemented" ∷ [], w)
      else (errorf_of "unsupported reconciliation strategy" intent.reconciliation_strategy ∷ [], w)

  pub teardown_executed : Object → Option (DeploymentIntent Int32) → W → List Error × W
  unfolding teardown_repo
  teardown_executed o none w = (errorf "nil deployment intent" ∷ [], w)
  teardown_executed o (some intent) w = teardown_repo o intent intent.manifests_repo w
