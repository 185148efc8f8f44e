-- ===== src/Resolution/Deployment/Contract.antt =====
-- resolution/deployment/contract/contract_adapter.go: the projection of a resolved Deployment into
-- the wire contract, and its agreement with resolution. The wire messages are kept as records of
-- the fields that the adapter fills.
use environments.Common.{
  String, ◌≡◌, Bool, Option, none, some, List, ◌==◌, eq_iff, if◌then◌else◌, ok, arith,
}
use environments.Resolution.Deployment.{
  RuntimeEnum, StrategyEnum, runtime_kubernetes, runtime_knative, reconciliation_kustomize,
  reconciliation_helm, ResolvedManifestsRepo, ResolvedDeploymentSpec, normalize_runtime,
  normalize_reconciliation_strategy,
}

pub record DeploymentSpec (Runtimes Strategies : Type 0) : Type 0 where
  pub service_units : List String
  pub image_automation : Bool
  pub runtime : Runtimes
  pub reconciliation_strategy : Strategies
  pub manifests_repo : Option ResolvedManifestsRepo

module _ {Float64 Runtimes Strategies : Type 0} (runtimes : RuntimeEnum Float64 Runtimes)
    (strategies : StrategyEnum Float64 Strategies) where
  pub to_contract_runtime : String → Runtimes
  to_contract_runtime rt =
      if rt == runtime_kubernetes
      then runtimes.kubernetes_container
      else if rt == runtime_knative
      then runtimes.knative_service
      else runtimes.unspecified

  pub to_contract_reconciliation_strategy : String → Strategies
  to_contract_reconciliation_strategy rs =
      if rs == reconciliation_kustomize
      then strategies.kustomize
      else if rs == reconciliation_helm
      then strategies.helm
      else strategies.unspecified

  -- a nil spec projects to nil
  pub to_deployment_contract :
      Option ResolvedDeploymentSpec → Option (DeploymentSpec Runtimes Strategies)
  to_deployment_contract none = none
  to_deployment_contract (some s) = some (record {
    service_units = s.service_units;
    image_automation = s.image_automation;
    runtime = to_contract_runtime s.runtime;
    reconciliation_strategy = to_contract_reconciliation_strategy s.reconciliation_strategy;
    manifests_repo = s.manifests_repo;
  })

  to_contract_runtime-normalize :
      (rt : Runtimes) (runtime : String)
      → normalize_runtime runtimes rt ≡ ok runtime
      → to_contract_runtime runtime ≡ rt
  unfolding to_contract_runtime normalize_runtime
  to_contract_runtime-normalize rt runtime h = ground (
    arith,
    runtimes.same_iff rt runtimes.kubernetes_container,
    runtimes.same_iff rt runtimes.knative_service,
    eq_iff runtime runtime_kubernetes,
    eq_iff runtime runtime_knative,
    eq_iff runtime_knative runtime_kubernetes,
  )

  to_contract_strategy-normalize :
      (rs : Strategies) (mode : String)
      → normalize_reconciliation_strategy strategies rs ≡ ok mode
      → to_contract_reconciliation_strategy mode ≡ rs
  unfolding to_contract_reconciliation_strategy normalize_reconciliation_strategy
  to_contract_strategy-normalize rs mode h = ground (
    arith,
    strategies.same_iff rs strategies.kustomize,
    strategies.same_iff rs strategies.helm,
    strategies.same_iff rs strategies.unspecified,
    eq_iff mode reconciliation_kustomize,
    eq_iff mode reconciliation_helm,
    eq_iff reconciliation_helm reconciliation_kustomize,
    eq_iff "Imperative" "Kustomize",
    eq_iff "Imperative" "Helm",
  )

  -- The enums that resolution accepts are projected back to themselves: the runtime, and the
  -- reconciliation mode.
  pub to_contract-normalize :
      (rt : Runtimes) (rs : Strategies) (runtime mode : String)
      → normalize_runtime runtimes rt ≡ ok runtime
      → normalize_reconciliation_strategy strategies rs ≡ ok mode
      → (to_contract_runtime runtime ≡ rt) × (to_contract_reconciliation_strategy mode ≡ rs)
  to_contract-normalize rt rs runtime mode p q =
      (to_contract_runtime-normalize rt runtime p, to_contract_strategy-normalize rs mode q)
