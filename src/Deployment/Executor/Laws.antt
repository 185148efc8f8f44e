-- ===== src/Deployment/Executor/Laws.antt =====
-- When an execution of an intent succeeds.
use environments.Common.{
  String, ◌≡◌, refl, ◌⊎◌, inl, inr, Option, none, some, [], Error, ok, arith, eq_iff,
}
use environments.Resolution.Deployment.{reconciliation_kustomize}
use environments.Intent.{DeploymentIntent, ManifestsRepo}
use environments.Deployment.Provider.{Client, teardown}
use environments.Deployment.Strategy.{DeploymentResult, execute_runtime}
use environments.Deployment.Strategy.Laws.{teardown_runtime-kubernetes}
use environments.Deployment.Executor.{
  Kustomizer, execute, execute_repo, teardown_repo, teardown_executed,
}

module _ {W Object Int32 : Type 0} (client : Client W Int32) (text : Error → String)
    (kustomizer : Kustomizer W Object Int32) where
  -- What a successful execution of an intent has done.
  abbrev pub Achieved : Object → DeploymentIntent Int32 → W → DeploymentResult → Type 0
  Achieved o intent w r =
      ((intent.manifests_repo ≡ none) × ((execute_runtime client text intent w).0 ≡ ok r))
      ⊎ ((repo : ManifestsRepo) × (intent.manifests_repo ≡ some repo)
          × (intent.reconciliation_strategy ≡ reconciliation_kustomize)
          × ((kustomizer.reconcile_kustomization o intent repo.url repo.ref.commit repo.path w).0
              ≡ none)
          × (r.phase ≡ "Reconciling")
          × (r.service_units ≡ []))

  execute_repo-Achieved :
      (o : Object) (intent : DeploymentIntent Int32) (repo : Option ManifestsRepo) (w : W)
      (r : DeploymentResult)
      → intent.manifests_repo ≡ repo
      → (execute_repo client text kustomizer o intent repo w).0 ≡ ok r
      → Achieved o intent w r
  unfolding execute_repo
  execute_repo-Achieved o intent none w r e h = inl (e, h)
  execute_repo-Achieved o intent (some repo) w r e h = inr (
    repo,
    e,
    ground (arith, eq_iff intent.reconciliation_strategy reconciliation_kustomize),
    ground arith,
    ground arith,
    ground arith,
  )

  pub execute-Achieved :
      (o : Object) (intent : DeploymentIntent Int32) (w : W) (r : DeploymentResult)
      → (execute client text kustomizer o (some intent) w).0 ≡ ok r
      → Achieved o intent w r
  unfolding execute
  execute-Achieved o intent w r h = execute_repo-Achieved o intent intent.manifests_repo w r refl h

  teardown_repo-live :
      (o : Object) (intent : DeploymentIntent Int32) (repo : Option ManifestsRepo) (w : W)
      → intent.runtime ≡ "kubernetes.io/container-runtime"
      → repo ≡ none
      → teardown_repo client text kustomizer o intent repo w ≡ teardown client intent w
  unfolding teardown_repo
  teardown_repo-live o intent none w runtime h = teardown_runtime-kubernetes client intent w runtime
  teardown_repo-live o intent (some r) w runtime h = cc

  pub teardown_executed-live :
      (o : Object) (intent : DeploymentIntent Int32) (w : W)
      → intent.runtime ≡ "kubernetes.io/container-runtime"
      → intent.manifests_repo ≡ none
      → teardown_executed client text kustomizer o (some intent) w ≡ teardown client intent w
  unfolding teardown_executed
  teardown_executed-live o intent w = teardown_repo-live o intent intent.manifests_repo w
