-- ===== src/Deployment/Service/Laws.antt =====
-- What a reconciliation that reports no error has done.
use environments.Common.{
  String, ◌≡◌, refl, ap, inl, inr, Option, none, some, List, Error, Result, ok, err, arith,
  Result-cases, subst, ◌≢◌, ◌==◌, eq_iff, Bool-cases, ◌⊎◌,
}
use environments.Resolution.ServiceUnit.{UnitTypeEnum, ResolvedServiceUnit}
use environments.Resolution.Deployment.{ResolvedDeployment}
use environments.Intent.{DeploymentIntent, build}
use environments.Intent.Laws.{IsPlanOf, build-IsPlanOf}
use environments.Deployment.Provider.{Client}
use environments.Deployment.Strategy.{DeploymentResult, failure}
use environments.Deployment.Strategy.Laws.{AnyFailed, execute_runtime-IsExecuted}
use environments.Deployment.Executor.{Kustomizer, execute}
use environments.Deployment.Executor.Laws.{Achieved, execute-Achieved}
use environments.Deployment.Service.{
  ExecError, stopped, WriteResult, exec_result, failed_result, exec_error, reconcile_error,
  run_intent, reconcile,
}

exec_error-none :
    (r : Result DeploymentResult)
    → exec_error r ≡ none
    → (d : DeploymentResult) × (r ≡ ok d) × (failure (some d) ≡ none)
unfolding exec_error failed_result
exec_error-none (ok d) h = (d, refl, ground arith)
exec_error-none (err e) h = cc

pub exec_error-stopped : (e : Error) → exec_error (err e) ≡ some (stopped e)
unfolding exec_error
exec_error-stopped e = refl

pub exec_error-cases :
    (d : DeploymentResult)
    → ((d.phase ≡ "Failed") × ((x : ExecError) × (exec_error (ok d) ≡ some x)))
      ⊎ ((d.phase ≢ "Failed") × (exec_error (ok d) ≡ none))
unfolding exec_error failed_result failure
exec_error-cases d = elim (Bool-cases (d.phase == "Failed")) [
  | inl same ↦ inl ((eq_iff d.phase "Failed").0 same, rw same (_, refl))
  | inr other ↦ inr (ground (arith, eq_iff d.phase "Failed"), rw other refl)
]

reconcile_error-none :
    (x : Option ExecError) (e : Option Error) → reconcile_error x e ≡ none → (x ≡ none) × (e ≡ none)
unfolding reconcile_error
reconcile_error-none x e h = ground arith

module _ {W Object Float64 Enum Int32 : Type 0} (types : UnitTypeEnum Float64 Enum)
    (name_of namespace_of : Object → String) (client : Client W Int32) (text : Error → String)
    (kustomizer : Kustomizer W Object Int32) (write_result : WriteResult W Object) where
  -- The plan `i` was executed with the result `r`, in which no unit failed, and `r` was written.
  pub record IsReconciled (o : Object) (w : W) (i : DeploymentIntent Int32) (r : DeploymentResult)
      : Type 0 where
    pub returned : (execute client text kustomizer o (some i) w).0 ≡ ok r
    pub achieved : Achieved client text kustomizer o i w r
    pub no_failure : AnyFailed r.service_units → ⊥
    pub recorded :
        (write_result o (some r) none (execute client text kustomizer o (some i) w).1).0 ≡ none

  no_unit_failed :
      (o : Object) (w : W) (i : DeploymentIntent Int32) (r : DeploymentResult)
      → Achieved client text kustomizer o i w r
      → failure (some r) ≡ none
      → AnyFailed r.service_units
      → ⊥
  no_unit_failed o w i r (inl (_, returned)) h =
      (execute_runtime-IsExecuted client text i w r returned).failing.0 h
  no_unit_failed o w i r (inr (repo, _, _, _, _, no_units)) h = rw no_units λ a. a

  run_intent-IsReconciled :
      (o : Object) (w : W) (i : DeploymentIntent Int32)
      → (run_intent types name_of namespace_of client text kustomizer write_result o (ok i) w).0
        ≡ none
      → (r : DeploymentResult) × IsReconciled o w i r
  unfolding run_intent
  run_intent-IsReconciled o w i h =
      let run = execute client text kustomizer o (some i) w in
      let (no_error, written) = reconcile_error-none _ _ h in
      let (r, returned, not_failed) = exec_error-none run.0 no_error in
      let achieved = execute-Achieved client text kustomizer o i w r returned in
      (
        r,
        record {
          returned = returned;
          achieved = achieved;
          no_failure = no_unit_failed o w i r achieved not_failed;
          recorded =
              subst (λ x. (write_result o x none run.1).0 ≡ none) (ap exec_result returned)
                (subst (λ x. (write_result o (exec_result run.0) x run.1).0 ≡ none) no_error
                  written);
        },
      )

  -- A reconciliation that reports no error made a plan of the Deployment, executed it (live without
  -- a manifests repo, by a commit for Kustomize with one), saw no unit fail, and had the status
  -- writer accept the result.
  pub reconcile-IsReconciled :
      (depl : ResolvedDeployment Object) (sus : List (ResolvedServiceUnit Object Enum Int32))
      (w : W)
      → (reconcile types name_of namespace_of client text kustomizer write_result
          (some depl)
          sus
          w).0
        ≡ none
      → (i : DeploymentIntent Int32) × IsPlanOf types name_of namespace_of depl sus i
        × ((r : DeploymentResult) × IsReconciled depl.deployment w i r)
  unfolding reconcile run_intent
  reconcile-IsReconciled depl sus w h =
      elim (Result-cases (build name_of namespace_of types (some depl) sus)) [
        | inl (i, planned) ↦ (
          i,
          build-IsPlanOf types name_of namespace_of depl sus i planned,
          run_intent-IsReconciled depl.deployment w i (rw (planned, reconcile) at h),
        )
        | inr (e, refused) ↦ cc (rw (refused, reconcile, run_intent) at h)
      ]
