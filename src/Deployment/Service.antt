-- ===== src/Deployment/Service.antt =====
-- pkg/apis/deployment/application/service.go. The status writer is an argument here; the
-- module Recording models it.
pub mod Laws
pub mod Teardown
mod Examples
use environments.Common.{
  String, Option, none, some, List, [], ◌∷◌, Error, errorf, Result, ok, err, Effect,
}
use environments.Resolution.ServiceUnit.{UnitTypeEnum, ResolvedServiceUnit}
use environments.Resolution.Deployment.{ResolvedDeployment}
use environments.Intent.{DeploymentIntent, build, build_teardown}
use environments.Deployment.Provider.{Client}
use environments.Deployment.Strategy.{DeploymentResult, DeploymentFailed, failure}
use environments.Deployment.Executor.{Kustomizer, execute, teardown_executed}

-- the variable `execErr`: an error of the execution, or a rollout that failed
pub data ExecError : Type 0 where
  stopped : Error → ExecError
  failed : DeploymentFailed → ExecError

pub data ReconcileError : Type 0 where
  unplanned : Error → ReconcileError
  unwritten : Error → ReconcileError
  executed : ExecError → ReconcileError
  -- errors.Join with the labelled error of the status write
  joined : ExecError → Error → ReconcileError

abbrev pub WriteResult : Type 0 → Type 0 → Type 0
WriteResult W Object = Object → Option DeploymentResult → Option ExecError → Effect W

abbrev pub exec_result : Result DeploymentResult → Option DeploymentResult
exec_result (ok r) = some r
exec_result (err e) = none

failed_result : Option DeploymentFailed → Option ExecError
failed_result none = none
failed_result (some f) = some (failed f)

pub exec_error : Result DeploymentResult → Option ExecError
unfolding failed_result
exec_error (ok r) = failed_result (failure (some r))
exec_error (err e) = some (stopped e)

reconcile_error : Option ExecError → Option Error → Option ReconcileError
reconcile_error (some x) (some e) = some (joined x e)
reconcile_error none (some e) = some (unwritten e)
reconcile_error (some x) none = some (executed x)
reconcile_error none none = none

module _ {W Object Float64 Enum Int32 : Type 0} (types : UnitTypeEnum Float64 Enum)
    (name_of namespace_of : Object → String) (client : Client W Int32) (text : Error → String)
    (kustomizer : Kustomizer W Object Int32) (write_result : WriteResult W Object) where
  run_intent : Object → Result (DeploymentIntent Int32) → W → Option ReconcileError × W
  unfolding exec_error reconcile_error
  run_intent o (err e) w = (some (unplanned e), w)
  run_intent o (ok intent) w =
      let (result, w) = execute client text kustomizer o (some intent) w in
      let exec_err = exec_error result in
      let (write_err, w) = write_result o (exec_result result) exec_err w in
      (reconcile_error exec_err write_err, w)

  -- `Build` refuses a nil Deployment before anything of it is read.
  pub reconcile :
      Option (ResolvedDeployment Object)
      → List (ResolvedServiceUnit Object Enum Int32)
      → W
      → Option ReconcileError × W
  unfolding run_intent
  reconcile none service_units w =
      (some (unplanned (errorf "nil ResolvedDeployment (resolver bug)")), w)
  reconcile (some depl) service_units w =
      run_intent depl.deployment (build name_of namespace_of types (some depl) service_units) w

module _ {W Object Int32 : Type 0} (name_of namespace_of : Object → String)
    (client : Client W Int32) (text : Error → String) (kustomizer : Kustomizer W Object Int32) where
  teardown_planned : Object → Result (DeploymentIntent Int32) → W → List Error × W
  teardown_planned o (err e) w = (e ∷ [], w)
  teardown_planned o (ok intent) w = teardown_executed client text kustomizer o (some intent) w

  -- `zero32` is Go's zero, which the bare units of a teardown carry.
  pub teardown_deployment : Int32 → Option (ResolvedDeployment Object) → W → List Error × W
  unfolding teardown_planned
  teardown_deployment zero32 none w = (errorf "nil ResolvedDeployment (resolver bug)" ∷ [], w)
  teardown_deployment zero32 (some depl) w =
      teardown_planned depl.deployment (build_teardown name_of namespace_of zero32 (some depl)) w
