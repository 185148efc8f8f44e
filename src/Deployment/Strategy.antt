-- ===== src/Deployment/Strategy.antt =====
-- pkg/apis/deployment/strategy/{runtime,kubernetes}.go and the result of a rollout in
-- pkg/apis/deployment/domain. `text` is an error's Error(). The times in the results are left out.
pub mod Rolling
pub mod Laws
mod Examples
use environments.Common.{
  String, Bool, true, false, Option, none, some, List, [], ◌∷◌, ◌==◌, ◌||◌, not, if◌then◌else◌,
  Error, errorf, errorf_of, Result, ok, err, Exec,
}
use environments.Resolution.Deployment.{
  runtime_kubernetes, runtime_knative, runtime_ecs, strategy_rolling, strategy_blue_green,
}
use environments.Intent.{ServiceUnitIntent, DeploymentIntent}
use environments.Deployment.Provider.{Client, ServiceUnitResult, apply_service_unit, teardown}

pub record DeploymentResult : Type 0 where
  pub phase : String
  pub message : String
  pub runtime : String
  pub strategy : String
  pub service_units : List ServiceUnitResult

-- the loop of deriveDeploymentPhase, with `allReady` as its variable
phase_loop : Bool → List ServiceUnitResult → String
phase_loop all_ready [] = if all_ready then "Ready" else "Deploying"
phase_loop all_ready (r ∷ rs) =
    let rest = phase_loop (if r.phase == "Ready" then all_ready else false) rs in
    if r.phase == "Failed" then "Failed" else rest

unfoldable pub derive_deployment_phase : List ServiceUnitResult → String
unfolding phase_loop
derive_deployment_phase [] = "Pending"
derive_deployment_phase (r ∷ rs) = phase_loop true (r ∷ rs)

pub supports : String → Bool
supports strategy = strategy == strategy_rolling || strategy == strategy_blue_green

module _ {W Int32 : Type 0} (client : Client W Int32) (text : Error → String) where
  -- A unit that cannot be applied is recorded, and does not stop the others.
  unit_result :
      DeploymentIntent Int32
      → ServiceUnitIntent Int32
      → Result ServiceUnitResult
      → ServiceUnitResult
  unit_result intent su (ok r) = r
  unit_result intent su (err e) = record {
    name = su.name;
    phase = "Failed";
    image = su.image;
    runtime = intent.runtime;
    message = "";
    error = text e;
  }

  -- the loop of executeRolling
  unfoldable pub apply_units :
      DeploymentIntent Int32 → List (ServiceUnitIntent Int32) → W → List ServiceUnitResult × W
  unfolding unit_result
  apply_units intent [] w = ([], w)
  apply_units intent (su ∷ rest) w =
      let (r, w) = apply_service_unit client intent su w in
      let (rs, w) = apply_units intent rest w in (unit_result intent su r ∷ rs, w)

  unfoldable pub execute_rolling : DeploymentIntent Int32 → Exec W DeploymentResult
  execute_rolling intent w =
      let (results, w) = apply_units intent intent.service_units w in
      (
        ok (record {
          phase = derive_deployment_phase results;
          message = "";
          runtime = intent.runtime;
          strategy = intent.strategy;
          service_units = results;
        }),
        w,
      )

  -- BlueGreen is mapped to the rolling behaviour.
  execute_blue_green : DeploymentIntent Int32 → Exec W DeploymentResult
  execute_blue_green intent w = execute_rolling intent w

  unfoldable pub execute_k8s : DeploymentIntent Int32 → Exec W DeploymentResult
  unfolding execute_blue_green supports
  execute_k8s intent w =
      if not (supports intent.strategy)
      then (err (errorf_of "strategy not supported for runtime" intent.strategy), w)
      else if intent.strategy == strategy_rolling
      then execute_rolling intent w
      else if intent.strategy == strategy_blue_green
      then execute_blue_green intent w
      else (err (errorf_of "unknown strategy" intent.strategy), w)

  unfoldable pub execute_runtime : DeploymentIntent Int32 → Exec W DeploymentResult
  execute_runtime intent w =
      if intent.runtime == runtime_kubernetes
      then execute_k8s intent w
      else if intent.runtime == runtime_knative
      then (err (errorf "knative runtime not implemented"), w)
      else if intent.runtime == runtime_ecs
      then (err (errorf "ecs runtime not implemented"), w)
      else (err (errorf_of "unsupported runtime" intent.runtime), w)

module _ {W Int32 : Type 0} (client : Client W Int32) where
  pub teardown_runtime : DeploymentIntent Int32 → W → List Error × W
  teardown_runtime intent w =
      if intent.runtime == runtime_kubernetes
      then teardown client intent w
      else if intent.runtime == runtime_knative
      then (errorf "knative runtime not implemented" ∷ [], w)
      else if intent.runtime == runtime_ecs
      then (errorf "ecs runtime not implemented" ∷ [], w)
      else (errorf_of "unsupported runtime" intent.runtime ∷ [], w)

-- What `Failure` says of one unit, and the error that it makes of them; every one of these is an
-- ErrDeploymentFailed.
pub data FailedUnit : Type 0 where
  because : String → String → FailedUnit
  unexplained : String → FailedUnit

pub data DeploymentFailed : Type 0 where
  units : List FailedUnit → DeploymentFailed
  message : String → DeploymentFailed
  bare : DeploymentFailed

pub failed_units : List ServiceUnitResult → List FailedUnit
failed_units [] = []
failed_units (r ∷ rs) =
    let rest = failed_units rs in
    if not (r.phase == "Failed")
    then rest
    else (if r.error == "" then unexplained r.name else because r.name r.error) ∷ rest

failure_cases : String → List FailedUnit → DeploymentFailed
failure_cases text (u ∷ us) = units (u ∷ us)
failure_cases text [] = if text == "" then bare else message text

unfoldable pub failure : Option DeploymentResult → Option DeploymentFailed
unfolding failure_cases
failure none = none
failure (some r) =
    if not (r.phase == "Failed")
    then none
    else some (failure_cases r.message (failed_units r.service_units))
