-- ===== src/Deployment/Strategy/Laws.antt =====
-- The phase of a rollout against its units, and when an execution can succeed.
use environments.Common.{
  String, ◌≡◌, refl, sym, ap, ◌∙◌, Result, ◌≢◌, ◌↔◌, ◌⊎◌, Bool, true, false, none, some, List, [],
  ◌∷◌, map, All, Error, ok, arith, eq_iff, subst, ok-injective,
}
use environments.Intent.{ServiceUnitIntent, DeploymentIntent}
use environments.Deployment.Provider.{Client, ServiceUnitResult, apply_service_unit, teardown}
use environments.Deployment.Strategy.Rolling.{AllAttempted, apply_units-AllAttempted}
use environments.Deployment.Strategy.{
  DeploymentResult, phase_loop, derive_deployment_phase, unit_result, apply_units, execute_rolling,
  execute_k8s, execute_runtime, teardown_runtime, failed_units, failure,
}

abbrev pub AnyFailed : List ServiceUnitResult → Type 0
AnyFailed [] = ⊥
AnyFailed (r ∷ rs) = (r.phase ≡ "Failed") ⊎ AnyFailed rs

abbrev pub AllReady : List ServiceUnitResult → Type 0
AllReady = All (λ r. r.phase ≡ "Ready")

phase_loop-Failed_iff :
    (b : Bool) (rs : List ServiceUnitResult) → (phase_loop b rs ≡ "Failed") ↔ AnyFailed rs
unfolding phase_loop
phase_loop-Failed_iff true [] = (λ h. ground (arith, eq_iff "Ready" "Failed"), λ h. absurd h)
phase_loop-Failed_iff false [] = (λ h. ground (arith, eq_iff "Deploying" "Failed"), λ h. absurd h)
phase_loop-Failed_iff b (r ∷ rs) = ground (
  arith,
  eq_iff r.phase "Ready",
  eq_iff r.phase "Failed",
  phase_loop-Failed_iff b rs,
  phase_loop-Failed_iff false rs,
)

phase_loop-ne-Pending : (b : Bool) (rs : List ServiceUnitResult) → phase_loop b rs ≢ "Pending"
unfolding phase_loop
phase_loop-ne-Pending true [] = ground (arith, eq_iff "Ready" "Pending")
phase_loop-ne-Pending false [] = ground (arith, eq_iff "Deploying" "Pending")
phase_loop-ne-Pending b (r ∷ rs) = ground (
  arith,
  eq_iff r.phase "Ready",
  eq_iff r.phase "Failed",
  eq_iff "Failed" "Pending",
  phase_loop-ne-Pending b rs,
  phase_loop-ne-Pending false rs,
)

phase_loop-Ready_iff :
    (b : Bool) (rs : List ServiceUnitResult)
    → (phase_loop b rs ≡ "Ready") ↔ ((b ≡ true) × AllReady rs)
unfolding phase_loop
phase_loop-Ready_iff true [] = (λ h. (refl, tt), λ h. refl)
phase_loop-Ready_iff false [] = (λ h. ground (arith, eq_iff "Deploying" "Ready"), λ h. cc (h.0))
phase_loop-Ready_iff b (r ∷ rs) = ground (
  arith,
  eq_iff r.phase "Ready",
  eq_iff r.phase "Failed",
  eq_iff "Failed" "Ready",
  phase_loop-Ready_iff b rs,
  phase_loop-Ready_iff false rs,
)

-- The phase of a rollout is Pending exactly without units, Failed exactly if a unit failed, and
-- Ready exactly if there are units and all are ready.
pub derive_deployment_phase_lem :
    (rs : List ServiceUnitResult)
    → ((derive_deployment_phase rs ≡ "Pending") ↔ (rs ≡ []))
      × ((derive_deployment_phase rs ≡ "Failed") ↔ AnyFailed rs)
      × ((derive_deployment_phase rs ≡ "Ready") ↔ ((rs ≢ []) × AllReady rs))
unfolding derive_deployment_phase
derive_deployment_phase_lem [] = (
  (λ _. refl, λ _. refl),
  (λ h. ground (arith, eq_iff "Pending" "Failed"), λ h. absurd h),
  (λ h. ground (arith, eq_iff "Pending" "Ready"), λ h. absurd (h.0 refl)),
)
derive_deployment_phase_lem (r ∷ rs) =
    let (to, from) = phase_loop-Ready_iff true (r ∷ rs) in
    (
      (λ h. absurd (phase_loop-ne-Pending true (r ∷ rs) h), λ h. cc),
      phase_loop-Failed_iff true (r ∷ rs),
      (λ h. (λ e. cc, (to h).1), λ h. from (refl, h.1)),
    )

failed_units-nil_iff : (rs : List ServiceUnitResult) → (failed_units rs ≡ []) ↔ (AnyFailed rs → ⊥)
unfolding failed_units
failed_units-nil_iff [] = (λ h a. a, λ h. refl)
failed_units-nil_iff (r ∷ rs) =
    ground (arith, eq_iff r.phase "Failed", eq_iff r.error "", failed_units-nil_iff rs)

module _ {W Int32 : Type 0} (client : Client W Int32) (text : Error → String) where
  apply_service_unit-name :
      (intent : DeploymentIntent Int32) (su : ServiceUnitIntent Int32) (w : W)
      → (unit_result client text intent su (apply_service_unit client intent su w).0).name ≡ su.name
  unfolding unit_result apply_service_unit
  apply_service_unit-name intent su w = ground arith

  apply_units-names :
      (intent : DeploymentIntent Int32) (sus : List (ServiceUnitIntent Int32)) (w : W)
      → map (λ r. r.name) (apply_units client text intent sus w).0 ≡ map (λ u. u.name) sus
  unfolding apply_units
  apply_units-names intent [] w = refl
  apply_units-names intent (su ∷ sus) w =
      let w' = (apply_service_unit client intent su w).1 in
      λ j. apply_service_unit-name intent su w j ∷ apply_units-names intent sus w' j

  -- What an execution that returns a result has done.
  pub record IsExecuted (intent : DeploymentIntent Int32) (w : W) (r : DeploymentResult) (end : W)
      : Type 0 where
    pub runtime : intent.runtime ≡ "kubernetes.io/container-runtime"
    pub strategy : (intent.strategy ≡ "Rolling") ⊎ (intent.strategy ≡ "BlueGreen")
    pub attempted : map (λ u. u.name) r.service_units ≡ map (λ u. u.name) intent.service_units
    pub calls : AllAttempted client text intent intent.service_units w r.service_units end
    pub phase : r.phase ≡ derive_deployment_phase r.service_units
    pub failing : (failure (some r) ≡ none) ↔ (AnyFailed r.service_units → ⊥)

  failure-none_iff :
      (r : DeploymentResult)
      → r.phase ≡ derive_deployment_phase r.service_units
      → (failure (some r) ≡ none) ↔ (AnyFailed r.service_units → ⊥)
  unfolding failure
  failure-none_iff r h =
      let (to, from) = (derive_deployment_phase_lem r.service_units).1 in
      ground (arith, eq_iff r.phase "Failed", to, from)

  execute_rolling-IsExecuted :
      (intent : DeploymentIntent Int32) (w : W) (r : DeploymentResult)
      → intent.runtime ≡ "kubernetes.io/container-runtime"
      → (intent.strategy ≡ "Rolling") ⊎ (intent.strategy ≡ "BlueGreen")
      → (execute_rolling client text intent w).0 ≡ ok r
      → IsExecuted intent w r (execute_rolling client text intent w).1
  unfolding execute_rolling
  execute_rolling-IsExecuted intent w r runtime strategy h =
      subst (λ r. IsExecuted intent w r (execute_rolling client text intent w).1) (ok-injective h)
        (record {
          runtime = runtime;
          strategy = strategy;
          attempted = apply_units-names intent intent.service_units w;
          calls = apply_units-AllAttempted client text intent intent.service_units w;
          phase = refl;
          failing = failure-none_iff _ refl;
        })

  execute_runtime_lem :
      (intent : DeploymentIntent Int32) (w : W) (r : DeploymentResult)
      → (execute_runtime client text intent w).0 ≡ ok r
      → execute_runtime client text intent w ≡ execute_rolling client text intent w
  unfolding execute_runtime execute_k8s
  execute_runtime_lem intent w r h = ground arith

  -- An execution returns a result only for the Kubernetes runtime and for the strategies Rolling
  -- and BlueGreen. Then every unit of the plan was attempted, in order, whichever failed: its
  -- Deployment was patched, then its Service, then its Deployment read, until one of the calls
  -- failed; its result is failed with the text of that error, or ready exactly if the replicas that
  -- are asked for are ready, else deploying. The phase is derived from the units, and the result
  -- reports a failure exactly if one of them failed.
  pub execute_runtime-IsExecuted :
      (intent : DeploymentIntent Int32) (w : W) (r : DeploymentResult)
      → (execute_runtime client text intent w).0 ≡ ok r
      → IsExecuted intent w r (execute_runtime client text intent w).1
  unfolding execute_runtime execute_k8s
  execute_runtime-IsExecuted intent w r h =
      let same = execute_runtime_lem intent w r h in
      subst (λ (m : Result DeploymentResult × W). IsExecuted intent w r m.1) (sym same)
        (execute_rolling-IsExecuted intent w r
          (ground (arith, eq_iff intent.runtime "kubernetes.io/container-runtime"))
          (ground (arith, eq_iff intent.strategy "Rolling", eq_iff intent.strategy "BlueGreen"))
          (ap (λ (m : Result DeploymentResult × W). m.0) (sym same) ∙ h))

pub teardown_runtime-kubernetes :
    {W Int32 : Type 0} (client : Client W Int32) (intent : DeploymentIntent Int32) (w : W)
    → intent.runtime ≡ "kubernetes.io/container-runtime"
    → teardown_runtime client intent w ≡ teardown client intent w
unfolding teardown_runtime
teardown_runtime-kubernetes client intent w h =
    ground (arith, eq_iff intent.runtime "kubernetes.io/container-runtime")
