-- ===== src/Deployment/Recording/Laws.antt =====
-- What the recorded condition says of an execution.
use environments.Common.{
  ℕ, String, ◌≡◌, refl, sym, ◌∙◌, ◌≢◌, ◌↔◌, ◌⊎◌, inl, inr, some, ◌==◌, Result, ok, err, arith,
  eq_iff, Bool-cases,
}
use environments.Core.Conditions.{Condition}
use environments.Deployment.Strategy.{DeploymentResult}
use environments.Deployment.Service.{ExecError, exec_result, exec_error}
use environments.Deployment.Service.Laws.{exec_error-stopped, exec_error-cases}
use environments.Deployment.Recording.{derive_condition}

-- The execution returned an error, or a result that failed.
abbrev pub HasFailed : Result DeploymentResult → Type 0
HasFailed (ok r) = r.phase ≡ "Failed"
HasFailed (err e) = Unit

abbrev pub IsReady : Result DeploymentResult → Type 0
IsReady (ok r) = r.phase ≡ "Ready"
IsReady (err e) = ⊥

ne_true : ◌≢◌ {A = String} "False" "True"
ne_true h = ground (arith, eq_iff "False" "True")

ne_ready : ◌≢◌ {A = String} "Ready" "Failed"
ne_ready h = ground (arith, eq_iff "Ready" "Failed")

ne_reconciling : ◌≢◌ {A = String} "Reconciling" "Ready"
ne_reconciling h = ground (arith, eq_iff "Reconciling" "Ready")

module _ (text : ExecError → String) (now : ℕ) where
  -- What the service hands to the status writer always gives a condition. It is Ready with status
  -- False exactly if the execution stopped or a unit made it fail, Ready with status True exactly if
  -- the phase is Ready, and Reconciling otherwise.
  pub derive_condition_lem :
      (r : Result DeploymentResult)
      → (c : Condition) × (derive_condition text now (exec_result r) (exec_error r) ≡ some c)
        × ((c.status ≡ "False") ↔ HasFailed r)
        × (((c.kind ≡ "Ready") × (c.status ≡ "True")) ↔ IsReady r)
        × ((c.kind ≡ "Ready") ⊎ ((c.kind ≡ "Reconciling") × (c.status ≡ "True")))
  unfolding derive_condition
  derive_condition_lem (err e) =
      rw (exec_error-stopped e)
        (_, refl, (λ _. tt, λ _. refl), (λ h. absurd (ne_true h.1), λ h. absurd h), inl refl)
  derive_condition_lem (ok d) = elim (exec_error-cases d) [
    | inl (failed, (x, stopped)) ↦ rw stopped (
      _,
      refl,
      (λ _. failed, λ _. refl),
      (λ h. absurd (ne_true h.1), λ h. absurd (ne_ready (sym h ∙ failed))),
      inl refl,
    )
    | inr (not_failed, no_error) ↦ elim (Bool-cases (d.phase == "Ready")) [
      | inl ready ↦
          rw (no_error, ready)
            (
              _,
              refl,
              (λ h. absurd (ne_true (sym h)), λ h. absurd (not_failed h)),
              (λ _. (eq_iff d.phase "Ready").0 ready, λ _. (refl, refl)),
              inl refl,
            )
      | inr other ↦
          rw (no_error, other)
            (
              _,
              refl,
              (λ h. absurd (ne_true (sym h)), λ h. absurd (not_failed h)),
              (λ h. absurd (ne_reconciling h.0), λ h. ground (arith, eq_iff d.phase "Ready")),
              inr (refl, refl),
            )
    ]
  ]
