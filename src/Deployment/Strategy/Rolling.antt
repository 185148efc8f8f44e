-- ===== src/Deployment/Strategy/Rolling.antt =====
-- The calls of a rolling execution, unit by unit, and the result that each unit gets from them.
use environments.Common.{
  String, ◌≡◌, refl, ◌↔◌, ◌⊎◌, inl, inr, Bool, true, false, Option, none, some, Option-cases,
  some-injective, List, [], ◌∷◌, if◌then◌else◌, Error, ok, err, Result-cases, arith, eq_iff,
}
use environments.Intent.{ServiceUnitIntent, DeploymentIntent}
use environments.Deployment.Provider.{
  Rollout, Client, ServiceUnitResult, deployment_object, service_object, rollout_ready,
  is_deployment_ready, apply_service_unit,
}
use environments.Deployment.Strategy.{unit_result, apply_units}

module _ {W Int32 : Type 0} (client : Client W Int32) (text : Error → String)
    (intent : DeploymentIntent Int32) where
  abbrev pub FailedWith : Error → ServiceUnitResult → Type 0
  FailedWith e r = (r.phase ≡ "Failed") × (r.error ≡ text e)

  -- The rollout asks for a number of replicas and has as many ready.
  abbrev pub IsRolledOut : Rollout Int32 → Type 0
  IsRolledOut rollout =
      (n : Int32) × (rollout.replicas ≡ some n)
      × (client.same_int32 rollout.ready_replicas n ≡ true)

  abbrev pub Observed : Rollout Int32 → ServiceUnitResult → Type 0
  Observed rollout r =
      (r.error ≡ "")
      × ((r.phase ≡ "Ready") ⊎ (r.phase ≡ "Deploying"))
      × ((r.phase ≡ "Ready") ↔ IsRolledOut rollout)

  -- The unit's Deployment was patched, then its Service, then its Deployment read, until a call
  -- failed; the result tells the error of that call, or what was read.
  abbrev pub Called : ServiceUnitIntent Int32 → W → ServiceUnitResult → W → Type 0
  Called su w r end =
      let d = client.patch_deployment (deployment_object intent su) w in
      let s = client.patch_service (service_object intent su) d.1 in
      let g = client.get_deployment su.name intent.namespace s.1 in
      ((e : Error) × (d.0 ≡ some e) × FailedWith e r × (end ≡ d.1))
      ⊎ ((e : Error) × (d.0 ≡ none) × (s.0 ≡ some e) × FailedWith e r × (end ≡ s.1))
      ⊎ ((e : Error) × (d.0 ≡ none) × (s.0 ≡ none) × (g.0 ≡ err e) × FailedWith e r × (end ≡ g.1))
      ⊎ ((rollout : Rollout Int32) × (d.0 ≡ none)
          × (s.0 ≡ none)
          × (g.0 ≡ ok rollout)
          × Observed rollout r
          × (end ≡ g.1))

  pub record Attempted (su : ServiceUnitIntent Int32) (w : W) (r : ServiceUnitResult) (end : W)
      : Type 0 where
    pub name : r.name ≡ su.name
    pub image : r.image ≡ su.image
    pub runtime : r.runtime ≡ intent.runtime
    pub called : Called su w r end

  -- Each unit in its turn, from the world that the one before it left.
  abbrev pub AllAttempted : List (ServiceUnitIntent Int32) → W → List ServiceUnitResult → W → Type 0
  AllAttempted [] w [] end = end ≡ w
  AllAttempted (su ∷ sus) w (r ∷ rs) end =
      (next : W) × Attempted su w r next × AllAttempted sus next rs end
  AllAttempted _ w _ end = ⊥

  ready_phase :
      (rollout : Rollout Int32) (replicas : Option Int32)
      → (◌≡◌ {A = String}
          (if rollout_ready client rollout replicas then "Ready" else "Deploying")
          "Ready")
        ↔ ((n : Int32) × (replicas ≡ some n) × (client.same_int32 rollout.ready_replicas n ≡ true))
  unfolding rollout_ready
  ready_phase rollout none = (λ h. ground (arith, eq_iff "Deploying" "Ready"), λ h. cc)
  ready_phase rollout (some n) = (
    λ h. (n, refl, ground (arith, eq_iff "Deploying" "Ready")),
    λ (k, same, ready). rw (some-injective same, ready) refl,
  )

  either_phase :
      (b : Bool)
      → let phase : String = if b then "Ready" else "Deploying" in
        (phase ≡ "Ready") ⊎ (phase ≡ "Deploying")
  either_phase true = inl refl
  either_phase false = inr refl

  apply_service_unit-Called :
      (su : ServiceUnitIntent Int32) (w : W)
      → let applied = apply_service_unit client intent su w in
        Called su w (unit_result client text intent su applied.0) applied.1
  unfolding apply_service_unit unit_result is_deployment_ready
  apply_service_unit-Called su w =
      let d = client.patch_deployment (deployment_object intent su) w in
      let s = client.patch_service (service_object intent su) d.1 in
      let g = client.get_deployment su.name intent.namespace s.1 in
      elim (Option-cases d.0) [
        | inr (e, failed) ↦ rw failed (inl (e, refl, (refl, refl), refl))
        | inl patched ↦ elim (Option-cases s.0) [
          | inr (e, failed) ↦ rw (patched, failed) (inr (inl (e, refl, refl, (refl, refl), refl)))
          | inl served ↦ elim (Result-cases g.0) [
            | inr (e, failed) ↦
                rw (patched, served, failed)
                  (inr (inr (inl (e, refl, refl, refl, (refl, refl), refl))))
            | inl (rollout, found) ↦
                rw (patched, served, found)
                  (inr (
                    inr (
                      inr (
                        rollout,
                        refl,
                        refl,
                        refl,
                        (refl, either_phase _, ready_phase rollout rollout.replicas),
                        refl,
                      ))))
          ]
        ]
      ]

  apply_service_unit-Attempted :
      (su : ServiceUnitIntent Int32) (w : W)
      → let applied = apply_service_unit client intent su w in
        Attempted su w (unit_result client text intent su applied.0) applied.1
  unfolding apply_service_unit unit_result
  apply_service_unit-Attempted su w = record {
    name = ground arith;
    image = ground arith;
    runtime = ground arith;
    called = apply_service_unit-Called su w;
  }

  pub apply_units-AllAttempted :
      (sus : List (ServiceUnitIntent Int32)) (w : W)
      → let applied = apply_units client text intent sus w in AllAttempted sus w applied.0 applied.1
  unfolding apply_units
  apply_units-AllAttempted [] w = refl
  apply_units-AllAttempted (su ∷ sus) w =
      let next = (apply_service_unit client intent su w).1 in
      (next, apply_service_unit-Attempted su w, apply_units-AllAttempted sus next)
