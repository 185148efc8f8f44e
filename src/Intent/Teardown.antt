-- ===== src/Intent/Teardown.antt =====
-- What a teardown is made from, and that it names what a plan applied.
use environments.Common.{
  String, ◌≡◌, refl, sym, ap, ◌∙◌, some, List, [], ◌∷◌, map, ok, bind-ok, ok-injective, subst,
}
use environments.Resolution.ServiceUnit.{UnitTypeEnum, ResolvedServiceUnit}
use environments.Resolution.Deployment.{ResolvedDeployment}
use environments.Intent.{
  DeploymentIntent, unit_intents, new_deployment_intent, bare_unit, build_teardown, build,
}
use environments.Intent.Laws.{PlansRepo, intent_repo-PlansRepo, unit_intents-names}

bare_unit-names :
    {Int32 : Type 0} (zero32 : Int32) (names : List String)
    → map (λ i. i.name) (map (bare_unit zero32) names) ≡ names
unfolding bare_unit
bare_unit-names zero32 [] = refl
bare_unit-names zero32 (n ∷ names) =
    ap (λ (ns : List String). n ∷ ns) (bare_unit-names zero32 names)

module _ {Object Int32 : Type 0} (name_of namespace_of : Object → String) where
  pub record IsTeardownOf (depl : ResolvedDeployment Object) (t : DeploymentIntent Int32)
      : Type 0 where
    pub namespace : t.namespace ≡ namespace_of depl.deployment
    pub runtime : t.runtime ≡ depl.spec.runtime
    pub units : map (λ u. u.name) t.service_units ≡ depl.spec.service_units
    pub repo : PlansRepo depl.spec.manifests_repo t.manifests_repo

  pub build_teardown-IsTeardownOf :
      (zero32 : Int32) (depl : ResolvedDeployment Object)
      → (t : DeploymentIntent Int32) × (build_teardown name_of namespace_of zero32 (some depl)
          ≡ ok t)
        × IsTeardownOf depl t
  unfolding build_teardown new_deployment_intent
  build_teardown-IsTeardownOf zero32 depl = (
    _,
    refl,
    record {
      namespace = refl;
      runtime = refl;
      units = bare_unit-names zero32 depl.spec.service_units;
      repo = intent_repo-PlansRepo depl.spec.manifests_repo;
    },
  )

module _ {Object Float64 Enum Int32 : Type 0} (types : UnitTypeEnum Float64 Enum)
    (name_of namespace_of : Object → String) where
  -- What a teardown removes is what the plan applied: same namespace, runtime, mode, repo, and names.
  pub record Covers (t i : DeploymentIntent Int32) : Type 0 where
    pub namespace : t.namespace ≡ i.namespace
    pub names : map (λ u. u.name) t.service_units ≡ map (λ u. u.name) i.service_units
    pub runtime : t.runtime ≡ i.runtime
    pub mode : t.reconciliation_strategy ≡ i.reconciliation_strategy
    pub repo : t.manifests_repo ≡ i.manifests_repo

  -- When the units that were planned are the ones that the Deployment names, its teardown, made from
  -- the Deployment alone, has a plan, in the same namespace, for the same unit names, the same
  -- runtime, reconciliation mode and repo.
  pub build_teardown-Covers :
      (zero32 : Int32) (depl : ResolvedDeployment Object)
      (sus : List (ResolvedServiceUnit Object Enum Int32)) (i : DeploymentIntent Int32)
      → map (λ su. name_of su.service_unit) sus ≡ depl.spec.service_units
      → build name_of namespace_of types (some depl) sus ≡ ok i
      → (t : DeploymentIntent Int32) × (build_teardown name_of namespace_of zero32 (some depl)
          ≡ ok t)
        × Covers t i
  unfolding build build_teardown new_deployment_intent
  build_teardown-Covers zero32 depl sus i named h =
      let (units, units_ok, h) = bind-ok (unit_intents types name_of sus) _ h in
      let names =
        bare_unit-names zero32 depl.spec.service_units
        ∙ sym named
        ∙ sym (unit_intents-names types name_of namespace_of sus units units_ok) in
      subst
        (λ (i : DeploymentIntent Int32).
          (t : DeploymentIntent Int32) × (build_teardown name_of namespace_of zero32 (some depl)
            ≡ ok t)
          × Covers t i)
        (ok-injective h)
        (
          _,
          refl,
          record { namespace = refl; names = names; runtime = refl; mode = refl; repo = refl },
        )
