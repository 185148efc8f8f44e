-- ===== src/Intent/Laws.antt =====
-- Which units can be planned, and what a plan says.
use environments.Common.{
  String, ◌≡◌, refl, sym, ap, ◌≢◌, Option, none, some, List, [], ◌∷◌, map, ok, bind-ok,
  ok-injective, arith, eq_iff, subst, All,
}
use environments.Resolution.ServiceUnit.{
  UnitTypeEnum, Int32Of, ResolvedServiceUnitSpec, ResolvedServiceUnit,
}
use environments.Resolution.Deployment.{ResolvedDeployment, ResolvedManifestsRepo}
use environments.Intent.Units.{named_unit-ok, KeepUnits, unit_intents-KeepUnits}
use environments.Intent.{
  ServiceUnitIntent, DeploymentIntent, intent_of_spec, intent_of, resolve_service_unit_intent,
  named_unit, unit_intents, new_deployment_intent, build, intent_repo, ManifestsRepo, no_ref,
}

module _ {Float64 Enum Int32 : Type 0} (types : UnitTypeEnum Float64 Enum)
    (ints : Int32Of Float64 Int32) where
  abbrev planned : String → ResolvedServiceUnitSpec Enum Int32 → ServiceUnitIntent Int32
  planned name s = record {
    name = name;
    image = s.image;
    image_pull_secret = s.image_pull_secret;
    port = s.container_port;
    size = s.size;
  }

-- The repo of a plan has the contract's url, path and secret, and never its ref.
abbrev pub PlansRepo : Option ResolvedManifestsRepo → Option ManifestsRepo → Type 0
PlansRepo none none = Unit
PlansRepo (some r) (some q) =
    (q.url ≡ r.url) × (q.path ≡ r.path) × (q.clone_secret ≡ r.clone_secret) × (q.ref ≡ no_ref)
PlansRepo _ _ = ⊥

pub PlansRepo-none :
    (o : Option ResolvedManifestsRepo) (q : Option ManifestsRepo)
    → o ≡ none
    → PlansRepo o q
    → q ≡ none
PlansRepo-none none none h p = refl
PlansRepo-none none (some q) h p = absurd p
PlansRepo-none (some r) q h p = cc

pub intent_repo-PlansRepo : (o : Option ResolvedManifestsRepo) → PlansRepo o (intent_repo o)
unfolding intent_repo
intent_repo-PlansRepo none = tt
intent_repo-PlansRepo (some r) = (refl, refl, refl, refl)

module _ {Float64 Enum Int32 : Type 0} (types : UnitTypeEnum Float64 Enum) where
  intent_of_spec-name :
      (name : String) (s : ResolvedServiceUnitSpec Enum Int32) (i : ServiceUnitIntent Int32)
      → intent_of_spec types name s ≡ ok i
      → i.name ≡ name
  unfolding intent_of_spec
  intent_of_spec-name name s i h = ground arith

  intent_of_spec-image :
      (name : String) (s : ResolvedServiceUnitSpec Enum Int32) (i : ServiceUnitIntent Int32)
      → intent_of_spec types name s ≡ ok i
      → i.image ≢ ""
  unfolding intent_of_spec
  intent_of_spec-image name s i h e = ground (arith, eq_iff s.image "")

module _ {Object Float64 Enum Int32 : Type 0} (types : UnitTypeEnum Float64 Enum)
    (name_of namespace_of : Object → String) where
  resolve_service_unit_intent-name :
      (o : Object) (s : Option (ResolvedServiceUnitSpec Enum Int32)) (i : ServiceUnitIntent Int32)
      → intent_of types name_of o s ≡ ok i
      → i.name ≡ name_of o
  unfolding intent_of
  resolve_service_unit_intent-name o none i h = cc
  resolve_service_unit_intent-name o (some s) i h = intent_of_spec-name types (name_of o) s i h

  pub unit_intents-names :
      (sus : List (ResolvedServiceUnit Object Enum Int32)) (is : List (ServiceUnitIntent Int32))
      → unit_intents types name_of sus ≡ ok is
      → map (λ i. i.name) is ≡ map (λ su. name_of su.service_unit) sus
  unfolding unit_intents resolve_service_unit_intent
  unit_intents-names [] is h =
      ap (map (λ (i : ServiceUnitIntent Int32). i.name)) (sym (ok-injective h))
  unit_intents-names (su ∷ sus) is h =
      let (i, i_ok, h) =
        bind-ok
          (named_unit (name_of su.service_unit)
            (resolve_service_unit_intent types name_of (some su)))
          _ h in
      let (later, later_ok, h) = bind-ok (unit_intents types name_of sus) _ h in
      let here =
        resolve_service_unit_intent-name su.service_unit su.spec i (named_unit-ok _ _ i_ok) in
      subst
        (λ (is : List (ServiceUnitIntent Int32)).
          map (λ i. i.name) is ≡ name_of su.service_unit ∷ map (λ u. name_of u.service_unit) sus)
        (ok-injective h) (λ j. here j ∷ unit_intents-names sus later later_ok j)

  resolve_service_unit_intent-image :
      (o : Object) (s : Option (ResolvedServiceUnitSpec Enum Int32)) (i : ServiceUnitIntent Int32)
      → intent_of types name_of o s ≡ ok i
      → i.image ≢ ""
  unfolding intent_of
  resolve_service_unit_intent-image o none i h = cc
  resolve_service_unit_intent-image o (some s) i h = intent_of_spec-image types (name_of o) s i h

  unit_intents-images :
      (sus : List (ResolvedServiceUnit Object Enum Int32)) (is : List (ServiceUnitIntent Int32))
      → unit_intents types name_of sus ≡ ok is
      → All (λ u. u.image ≢ "") is
  unfolding unit_intents resolve_service_unit_intent
  unit_intents-images [] is h =
      subst (All (λ (u : ServiceUnitIntent Int32). u.image ≢ "")) (ok-injective h) tt
  unit_intents-images (su ∷ sus) is h =
      let (i, i_ok, h) =
        bind-ok
          (named_unit (name_of su.service_unit)
            (resolve_service_unit_intent types name_of (some su)))
          _ h in
      let (later, later_ok, h) = bind-ok (unit_intents types name_of sus) _ h in
      subst (All (λ (u : ServiceUnitIntent Int32). u.image ≢ "")) (ok-injective h) (
        resolve_service_unit_intent-image su.service_unit su.spec i (named_unit-ok _ _ i_ok),
        unit_intents-images sus later later_ok,
      )

  pub record IsPlanOf (depl : ResolvedDeployment Object)
      (sus : List (ResolvedServiceUnit Object Enum Int32)) (i : DeploymentIntent Int32)
      : Type 0 where
    pub name : i.name ≡ name_of depl.deployment
    pub namespace : i.namespace ≡ namespace_of depl.deployment
    pub runtime : i.runtime ≡ depl.spec.runtime
    pub strategy : i.strategy ≡ depl.spec.strategy
    pub mode : i.reconciliation_strategy ≡ depl.spec.reconciliation_strategy
    pub units : map (λ u. u.name) i.service_units ≡ map (λ su. name_of su.service_unit) sus
    pub kept : KeepUnits types name_of sus i.service_units
    pub images : All (λ u. u.image ≢ "") i.service_units
    pub repo : PlansRepo depl.spec.manifests_repo i.manifests_repo

  -- A plan keeps the Deployment's name, namespace, runtime, strategy and mode; it has one unit for
  -- each resolved ServiceUnit, in order and under its name, with that one's image, which is not
  -- empty, pull secret, port and size; and a repo exactly if one was resolved, with its url, path
  -- and secret, but with an empty ref.
  pub build-IsPlanOf :
      (depl : ResolvedDeployment Object) (sus : List (ResolvedServiceUnit Object Enum Int32))
      (i : DeploymentIntent Int32)
      → build name_of namespace_of types (some depl) sus ≡ ok i
      → IsPlanOf depl sus i
  unfolding build new_deployment_intent
  build-IsPlanOf depl sus i h =
      let (units, units_ok, h) = bind-ok (unit_intents types name_of sus) _ h in
      subst (IsPlanOf depl sus) (ok-injective h) (record {
        name = refl;
        namespace = refl;
        runtime = refl;
        strategy = refl;
        mode = refl;
        units = unit_intents-names sus units units_ok;
        kept = unit_intents-KeepUnits types name_of sus units units_ok;
        images = unit_intents-images sus units units_ok;
        repo = intent_repo-PlansRepo depl.spec.manifests_repo;
      })
