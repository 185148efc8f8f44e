-- ===== src/Intent.antt =====
-- pkg/intent: the plan for a Deployment, made from what resolution returned. The object's name and
-- namespace are read by parameters. Left out: the time of generation, the routes and the workload,
-- which no constructor fills. A nil *ResolvedDeployment and one without a spec are both `none`.
mod Units
pub mod Laws
pub mod Teardown
mod Examples
use environments.Common.{
  String, Bool, false, Option, none, some, List, [], ◌∷◌, map, ◌==◌, if◌then◌else◌, Result, ok, err,
  errorf, errorf_of, wrap_of, ◌>>=◌,
}
use environments.Resolution.ServiceUnit.{UnitTypeEnum, ResolvedServiceUnitSpec, ResolvedServiceUnit}
use environments.Resolution.Deployment.{
  ResolvedManifestsRepo, ResolvedDeploymentSpec, ResolvedDeployment,
}

pub record ServiceUnitIntent (Int32 : Type 0) : Type 0 where
  pub name : String
  pub image : String
  pub image_pull_secret : String
  pub port : Int32
  pub size : Int32

pub record Ref : Type 0 where
  pub branch : String
  pub tag : String
  pub commit : String

pub record ManifestsRepo : Type 0 where
  pub url : String
  pub ref : Ref
  pub clone_secret : String
  pub strategy : String
  pub path : String

pub record DeploymentIntent (Int32 : Type 0) : Type 0 where
  pub name : String
  pub namespace : String
  pub runtime : String
  pub strategy : String
  pub service_units : List (ServiceUnitIntent Int32)
  pub reconciliation_strategy : String
  pub image_automation : Bool
  pub manifests_repo : Option ManifestsRepo
  pub git_owner : String

-- fields that a literal leaves out are zero
abbrev pub no_ref : Ref
no_ref = record { branch = ""; tag = ""; commit = "" }

-- the error of a unit is labelled with its name
pub named_unit {ℓ} : {A : Type ℓ} → String → Result A → Result A
named_unit name (ok i) = ok i
named_unit name (err e) = err (wrap_of "serviceunit" name e)

-- a literal with the name alone; `zero32` is Go's zero of the other fields
bare_unit : {Int32 : Type 0} → Int32 → String → ServiceUnitIntent Int32
bare_unit zero32 name = record {
  name = name;
  image = "";
  image_pull_secret = "";
  port = zero32;
  size = zero32;
}

module _ {Float64 Enum Int32 : Type 0} (types : UnitTypeEnum Float64 Enum) where
  pub intent_of_spec :
      String → ResolvedServiceUnitSpec Enum Int32 → Result (ServiceUnitIntent Int32)
  intent_of_spec name spec =
      let intent = ok (record {
        name = name;
        image = spec.image;
        image_pull_secret = spec.image_pull_secret;
        port = spec.container_port;
        size = spec.size;
      }) in
      if types.same spec.unit_type types.static
      then (if spec.image == ""
          then err (errorf_of "static serviceunit has empty image (resolver bug)" name)
          else intent)
      else if types.same spec.unit_type types.build
      then (if spec.image == ""
          then err (errorf_of "build for serviceunit not ready" name)
          else intent)
      else err (errorf_of "unsupported serviceunit type" name)

module _ {Object Float64 Enum Int32 : Type 0} (types : UnitTypeEnum Float64 Enum)
    (name_of : Object → String) where
  intent_of :
      Object → Option (ResolvedServiceUnitSpec Enum Int32) → Result (ServiceUnitIntent Int32)
  unfolding intent_of_spec
  intent_of o none = err (errorf "resolved serviceunit is nil")
  intent_of o (some spec) = intent_of_spec types (name_of o) spec

  unfoldable pub resolve_service_unit_intent :
      Option (ResolvedServiceUnit Object Enum Int32) → Result (ServiceUnitIntent Int32)
  unfolding intent_of
  resolve_service_unit_intent none = err (errorf "resolved serviceunit is nil")
  resolve_service_unit_intent (some su) = intent_of su.service_unit su.spec

  -- the loop of `Build`
  unfoldable pub unit_intents :
      List (ResolvedServiceUnit Object Enum Int32) → Result (List (ServiceUnitIntent Int32))
  unfolding named_unit
  unit_intents [] = ok []
  unit_intents (su ∷ rest) = do
    i ← named_unit (name_of su.service_unit) (resolve_service_unit_intent (some su))
    is ← unit_intents rest
    ok (i ∷ is)

-- Url, path and clone secret are carried over; ref and strategy are not.
pub intent_repo : Option ResolvedManifestsRepo → Option ManifestsRepo
intent_repo none = none
intent_repo (some r) = some (record {
  url = r.url;
  ref = no_ref;
  clone_secret = r.clone_secret;
  strategy = "";
  path = r.path;
})

module _ {Object Int32 : Type 0} (name_of namespace_of : Object → String) where
  unfoldable pub new_deployment_intent :
      ResolvedDeployment Object → List (ServiceUnitIntent Int32) → DeploymentIntent Int32
  unfolding intent_repo
  new_deployment_intent depl units = record {
    name = name_of depl.deployment;
    namespace = namespace_of depl.deployment;
    runtime = depl.spec.runtime;
    strategy = depl.spec.strategy;
    service_units = units;
    reconciliation_strategy = depl.spec.reconciliation_strategy;
    image_automation = false;
    manifests_repo = intent_repo depl.spec.manifests_repo;
    git_owner = "";
  }

  pub build_teardown : Int32 → Option (ResolvedDeployment Object) → Result (DeploymentIntent Int32)
  unfolding bare_unit
  build_teardown zero32 none = err (errorf "nil ResolvedDeployment (resolver bug)")
  build_teardown zero32 (some depl) =
      ok (new_deployment_intent depl (map (bare_unit zero32) depl.spec.service_units))

  module _ {Float64 Enum : Type 0} (types : UnitTypeEnum Float64 Enum) where
    unfoldable pub build :
        Option (ResolvedDeployment Object)
        → List (ResolvedServiceUnit Object Enum Int32)
        → Result (DeploymentIntent Int32)
    build none service_units = err (errorf "nil ResolvedDeployment (resolver bug)")
    build (some depl) service_units = do
      units ← unit_intents types name_of service_units
      ok (new_deployment_intent depl units)
