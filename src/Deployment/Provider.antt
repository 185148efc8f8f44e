-- ===== src/Deployment/Provider.antt =====
-- pkg/apis/deployment/api/kubernetes.go. The cluster is a state `W`, and the calls of
-- controller-runtime's client on it are parameters, as are Go's int32 and the times of results.
pub mod Laws
mod Examples
use environments.Common.{
  String, Bool, true, false, Option, none, some, List, [], ◌∷◌, ◌++◌, ◌==◌, if◌then◌else◌, Error,
  wrap_of, Result, ok, err, Exec, Effect, after, with_value,
}
use environments.Intent.{ServiceUnitIntent, DeploymentIntent}

pub data Kind : Type 0 where
  deployment service : Kind

-- The applied objects, by the fields that the provider sets. Selector and pod label are the pair
-- "serviceUnit" ↦ the text.
pub record DeploymentObject (Int32 : Type 0) : Type 0 where
  pub name : String
  pub namespace : String
  pub label : String
  pub replicas : Int32
  pub selector : String
  pub pod_label : String
  pub pull_secrets : List String
  pub container : String
  pub image : String
  pub container_port : Int32

pub record ServiceObject (Int32 : Type 0) : Type 0 where
  pub name : String
  pub namespace : String
  pub selector : String
  pub port : Int32
  pub target_port : Int32

-- What the provider reads of a live Deployment.
pub record Rollout (Int32 : Type 0) : Type 0 where
  pub replicas : Option Int32
  pub ready_replicas : Int32

pub record Client (W Int32 : Type 0) : Type 0 where
  pub patch_deployment : DeploymentObject Int32 → Effect W
  pub patch_service : ServiceObject Int32 → Effect W
  -- name, then namespace
  pub get_deployment : String → String → Exec W (Rollout Int32)
  pub delete : Kind → String → String → Effect W
  pub is_not_found : Error → Bool
  pub same_int32 : Int32 → Int32 → Bool

pub record ServiceUnitResult : Type 0 where
  pub name : String
  pub phase : String
  pub image : String
  pub runtime : String
  pub message : String
  pub error : String

pub image_pull_secrets : String → List String
image_pull_secrets name = if name == "" then [] else name ∷ []

module _ {Int32 : Type 0} (intent : DeploymentIntent Int32) (su : ServiceUnitIntent Int32) where
  pub deployment_object : DeploymentObject Int32
  deployment_object = record {
    name = su.name;
    namespace = intent.namespace;
    label = su.name;
    replicas = su.size;
    selector = su.name;
    pod_label = su.name;
    pull_secrets = image_pull_secrets su.image_pull_secret;
    container = su.name;
    image = su.image;
    container_port = su.port;
  }

  pub service_object : ServiceObject Int32
  service_object = record {
    name = su.name;
    namespace = intent.namespace;
    selector = su.name;
    port = su.port;
    target_port = su.port;
  }

-- `err != nil && !apierrors.IsNotFound(err)`
failure_of : (Error → Bool) → String → String → Option Error → List Error
failure_of is_not_found text name none = []
failure_of is_not_found text name (some e) = if is_not_found e then [] else wrap_of text name e ∷ []

module _ {W Int32 : Type 0} (client : Client W Int32) where
  unfoldable pub rollout_ready : Rollout Int32 → Option Int32 → Bool
  rollout_ready rollout none = false
  rollout_ready rollout (some n) = client.same_int32 rollout.ready_replicas n

  unfoldable pub is_deployment_ready :
      DeploymentIntent Int32 → ServiceUnitIntent Int32 → Exec W Bool
  unfolding rollout_ready
  is_deployment_ready intent su w =
      with_value (client.get_deployment su.name intent.namespace w)
        λ rollout w'. (ok (rollout_ready rollout rollout.replicas), w')

  unfoldable pub apply_service_unit :
      DeploymentIntent Int32 → ServiceUnitIntent Int32 → Exec W ServiceUnitResult
  apply_service_unit intent su w =
      after (client.patch_deployment (deployment_object intent su) w) λ w.
        after (client.patch_service (service_object intent su) w) λ w.
          with_value (is_deployment_ready intent su w) λ ready w. (
            ok (record {
              name = su.name;
              phase = if ready then "Ready" else "Deploying";
              image = su.image;
              runtime = intent.runtime;
              message = "";
              error = "";
            }),
            w,
          )

  -- One round of the loop of `Teardown`: both objects, whatever happens to the first.
  teardown_unit : DeploymentIntent Int32 → ServiceUnitIntent Int32 → W → List Error × W
  unfolding failure_of
  teardown_unit intent su w =
      let (e, w) = client.delete deployment su.name intent.namespace w in
      let (e', w) = client.delete service su.name intent.namespace w in
      (
        failure_of client.is_not_found "delete deployment" su.name e
            ++ failure_of client.is_not_found "delete service" su.name e',
        w,
      )

  teardown_units : DeploymentIntent Int32 → List (ServiceUnitIntent Int32) → W → List Error × W
  teardown_units intent [] w = ([], w)
  teardown_units intent (su ∷ rest) w =
      let (errs, w) = teardown_unit intent su w in
      let (later, w) = teardown_units intent rest w in (errs ++ later, w)

  -- The aggregate of the errors is their list, nil the empty list.
  pub teardown : DeploymentIntent Int32 → W → List Error × W
  unfolding teardown_units
  teardown intent w = teardown_units intent intent.service_units w
