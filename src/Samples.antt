-- ===== src/Samples.antt =====
-- Values for the examples: enums and machine integers that are native numbers, a cluster, and a
-- Deployment with one static unit that is applied live.
use environments.Common.{
  ℕ, suc, String, ◌≡◌, ◌↔◌, Bool, true, false, Option, none, some, List, [], ◌∷◌, Error, errorf, ok,
  refl, same_number, arith,
}
use environments.Resolution.ServiceUnit.{
  Int32Of, UnitTypeEnum, ResolvedServiceUnitSpec, ResolvedServiceUnit,
}
use environments.Resolution.Deployment.{RuntimeEnum, StrategyEnum, ResolvedDeployment}
use environments.Intent.{DeploymentIntent, ServiceUnitIntent}
use environments.Deployment.Provider.{Kind, deployment, service, Client}
use environments.Deployment.Provider.Laws.{Accepted, Deletes}

pub same_number_iff : (a b : ℕ) → (same_number a b ≡ true) ↔ (a ≡ b)
same_number_iff a b = ground arith

abbrev pub bytes : List ℕ
bytes = b'{' ∷ b'}' ∷ []

-- an object is its contract's bytes
abbrev pub raw : List ℕ → List ℕ
raw o = o

abbrev pub ints : Int32Of ℕ ℕ
ints = record { zero32 = 0; of_float64 = λ n. n }

abbrev pub runtimes : RuntimeEnum ℕ ℕ
runtimes = record {
  same = same_number;
  same_iff = same_number_iff;
  of_float64 = λ n. n;
  unspecified = 0;
  kubernetes_container = 1;
  knative_service = 2;
  distinct = λ h. omega (arith, h);
}

abbrev pub strategies : StrategyEnum ℕ ℕ
strategies = record {
  same = same_number;
  same_iff = same_number_iff;
  of_float64 = λ n. n;
  unspecified = 0;
  kustomize = 1;
  helm = 2;
  kustomize_helm = λ h. omega (arith, h);
  kustomize_unspecified = λ h. omega (arith, h);
  helm_unspecified = λ h. omega (arith, h);
}

abbrev pub types : UnitTypeEnum ℕ ℕ
types = record {
  same = same_number;
  same_iff = same_number_iff;
  of_float64 = λ n. n;
  static = 1;
  build = 2;
  supplychain = 3;
  static_build = λ h. omega (arith, h);
  static_supplychain = λ h. omega (arith, h);
  build_supplychain = λ h. omega (arith, h);
}

-- the world counts the calls
abbrev pub client : Client ℕ ℕ
client = record {
  patch_deployment = λ o w. (none, suc w);
  patch_service = λ o w. (none, suc w);
  get_deployment =
      λ name namespace w. (ok (record { replicas = some 2; ready_replicas = 2 }), suc w);
  delete = λ k name namespace w. (none, suc w);
  is_not_found = λ e. false;
  same_int32 = same_number;
}

abbrev pub text : Error → String
text e = "error"

abbrev pub name_of : String → String
name_of o = o

abbrev pub namespace_of : String → String
namespace_of o = "apps"

abbrev pub unit_spec : ResolvedServiceUnitSpec ℕ ℕ
unit_spec = record {
  unit_type = 1;
  image = "registry/app:1";
  image_pull_secret = "";
  build_ref = none;
  container_port = 8080;
  size = 2;
  app_type = "";
  stack_type = "";
  route_ref = none;
}

abbrev pub units : List (ResolvedServiceUnit String ℕ ℕ)
units = record { service_unit = "app"; spec = some unit_spec } ∷ []

abbrev pub resolved : ResolvedDeployment String
resolved = record {
  deployment = "shop";
  spec = record {
    service_units = "app" ∷ [];
    runtime = "kubernetes.io/container-runtime";
    strategy = "Rolling";
    git_owner = "";
    image_automation = false;
    manifests_repo = none;
    reconciliation_strategy = "Imperative";
  };
}

abbrev pub unit_intent : ServiceUnitIntent ℕ
unit_intent = record {
  name = "app";
  image = "registry/app:1";
  image_pull_secret = "";
  port = 8080;
  size = 2;
}

abbrev pub intent : DeploymentIntent ℕ
intent = record {
  name = "shop";
  namespace = "apps";
  runtime = "kubernetes.io/container-runtime";
  strategy = "Rolling";
  service_units = unit_intent ∷ [];
  reconciliation_strategy = "Imperative";
  image_automation = false;
  manifests_repo = none;
  git_owner = "";
}

-- A cluster that refuses to delete Services; its world is whether Deployments are left.
abbrev pub exists : Kind → String → String → Bool → Bool
exists deployment name namespace w = w
exists service name namespace w = true

abbrev refused : Kind → String → String → Bool → Option Error × Bool
refused deployment name namespace w = (none, false)
refused service name namespace w = (some (errorf "forbidden"), w)

abbrev pub refusing_client : Client Bool ℕ
refusing_client = record {
  patch_deployment = λ o w. (none, true);
  patch_service = λ o w. (none, w);
  get_deployment = λ name namespace w. (ok (record { replicas = none; ready_replicas = 0 }), w);
  delete = refused;
  is_not_found = λ e. false;
  same_int32 = same_number;
}

gone :
    (k : Kind) (n ns : String) (w : Bool)
    → Accepted refusing_client (refusing_client.delete k n ns w).0
    → exists k n ns (refusing_client.delete k n ns w).1 ≡ false
gone deployment n ns w h = refl
gone service n ns w h = cc

stays_gone :
    (k : Kind) (n ns : String) (j : Kind) (m ms : String) (w : Bool)
    → exists j m ms w ≡ false
    → exists j m ms (refusing_client.delete k n ns w).1 ≡ false
stays_gone deployment n ns deployment m ms w h = refl
stays_gone service n ns deployment m ms w h = h
stays_gone k n ns service m ms w h = cc

pub deletes : Deletes refusing_client exists
deletes = record { gone = gone; stays_gone = stays_gone }
