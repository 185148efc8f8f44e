-- ===== src/Resolution/Deployment.antt =====
-- resolution/deployment/resolve/resolve.go. The generated protobuf enums (environments-contract) are
-- not part of the repository: a parameter gives their constants and Go's conversion from float64.
pub mod Contract
mod Modes
pub mod Laws
mod Examples
use environments.Common.{
  ℕ, String, ◌≡◌, ◌≢◌, ◌↔◌, Bool, true, false, ◌&&◌, ◌||◌, Option, none, some, List, [], ◌∷◌, ◌==◌,
  if◌then◌else◌, Result, ok, err, errorf, errorf_of, labelled, ◌>>=◌,
}
use environments.Json.{
  Json, str, num, Fields, lookup, as_string, as_map, as_list, is_declared, must_string,
  optional_string, optional_bool,
}
use environments.Resolution.Contract.{decode_contract}

-- blanketops/common/v1 DeploymentRuntime and ReconciliationStrategy
pub record RuntimeEnum (Float64 Enum : Type 0) : Type 0 where
  pub same : Enum → Enum → Bool
  pub same_iff : (a b : Enum) → (same a b ≡ true) ↔ (a ≡ b)
  pub of_float64 : Float64 → Enum
  pub unspecified : Enum
  pub kubernetes_container : Enum
  pub knative_service : Enum
  pub distinct : kubernetes_container ≢ knative_service

pub record StrategyEnum (Float64 Enum : Type 0) : Type 0 where
  pub same : Enum → Enum → Bool
  pub same_iff : (a b : Enum) → (same a b ≡ true) ↔ (a ≡ b)
  pub of_float64 : Float64 → Enum
  pub unspecified : Enum
  pub kustomize : Enum
  pub helm : Enum
  pub kustomize_helm : kustomize ≢ helm
  pub kustomize_unspecified : kustomize ≢ unspecified
  pub helm_unspecified : helm ≢ unspecified

abbrev pub runtime_kubernetes : String
runtime_kubernetes = "kubernetes.io/container-runtime"

abbrev pub runtime_knative : String
runtime_knative = "knative.dev/service-runtime"

abbrev pub runtime_wasm : String
runtime_wasm = "blanketops.dev/wasm-runtime"

abbrev pub runtime_ecs : String
runtime_ecs = "blanketops.dev/aws-ecs"

abbrev pub strategy_rolling : String
strategy_rolling = "Rolling"

abbrev pub strategy_blue_green : String
strategy_blue_green = "BlueGreen"

abbrev pub strategy_canary : String
strategy_canary = "Canary"

abbrev pub reconciliation_imperative : String
reconciliation_imperative = "Imperative"

abbrev pub reconciliation_kustomize : String
reconciliation_kustomize = "Kustomize"

abbrev pub reconciliation_helm : String
reconciliation_helm = "Helm"

pub record ResolvedManifestsRepo : Type 0 where
  pub url : String
  pub ref : String
  pub path : String
  pub strategy : String
  pub clone_secret : String

pub record ResolvedDeploymentSpec : Type 0 where
  pub service_units : List String
  pub runtime : String
  pub strategy : String
  pub git_owner : String
  pub image_automation : Bool
  pub manifests_repo : Option ResolvedManifestsRepo
  pub reconciliation_strategy : String

pub record ResolvedDeployment (Object : Type 0) : Type 0 where
  pub deployment : Object
  pub spec : ResolvedDeploymentSpec

service_unit_entry : Option String → Result String
service_unit_entry none = err (errorf "serviceUnits entries must be non-empty strings")
service_unit_entry (some s) =
    if s == "" then err (errorf "serviceUnits entries must be non-empty strings") else ok s

-- a declared text that reads as empty is refused
declared_text : Bool → String → String → Result String
declared_text declared s text = if declared && s == "" then err (errorf text) else ok s

module _ {Float64 : Type 0} where
  -- the loop over `suRaw`
  pub service_unit_entries : List (Json Float64) → Result (List String)
  unfolding service_unit_entry
  service_unit_entries [] = ok []
  service_unit_entries (v ∷ vs) = do
    s ← service_unit_entry (as_string (some v))
    rest ← service_unit_entries vs
    ok (s ∷ rest)

  listed_units : Option (List (Json Float64)) → Result (List String)
  listed_units (some (v ∷ vs)) = service_unit_entries (v ∷ vs)
  listed_units _ = err (errorf "serviceUnits is required and must be non-empty")

  pub resolve_service_units : Fields Float64 → Result (List String)
  unfolding listed_units
  resolve_service_units m = listed_units (as_list (lookup "serviceUnits" m))

  pub resolve_deployment_strategy : Option (Json Float64) → Result String
  resolve_deployment_strategy (some (str v)) =
      if v == "Rolling"
      then ok strategy_rolling
      else if v == "BlueGreen"
      then ok strategy_blue_green
      else if v == "Canary"
      then ok strategy_canary
      else err (errorf_of "unsupported deployment.strategy" v)
  resolve_deployment_strategy _ = err (errorf "deployment.strategy is required")

  pub resolve_git_owner : Fields Float64 → Result String
  unfolding declared_text
  resolve_git_owner m =
      declared_text (is_declared (lookup "gitOwner" m)) (optional_string m "gitOwner")
        "gitOwner declared but empty"

  pub resolve_repo_fields : Fields Float64 → Result ResolvedManifestsRepo
  unfolding declared_text
  resolve_repo_fields r = do
    url ← labelled "manifestsRepo.url" (must_string r "url")
    clone_secret ←
        declared_text (is_declared (lookup "cloneSecret" r)) (optional_string r "cloneSecret")
          "manifestsRepo.cloneSecret declared but empty"
    ok (record {
      url = url;
      ref = optional_string r "ref";
      path = optional_string r "path";
      strategy = optional_string r "strategy";
      clone_secret = clone_secret;
    })

  optional_repo : Option (Fields Float64) → Result (Option ResolvedManifestsRepo)
  optional_repo none = ok none
  optional_repo (some r) = do repo ← resolve_repo_fields r; ok (some repo)

  pub resolve_manifests_repo : Fields Float64 → Result (Option ResolvedManifestsRepo)
  unfolding optional_repo
  resolve_manifests_repo m = optional_repo (as_map (lookup "manifestsRepo" m))

module _ {Float64 Enum : Type 0} (runtimes : RuntimeEnum Float64 Enum) where
  pub resolve_deployment_runtime : Option (Json Float64) → Result Enum
  resolve_deployment_runtime (some (str v)) =
      if v == "kubernetes" || v == "kubernetes.io/container-runtime"
      then ok runtimes.kubernetes_container
      else if v == "knative"
      then ok runtimes.knative_service
      else err (errorf_of "unsupported deployment.runtime" v)
  resolve_deployment_runtime (some (num v)) = ok (runtimes.of_float64 v)
  resolve_deployment_runtime _ = err (errorf "deployment.runtime is required")

  pub normalize_runtime : Enum → Result String
  normalize_runtime rt =
      if runtimes.same rt runtimes.kubernetes_container
      then ok runtime_kubernetes
      else if runtimes.same rt runtimes.knative_service
      then ok runtime_knative
      else err (errorf "unsupported deployment runtime enum")

module _ {Float64 Enum : Type 0} (strategies : StrategyEnum Float64 Enum) where
  pub resolve_reconciliation_strategy : Option (Json Float64) → Result Enum
  resolve_reconciliation_strategy (some (str v)) =
      if v == "kustomize"
      then ok strategies.kustomize
      else if v == "helm"
      then ok strategies.helm
      else err (errorf_of "unsupported reconciliationStrategy" v)
  resolve_reconciliation_strategy (some (num v)) = ok (strategies.of_float64 v)
  resolve_reconciliation_strategy _ = err (errorf "reconciliationStrategy is required")

  pub normalize_reconciliation_strategy : Enum → Result String
  normalize_reconciliation_strategy rs =
      if strategies.same rs strategies.kustomize
      then ok reconciliation_kustomize
      else if strategies.same rs strategies.helm
      then ok reconciliation_helm
      else if strategies.same rs strategies.unspecified
      then ok reconciliation_imperative
      else err (errorf "unsupported reconciliation strategy enum")

  -- Required with a manifests repo, refused without one.
  pub resolve_reconciliation : Option ResolvedManifestsRepo → Option (Json Float64) → Result String
  resolve_reconciliation (some repo) none =
      err (errorf "reconciliationStrategy is required when manifestsRepo is defined")
  resolve_reconciliation (some repo) (some v) = do
    rs ← resolve_reconciliation_strategy (some v)
    normalize_reconciliation_strategy rs
  resolve_reconciliation none (some v) =
      err (errorf "reconciliationStrategy cannot be set when manifestsRepo is not defined")
  resolve_reconciliation none none = ok reconciliation_imperative

module _ {Float64 Runtimes Strategies : Type 0} (runtimes : RuntimeEnum Float64 Runtimes)
    (strategies : StrategyEnum Float64 Strategies) where
  pub resolve_deployment_spec : Fields Float64 → Result ResolvedDeploymentSpec
  resolve_deployment_spec m = do
    service_units ← resolve_service_units m
    rt ← resolve_deployment_runtime runtimes (lookup "runtime" m)
    runtime ← normalize_runtime runtimes rt
    strategy ← resolve_deployment_strategy (lookup "strategy" m)
    git_owner ← resolve_git_owner m
    repo ← resolve_manifests_repo m
    recon ← resolve_reconciliation strategies repo (lookup "reconciliationStrategy" m)
    ok (record {
      service_units = service_units;
      runtime = runtime;
      strategy = strategy;
      git_owner = git_owner;
      image_automation = optional_bool m "imageAutomation" false;
      manifests_repo = repo;
      reconciliation_strategy = recon;
    })

  module _ {Object : Type 0} (raw : Object → List ℕ)
      (unmarshal : List ℕ → Result (Fields Float64)) where
    pub resolve_deployment : Option Object → Result (ResolvedDeployment Object)
    resolve_deployment o = do
      (d, m) ←
          decode_contract raw unmarshal "deployment is nil" "failed to decode deployment contract" o
      spec ← resolve_deployment_spec m
      ok (record { deployment = d; spec = spec })
