-- ===== src/Cache/Fields.antt =====
-- cache/<kind>/<kind>.go: what PublishResolved caches of a resolved spec, for each kind, with the
-- names that the Set methods give the fields. A step is one Set call, which may set several fields.
use environments.Common.{
  String, Bool, true, false, not, Option, none, some, List, [], ◌∷◌, ◌++◌, ◌==◌, ◌&&◌,
  if◌then◌else◌,
}
use environments.Resolution.Build.{
  ResolvedSource, ResolvedStrategy, ResolvedServiceAccount, ResolvedBuildPolicy, ResolvedBuildSpec,
}
use environments.Resolution.Deployment.{ResolvedManifestsRepo, ResolvedDeploymentSpec}
use environments.Resolution.Route.{ResolvedServiceUnitRef, ResolvedRouteSpec}
use environments.Resolution.Environment.{ResolvedSecretStore, ResolvedEnvironmentSpec}
use environments.Resolution.Domain.{ResolvedDomainSpec}
use environments.Resolution.ServiceUnit.{UnitTypeEnum, ResolvedBuildRef, ResolvedServiceUnitSpec}
use environments.Resolution.Packages.{
  ResolvedPackageRepository, ResolvedStateRepository, ResolvedPackageSpec,
}
use environments.Resolution.GitHubEvent.{ResolvedSecretRef, ResolvedGitHubEventSpec}

-- a value of Go's type any, by the type that is stored
pub data Cached (Int32 Uint32 : Type 0) : Type 0 where
  text : String → Cached Int32 Uint32
  flag : Bool → Cached Int32 Uint32
  number : Int32 → Cached Int32 Uint32
  texts : List String → Cached Int32 Uint32
  source : ResolvedSource → Cached Int32 Uint32
  build_strategy : ResolvedStrategy → Cached Int32 Uint32
  account : ResolvedServiceAccount → Cached Int32 Uint32
  policy : ResolvedBuildPolicy Uint32 → Cached Int32 Uint32
  manifests_repo : ResolvedManifestsRepo → Cached Int32 Uint32
  build_ref : ResolvedBuildRef → Cached Int32 Uint32
  package_repository : ResolvedPackageRepository → Cached Int32 Uint32
  state_repository : ResolvedStateRepository → Cached Int32 Uint32
  webhook : ResolvedSecretRef → Cached Int32 Uint32

-- A Set call that is made on a condition.
abbrev on_condition {ℓ} : {A : Type ℓ} → Bool → A → List A
on_condition true a = a ∷ []
on_condition false a = []

abbrev is_declared : {A : Type 0} {B : Type 0} → Option A → (A → B) → List B
is_declared none f = []
is_declared (some a) f = f a ∷ []

-- the fields of one Set call
abbrev pub Step : Type 0 → Type 0 → Type 0
Step Int32 Uint32 = List (String × Cached Int32 Uint32)

module _ {Int32 Uint32 : Type 0} where
  abbrev set_text : String → String → Step Int32 Uint32
  set_text field s = (field, text s) ∷ []

  -- a text that is set only if it is not empty
  abbrev set_declared : String → String → List (Step Int32 Uint32)
  set_declared field s = on_condition (not (s == "")) (set_text field s)

  abbrev set_listed : String → List String → List (Step Int32 Uint32)
  set_listed field [] = []
  set_listed field (s ∷ ss) = ((field, texts (s ∷ ss)) ∷ []) ∷ []

  -- The policy that resolution returns is never nil.
  unfoldable pub build_fields : ResolvedBuildSpec Uint32 → List (Step Int32 Uint32)
  build_fields s =
      set_text "image" s.image
      ∷ (("source", source s.source) ∷ [])
      ∷ (("strategy", build_strategy s.strategy) ∷ [])
      ∷ (is_declared s.service_account (λ a. ("serviceAccount", account a) ∷ [])
          ++ ((("policy", policy s.policy) ∷ []) ∷ []))

  pub deployment_fields : ResolvedDeploymentSpec → List (Step Int32 Uint32)
  deployment_fields s =
      set_text "runtime" s.runtime
      ∷ set_text "strategy" s.strategy
      ∷ set_text "reconciliationStrategy" s.reconciliation_strategy
      ∷ (set_listed "serviceUnits" s.service_units
          ++ (((("imageAutomation", flag s.image_automation) ∷ []) ∷ [])
              ++ (set_declared "gitOwner" s.git_owner
                  ++ is_declared s.manifests_repo (λ r. ("manifestsRepo", manifests_repo r) ∷ []))))

  route_ref_step : Option ResolvedServiceUnitRef → List (Step Int32 Uint32)
  route_ref_step none = []
  route_ref_step (some ref) = set_declared "serviceUnitRefName" ref.name

  pub route_fields : ResolvedRouteSpec → List (Step Int32 Uint32)
  unfolding route_ref_step
  route_fields s =
      set_text "host" s.host
      ∷ (("enabled", flag s.enabled) ∷ [])
      ∷ set_text "path" s.path
      ∷ (("tlsEnabled", flag s.tls_enabled) ∷ [])
      ∷ (is_declared s.runtime (set_text "runtime") ++ route_ref_step s.service_unit_ref)

  -- SetSecretStore sets two fields, the second only if the first could be set.
  secret_store_step : ResolvedSecretStore → List (Step Int32 Uint32)
  secret_store_step ss =
      on_condition (not (ss.provider == ""))
        (("secretStoreProvider", text ss.provider) ∷ ("secretStoreName", text ss.store_name) ∷ [])

  pub environment_fields : ResolvedEnvironmentSpec → List (Step Int32 Uint32)
  unfolding secret_store_step
  environment_fields s =
      set_text "applicationName" s.application_name
      ∷ set_text "environmentType" s.environment_type
      ∷ set_text "version" s.version
      ∷ (secret_store_step s.contract.secret_store
          ++ (set_declared "build" s.build
              ++ (set_declared "gitRepository" s.git_repository
                  ++ (set_declared "gitHubEvent" s.git_hub_event
                      ++ (set_declared "deployment" s.deployment
                          ++ (set_declared "route" s.route
                              ++ (set_declared "package" s.packages
                                  ++ set_listed "serviceUnits" s.service_units)))))))

  pub domain_fields : ResolvedDomainSpec → List (Step Int32 Uint32)
  domain_fields s =
      set_text "host" s.host
      ∷ set_text "routeRef" s.route_ref.name
      ∷ (is_declared s.tls_strategy (set_text "tlsStrategy")
          ++ (((("mtlsEnforced", flag s.mtls.enforced) ∷ []) ∷ [])
              ++ set_declared "renewBefore" s.renew_before))

  -- `!= zeroRepo`: some field of the repository is not empty
  repository_step : ResolvedPackageRepository → List (Step Int32 Uint32)
  repository_step r =
      on_condition
        (not ((r.url == "") && (r.credentials_secret == "") && (r.ref == "") && (r.path == "")))
        (("packageRepository", package_repository r) ∷ [])

  pub package_fields : ResolvedPackageSpec → List (Step Int32 Uint32)
  unfolding repository_step
  package_fields s =
      set_text "version" s.version
      ∷ (("kappDiff", flag s.diff_enabled) ∷ [])
      ∷ (repository_step s.package_repository
          ++ is_declared s.state_repository (λ r. ("stateRepo", state_repository r) ∷ []))

  pub github_event_fields : ResolvedGitHubEventSpec → List (Step Int32 Uint32)
  github_event_fields s =
      set_text "repository" s.repository
      ∷ set_text "eventType" s.event_type
      ∷ set_text "ref" s.ref
      ∷ on_condition (not ((s.webhook.name == "") && (s.webhook.key == "")))
          (("webhook", webhook s.webhook) ∷ [])

-- `type_text` is String() of the generated enum and `is_positive` the test `> 0` on int32.
module _ {Float64 Enum Int32 Uint32 : Type 0} (types : UnitTypeEnum Float64 Enum)
    (type_text : Enum → String) (is_positive : Int32 → Bool) where
  source_step : ResolvedServiceUnitSpec Enum Int32 → List (Step Int32 Uint32)
  source_step s =
      if types.same s.unit_type types.static
      then set_text "image" s.image ∷ []
      else if types.same s.unit_type types.build
      then is_declared s.build_ref (λ r. ("buildRef", build_ref r) ∷ [])
      else []

  pub service_unit_fields : ResolvedServiceUnitSpec Enum Int32 → List (Step Int32 Uint32)
  unfolding source_step
  service_unit_fields s =
      set_text "type" (type_text s.unit_type)
      ∷ set_text "appType" s.app_type
      ∷ set_text "stackType" s.stack_type
      ∷ (on_condition (is_positive s.container_port)
            (("containerPort", number s.container_port) ∷ [])
          ++ (on_condition (is_positive s.size) (("size", number s.size) ∷ []) ++ source_step s))
