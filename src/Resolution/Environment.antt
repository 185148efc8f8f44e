-- ===== src/Resolution/Environment.antt =====
-- resolution/environment/resolve/resolve.go
mod Sections
pub mod Laws
mod Examples
use environments.Common.{
  ℕ, suc, String, Bool, true, false, ◌||◌, Option, none, some, List, [], ◌∷◌, ◌==◌, if◌then◌else◌,
  Result, ok, err, Error, errorf, errorf_of, errorf_at, wrap_at, labelled, ◌>>=◌,
}
use environments.Json.{Json, obj, Fields, lookup, as_map, as_list, must_string, optional_string}
use environments.Resolution.Contract.{decode_contract}

pub record ResolvedVaultConfig : Type 0 where
  pub address : String
  pub path : String
  pub role : String
  pub mount_path : String
  pub version : String
  pub service_account_name : String

pub record ResolvedSecretStore : Type 0 where
  pub provider : String
  pub store_name : String
  pub vault : Option ResolvedVaultConfig

pub record ResolvedEnvironmentContract : Type 0 where
  pub secret_store : ResolvedSecretStore

pub record ResolvedEnvironmentSpec : Type 0 where
  pub application_name : String
  pub branch : String
  pub git_owner : String
  pub environment_type : String
  pub version : String
  pub description : String
  -- an empty text is a reference that is not declared
  pub build : String
  pub git_repository : String
  pub git_hub_event : String
  pub deployment : String
  pub route : String
  pub domain : String
  pub packages : String
  pub service_units : List String
  pub contract : ResolvedEnvironmentContract

-- Both are nil for a nil Environment.
pub record ResolvedEnvironment (Object : Type 0) : Type 0 where
  pub environment : Option Object
  pub spec : Option ResolvedEnvironmentSpec

abbrev or_default : String → String → String
or_default fallback s = if s == "" then fallback else s

abbrev pub is_vault : String → Bool
is_vault provider = provider == "vault" || provider == "SECRET_STORE_PROVIDER_VAULT"

labelled_at : {A : Type 0} → ℕ → Result A → Result A
labelled_at i (ok a) = ok a
labelled_at i (err e) = err (wrap_at "serviceUnits" i "name" e)

module _ {Float64 : Type 0} where
  reference_name : String → Option (Fields Float64) → Result String
  reference_name label none = ok ""
  reference_name label (some r) = labelled label (must_string r "name")

  -- `if v, ok := raw[key].(map[string]any); ok`, seven times
  pub optional_reference : String → String → Fields Float64 → Result String
  unfolding reference_name
  optional_reference key label m = reference_name label (as_map (lookup key m))

  entry_name : ℕ → Option (Fields Float64) → Result String
  unfolding labelled_at
  entry_name i none = err (errorf_at "serviceUnits" i "must be an object")
  entry_name i (some r) = labelled_at i (must_string r "name")

  -- the loop over `list`, from index `i` on
  pub unit_names : ℕ → List (Json Float64) → Result (List String)
  unfolding entry_name
  unit_names i [] = ok []
  unit_names i (v ∷ vs) = do
    n ← entry_name i (as_map (some v))
    ns ← unit_names (suc i) vs
    ok (n ∷ ns)

  pub optional_units : Option (List (Json Float64)) → Result (List String)
  optional_units none = ok []
  optional_units (some vs) = unit_names 0 vs

  pub resolve_vault : String → Option (Fields Float64) → Result ResolvedVaultConfig
  resolve_vault provider none =
      err (errorf_of "contract.secretStore.vault is required for provider" provider)
  resolve_vault provider (some v) = do
    address ← labelled "contract.secretStore.vault.address" (must_string v "address")
    path ← labelled "contract.secretStore.vault.path" (must_string v "path")
    role ← labelled "contract.secretStore.vault.role" (must_string v "role")
    ok (record {
      address = address;
      path = path;
      role = role;
      mount_path = or_default "kubernetes" (optional_string v "mountPath");
      version = or_default "v2" (optional_string v "version");
      service_account_name = optional_string v "serviceAccountName";
    })

  -- The store's own config is decoded for Vault alone.
  resolve_provider : String → Fields Float64 → Result (Option ResolvedVaultConfig)
  resolve_provider provider ss =
      let vault = resolve_vault provider (as_map (lookup "vault" ss)) in
      if is_vault provider then (vault >>= λ v. ok (some v)) else ok none

  pub resolve_secret_store : Option (Fields Float64) → Result ResolvedSecretStore
  unfolding resolve_provider
  resolve_secret_store none = err (errorf "contract.secretStore is required")
  resolve_secret_store (some ss) = do
    provider ← labelled "contract.secretStore.provider" (must_string ss "provider")
    vault ← resolve_provider provider ss
    ok (record { provider = provider; store_name = optional_string ss "storeName"; vault = vault })

  pub resolve_environment_spec : Fields Float64 → Result ResolvedEnvironmentSpec
  unfolding optional_units
  resolve_environment_spec m = do
    application_name ← must_string m "applicationName"
    branch ← must_string m "branch"
    git_owner ← must_string m "gitOwner"
    environment_type ← must_string m "environmentType"
    version ← must_string m "version"
    build ← optional_reference "build" "build.name" m
    git_repository ← optional_reference "gitRepository" "gitRepository.name" m
    git_hub_event ← optional_reference "gitHubEvent" "gitHubEvent.name" m
    service_units ← optional_units (as_list (lookup "serviceUnits" m))
    deployment ← optional_reference "deployment" "deployment.name" m
    route ← optional_reference "route" "route.name" m
    domain ← optional_reference "domain" "domain.name" m
    packages ← optional_reference "package" "package.name" m
    secret_store ← resolve_secret_store (as_map (lookup "secretStore" m))
    ok (record {
      application_name = application_name;
      branch = branch;
      git_owner = git_owner;
      environment_type = environment_type;
      version = version;
      description = optional_string m "description";
      build = build;
      git_repository = git_repository;
      git_hub_event = git_hub_event;
      deployment = deployment;
      route = route;
      domain = domain;
      packages = packages;
      service_units = service_units;
      contract = record { secret_store = secret_store };
    })

module _ {Object Float64 : Type 0} (raw : Object → List ℕ)
    (unmarshal : List ℕ → Result (Fields Float64)) where
  pub resolve_environment : Option Object → Result (ResolvedEnvironment Object)
  resolve_environment none = ok (record { environment = none; spec = none })
  resolve_environment (some o) = do
    (e, m) ← decode_contract raw unmarshal "" "failed to decode raw contract" (some o)
    spec ← resolve_environment_spec m
    ok (record { environment = some e; spec = some spec })
