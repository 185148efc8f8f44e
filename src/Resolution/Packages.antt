-- ===== src/Resolution/Packages.antt =====
-- resolution/packages/resolve/resolve.go. Here a nil contract is refused and not an empty one, so an
-- object's bytes are an option.
pub mod Laws
mod Examples
use environments.Common.{
  ℕ, suc, String, Bool, false, Option, none, some, List, [], ◌∷◌, Result, ok, err, errorf,
  errorf_at, wrap_at, labelled, ◌>>=◌,
}
use environments.Json.{
  Json, str, obj, Fields, lookup, as_map, as_list, must_string, optional_string, optional_bool,
  required_map,
}

pub record ResolvedPackageRepository : Type 0 where
  pub url : String
  pub credentials_secret : String
  pub ref : String
  pub path : String

pub record ResolvedStateRepository : Type 0 where
  pub url : String
  pub ref : String
  pub clone_secret : String
  pub strategy : String
  pub path : String

pub record ResolvedMaintainer : Type 0 where
  pub name : String
  pub email : String

pub record ResolvedPackageSpec : Type 0 where
  pub name : String
  pub version : String
  pub description : String
  pub diff_enabled : Bool
  pub package_repository : ResolvedPackageRepository
  pub state_repository : Option ResolvedStateRepository
  pub maintainers : List ResolvedMaintainer

pub record ResolvedPackage (Object : Type 0) : Type 0 where
  pub packages : Object
  pub spec : ResolvedPackageSpec

-- "maintainers[i].key: " before the error of a field
maintainer_field : {A : Type 0} → ℕ → String → Result A → Result A
maintainer_field i key (ok a) = ok a
maintainer_field i key (err e) = err (wrap_at "maintainers" i key e)

module _ {Float64 : Type 0} where
  unfoldable pub resolve_repository : Fields Float64 → Result ResolvedPackageRepository
  resolve_repository m = do
    url ← must_string m "url"
    ref ← must_string m "ref"
    ok (record {
      url = url;
      credentials_secret = optional_string m "credentialsSecret";
      ref = ref;
      path = optional_string m "path";
    })

  -- a ref that is declared must be a text, which may be empty
  ref_of : Option (Json Float64) → Result String
  ref_of none = ok ""
  ref_of (some (str s)) = ok s
  ref_of _ = err (errorf "ref must be a string")

  unfoldable pub resolve_state_repository : Fields Float64 → Result ResolvedStateRepository
  unfolding ref_of
  resolve_state_repository m = do
    url ← must_string m "url"
    ref ← ref_of (lookup "ref" m)
    ok (record {
      url = url;
      ref = ref;
      clone_secret = optional_string m "cloneSecret";
      strategy = optional_string m "strategy";
      path = optional_string m "path";
    })

  optional_state : Option (Json Float64) → Result (Option ResolvedStateRepository)
  optional_state none = ok none
  optional_state (some (obj m)) = do
    r ← labelled "stateRepository" (resolve_state_repository m)
    ok (some r)
  optional_state _ = err (errorf "stateRepository must be an object")

  maintainer_of : ℕ → Option (Fields Float64) → Result ResolvedMaintainer
  unfolding maintainer_field
  maintainer_of i none = err (errorf_at "maintainers" i "must be an object")
  maintainer_of i (some m) = do
    name ← maintainer_field i "name" (must_string m "name")
    email ← maintainer_field i "email" (must_string m "email")
    ok (record { name = name; email = email })

  -- the loop over `list`, from index `i` on
  pub maintainer_entries : ℕ → List (Json Float64) → Result (List ResolvedMaintainer)
  unfolding maintainer_of
  maintainer_entries i [] = ok []
  maintainer_entries i (v ∷ vs) = do
    m ← maintainer_of i (as_map (some v))
    ms ← maintainer_entries (suc i) vs
    ok (m ∷ ms)

  pub resolve_maintainers : Option (List (Json Float64)) → Result (List ResolvedMaintainer)
  resolve_maintainers none = err (errorf "maintainers must be an array")
  resolve_maintainers (some vs) = maintainer_entries 0 vs

  optional_maintainers : Option (Json Float64) → Result (List ResolvedMaintainer)
  optional_maintainers none = ok []
  optional_maintainers (some v) = resolve_maintainers (as_list (some v))

  unfoldable pub resolve_package_spec : Fields Float64 → Result ResolvedPackageSpec
  unfolding optional_state optional_maintainers
  resolve_package_spec m = do
    name ← must_string m "name"
    version ← must_string m "version"
    r ← required_map m "repository"
    repository ← labelled "repository" (resolve_repository r)
    state ← optional_state (lookup "stateRepository" m)
    maintainers ← optional_maintainers (lookup "maintainers" m)
    ok (record {
      name = name;
      version = version;
      description = optional_string m "description";
      diff_enabled = optional_bool m "diffEnabled" false;
      package_repository = repository;
      state_repository = state;
      maintainers = maintainers;
    })

module _ {Object Float64 : Type 0} (raw : Object → Option (List ℕ))
    (unmarshal : List ℕ → Result (Fields Float64)) where
  decode_package : Option (List ℕ) → Result (Fields Float64)
  decode_package none = err (errorf "spec.contract is required")
  decode_package (some bytes) = labelled "failed to decode contract" (unmarshal bytes)

  unfoldable pub resolve_package : Option Object → Result (ResolvedPackage Object)
  unfolding decode_package
  resolve_package none = err (errorf "package is nil")
  resolve_package (some o) = do
    m ← decode_package (raw o)
    spec ← resolve_package_spec m
    ok (record { packages = o; spec = spec })
