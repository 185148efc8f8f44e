-- ===== src/Package/Plan.antt =====
-- pkg/intent/package (BuildPackageIntent, BlanketOpsLabels) and
-- pkg/apis/packages/application/mapper.go: the two forms that a resolved Package is brought into. A
-- nil ResolvedPackage, and one without its Package or its spec, are all `none`. Fields that a
-- literal leaves out are zero.
pub mod Laws
mod Examples
use environments.Common.{
  ℕ, String, Bool, Option, none, some, List, [], ◌∷◌, map, ◌==◌, if◌then◌else◌, errorf, errorf_of,
  Result, ok, err, ◌>>=◌,
}
use text.Mathlib.Text.{starts_with}
use environments.Build.Object.{StringMap}
use environments.Resolution.Packages.{
  ResolvedStateRepository, ResolvedMaintainer, ResolvedPackageSpec, ResolvedPackage,
}
use environments.Package.{
  PackageObject, PackageId, PackageSource, StateRepository, Maintainer, ApplyStrategy,
  parse_apply_strategy, invalid_spec,
}

pub record PackageIntent : Type 0 where
  pub id : PackageId
  pub owner_uid : String
  pub labels : StringMap
  pub source : PackageSource
  pub state_repo : StateRepository
  pub diff_enabled : Bool
  pub strategy : ApplyStrategy
  pub resolved_ref : String
  pub resolved_commit : String

-- domain.PackageSpec; the time of the last reconciliation, which the mapper leaves nil, is left out
pub record PackageSpec : Type 0 where
  pub id : PackageId
  pub name : String
  pub version : String
  pub description : String
  pub maintainers : List Maintainer
  pub source : PackageSource
  pub state_repo : StateRepository
  pub diff_enabled : Bool
  pub strategy : ApplyStrategy

abbrev pub label_prefix : String
label_prefix = "environments.blanketops.dev/"

-- the loop over the labels; a map without entries is nil
unfoldable pub blanketops_labels : StringMap → StringMap
blanketops_labels [] = []
blanketops_labels ((k, v) ∷ labels) =
    let rest = blanketops_labels labels in
    if starts_with k label_prefix then (k, v) ∷ rest else rest

unfoldable pub state_repository_of : Option ResolvedStateRepository → StateRepository
state_repository_of none = record {
  url = "";
  ref = "";
  clone_secret = "";
  strategy = "";
  path = "";
}
state_repository_of (some r) = record {
  url = r.url;
  ref = r.ref;
  clone_secret = r.clone_secret;
  strategy = r.strategy;
  path = r.path;
}

unfoldable pub intent_of_package : ResolvedPackage PackageObject → ApplyStrategy → PackageIntent
intent_of_package rp strategy = record {
  id = record { namespace = rp.packages.namespace; name = rp.packages.name };
  owner_uid = rp.packages.uid;
  labels = blanketops_labels rp.packages.labels;
  source = record {
    repository_url = rp.spec.package_repository.url;
    credentials_secret = rp.spec.package_repository.credentials_secret;
    path = rp.spec.package_repository.path;
  };
  state_repo = state_repository_of rp.spec.state_repository;
  diff_enabled = rp.spec.diff_enabled;
  strategy = strategy;
  resolved_ref = rp.spec.package_repository.ref;
  resolved_commit = "";
}

unfoldable pub build_package_intent : Option (ResolvedPackage PackageObject) → Result PackageIntent
build_package_intent none = err (errorf "nil ResolvedPackage passed to BuildPackageIntent")
build_package_intent (some rp) = do
  strategy ← parse_apply_strategy (state_repository_of rp.spec.state_repository).strategy
  ok (intent_of_package rp strategy)

-- the loop over the maintainers
maintainers_of : List ResolvedMaintainer → List Maintainer
maintainers_of = map λ m. record { name = m.name; email = m.email }

-- The path of the repository is not carried over.
unfoldable pub spec_of_package : ResolvedPackage PackageObject → ApplyStrategy → PackageSpec
unfolding maintainers_of
spec_of_package rp strategy = record {
  id = record { namespace = rp.packages.namespace; name = rp.packages.name };
  name = rp.spec.name;
  version = rp.spec.version;
  description = rp.spec.description;
  maintainers = maintainers_of rp.spec.maintainers;
  source = record {
    repository_url = rp.spec.package_repository.url;
    credentials_secret = rp.spec.package_repository.credentials_secret;
    path = "";
  };
  state_repo = state_repository_of rp.spec.state_repository;
  diff_enabled = rp.spec.diff_enabled;
  strategy = strategy;
}

unfoldable pub map_package : Option (ResolvedPackage PackageObject) → Result PackageSpec
map_package none =
    err (invalid_spec (errorf "nil ResolvedPackage passed to Package mapper (resolver bug)"))
map_package (some rp) =
    if rp.spec.name == ""
    then err
        (invalid_spec (errorf_of "resolved package has empty Name (resolver bug)" rp.packages.name))
    else if rp.spec.version == ""
    then err (
        invalid_spec
          (errorf_of "resolved package has empty Version (resolver bug)" rp.packages.name))
    else (do
      strategy ← parse_apply_strategy (state_repository_of rp.spec.state_repository).strategy
      ok (spec_of_package rp strategy))
