-- ===== src/Package/Plan/Examples.antt =====
-- A Package with a state repository that is applied by Kustomize.
use environments.Common.{ℕ, ◌≡◌, refl, Option, some, List, [], ◌∷◌, Result, ok, false}
use environments.Json.{
  Fields, str, obj, end, field, lookup, must_string, optional_string, optional_bool, required_map,
}
use environments.Resolution.Packages.{
  ResolvedPackage, resolve_repository, resolve_state_repository, resolve_package_spec,
  resolve_package,
}
use environments.Package.{PackageObject, kustomize, parse_apply_strategy}
use environments.Package.Plan.{
  build_package_intent, intent_of_package, state_repository_of, blanketops_labels,
}
use environments.Package.Plan.Laws.{PlannedTogether, resolve_package-PlannedTogether}

abbrev object : PackageObject
object = record {
  name = "shop";
  namespace = "prod";
  uid = "u-1";
  labels = ("app", "shop") ∷ ("environments.blanketops.dev/name", "prod") ∷ [];
}

abbrev contract : Fields ℕ
contract = field "name" (str "shop") (
    field "version" (str "1.2.0") (
      field "repository"
        (obj (
          field "url" (str "https://example.org/p.git")
            (field "ref" (str "main") (field "path" (str "deploy") end))))
        (field "stateRepository"
          (obj (
            field "url" (str "https://example.org/s.git")
              (field "strategy" (str "kustomization") end)))
          end)))

abbrev raw : PackageObject → Option (List ℕ)
raw _ = some (1 ∷ [])

abbrev unmarshal : List ℕ → Result (Fields ℕ)
unmarshal _ = ok contract

abbrev resolved : ResolvedPackage PackageObject
resolved = record {
  packages = object;
  spec = record {
    name = "shop";
    version = "1.2.0";
    description = "";
    diff_enabled = false;
    package_repository = record {
      url = "https://example.org/p.git";
      credentials_secret = "";
      ref = "main";
      path = "deploy";
    };
    state_repository = some (record {
      url = "https://example.org/s.git";
      ref = "";
      clone_secret = "";
      strategy = "kustomization";
      path = "";
    });
    maintainers = [];
  };
}

resolve_package_shop : resolve_package raw unmarshal (some object) ≡ ok resolved
unfolding resolve_package resolve_package_spec resolve_repository resolve_state_repository
    must_string optional_string optional_bool required_map lookup
resolve_package_shop = refl

resolve_package-PlannedTogether_example : PlannedTogether resolved
resolve_package-PlannedTogether_example =
    resolve_package-PlannedTogether raw unmarshal object resolved resolve_package_shop

build_package_intent_test :
    build_package_intent (some resolved)
    ≡ ok (record {
      id = record { namespace = "prod"; name = "shop" };
      owner_uid = "u-1";
      labels = ("environments.blanketops.dev/name", "prod") ∷ [];
      source = record {
        repository_url = "https://example.org/p.git";
        credentials_secret = "";
        path = "deploy";
      };
      state_repo = record {
        url = "https://example.org/s.git";
        ref = "";
        clone_secret = "";
        strategy = "kustomization";
        path = "";
      };
      diff_enabled = false;
      strategy = kustomize;
      resolved_ref = "main";
      resolved_commit = "";
    })
unfolding build_package_intent parse_apply_strategy intent_of_package state_repository_of
    blanketops_labels
build_package_intent_test = refl
