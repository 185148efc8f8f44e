-- ===== src/Resolution/Packages/Examples.antt =====
-- A contract with a state repository and a maintainer, and the theorem about Packages at it.
use environments.Common.{ℕ, ◌≡◌, refl, Option, some, List, [], ◌∷◌, Result, ok, true}
use environments.Json.{
  Fields, str, bool, obj, arr, cons, nil, end, field, lookup, must_string, optional_string,
  optional_bool, required_map,
}
use environments.Resolution.Packages.{
  ResolvedPackage, resolve_repository, resolve_state_repository, maintainer_entries,
  resolve_maintainers, resolve_package_spec, resolve_package,
}
use environments.Resolution.Packages.Laws.{IsPackageOf, resolve_package-IsPackageOf}
use environments.Samples.{bytes}

abbrev raw : List ℕ → Option (List ℕ)
raw o = some o

abbrev maintainer : Fields ℕ
maintainer = field "name" (str "Ada") (field "email" (str "ada@example.org") end)

abbrev contract : Fields ℕ
contract = field "name" (str "shop") (
    field "version" (str "1.2.0") (
      field "diffEnabled" (bool true) (
        field "repository"
          (obj (field "url" (str "https://example.org/p.git") (field "ref" (str "main") end)))
          (field "stateRepository" (obj (field "url" (str "https://example.org/s.git") end))
            (field "maintainers" (arr (cons (obj maintainer) nil)) end)))))

abbrev unmarshal : List ℕ → Result (Fields ℕ)
unmarshal _ = ok contract

abbrev resolved : ResolvedPackage (List ℕ)
resolved = record {
  packages = bytes;
  spec = record {
    name = "shop";
    version = "1.2.0";
    description = "";
    diff_enabled = true;
    package_repository = record {
      url = "https://example.org/p.git";
      credentials_secret = "";
      ref = "main";
      path = "";
    };
    state_repository = some (record {
      url = "https://example.org/s.git";
      ref = "";
      clone_secret = "";
      strategy = "";
      path = "";
    });
    maintainers = record { name = "Ada"; email = "ada@example.org" } ∷ [];
  };
}

resolve_package_test : resolve_package raw unmarshal (some bytes) ≡ ok resolved
unfolding resolve_package resolve_package_spec resolve_repository resolve_state_repository
    resolve_maintainers maintainer_entries must_string optional_string optional_bool required_map
    lookup
resolve_package_test = refl

resolve_package-IsPackageOf_example :
    (resolved.packages ≡ bytes)
    × ((b : List ℕ) × (m : Fields ℕ) × (raw bytes ≡ some b)
        × (unmarshal b ≡ ok m)
        × IsPackageOf m resolved.spec)
resolve_package-IsPackageOf_example =
    resolve_package-IsPackageOf raw unmarshal bytes resolved resolve_package_test
