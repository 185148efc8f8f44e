-- ===== src/Resolution/Build/Examples.antt =====
-- A contract with triggers and a retry, and the theorem about Builds at it.
use environments.Common.{ℕ, ◌≡◌, refl, none, some, List, [], ◌∷◌, Result, ok, true, same_number}
use environments.Json.{
  Fields, null, str, num, bool, obj, arr, cons, nil, end, field, lookup, must_string,
  optional_string, optional_bool,
}
use environments.Resolution.Contract.{decode_contract}
use environments.Resolution.Contract.Laws.{ComesFrom}
use environments.Resolution.Build.{
  Uint32Of, ResolvedBuild, resolve_build_source, resolve_build_strategy, triggers_of,
  optional_uint32, resolve_policy, resolve_build_spec, resolve_build,
}
use environments.Resolution.Build.Laws.{IsBuildOf, resolve_build-IsBuildOf}
use environments.Samples.{raw, bytes, same_number_iff}

abbrev uints : Uint32Of ℕ ℕ
uints = record {
  zero32 = 0;
  of_float64 = λ n. n;
  is_zero = λ n. same_number n 0;
  is_zero_iff = λ n. same_number_iff n 0;
}

abbrev policy : Fields ℕ
policy =
    field "allowedTriggers" (arr (cons (obj (field "type" (str "push") end)) (cons null nil)))
      (field "retry" (obj (field "onFailure" (bool true) (field "maxAttempts" (num 3) end))) end)

abbrev contract : Fields ℕ
contract = field "source" (obj (field "url" (str "https://example.org/app.git") end)) (
    field "image" (str "registry/app:1") (
      field "strategy"
        (obj (field "name" (str "buildah") (field "kind" (str "ClusterBuildStrategy") end)))
        (field "policy" (obj policy) end)))

abbrev unmarshal : List ℕ → Result (Fields ℕ)
unmarshal _ = ok contract

abbrev resolved : ResolvedBuild (List ℕ) ℕ
resolved = record {
  build = bytes;
  spec = record {
    image = "registry/app:1";
    source = record {
      url = "https://example.org/app.git";
      revision = "";
      context_dir = "";
      clone_secret = "";
    };
    githubevent = "";
    strategy = record { name = "buildah"; strategy_kind = "ClusterBuildStrategy" };
    service_account = none;
    policy = record {
      triggers = "push" ∷ [];
      retry = some (record { on_failure = true; max_attempts = 3 });
    };
  };
}

resolve_build_test : resolve_build uints raw unmarshal (some bytes) ≡ ok resolved
unfolding resolve_build resolve_build_spec resolve_build_source resolve_build_strategy triggers_of
    optional_uint32 resolve_policy must_string optional_string optional_bool lookup decode_contract
resolve_build_test = refl

resolve_build-IsBuildOf_example :
    ComesFrom raw unmarshal (some bytes) bytes (λ m. IsBuildOf uints m resolved.spec)
resolve_build-IsBuildOf_example =
    resolve_build-IsBuildOf uints raw unmarshal (some bytes) resolved resolve_build_test
