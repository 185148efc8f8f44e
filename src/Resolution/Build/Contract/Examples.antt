-- ===== src/Resolution/Build/Contract/Examples.antt =====
-- Two Builds that differ in the kind of their strategy only have the same contract.
use environments.Common.{ℕ, ◌≡◌, ◌↔◌, refl, none, some, [], ◌∷◌}
use environments.Resolution.Build.{ResolvedBuildSpec, ResolvedStrategy}
use environments.Resolution.Build.Contract.{TriggerEnum, to_build_contract}
use environments.Resolution.Build.Contract.Laws.{SameExecution, to_build_contract-SameExecution}

abbrev enum : TriggerEnum ℕ
enum = record { commit = 1; pull_request = 2; manual = 3; unspecified = 0 }

abbrev spec : ResolvedStrategy → ResolvedBuildSpec ℕ
spec strategy = record {
  image = "registry/app:1";
  source = record {
    url = "https://example.org/app.git";
    revision = "";
    context_dir = "";
    clone_secret = "";
  };
  githubevent = "";
  strategy = strategy;
  service_account = none;
  policy = record { triggers = "push" ∷ []; retry = none };
}

abbrev shared : ResolvedBuildSpec ℕ
shared = spec (record { name = "buildah"; strategy_kind = "ClusterBuildStrategy" })

abbrev own : ResolvedBuildSpec ℕ
own = spec (record { name = "buildah"; strategy_kind = "NamespacedBuildStrategy" })

same_contract : to_build_contract enum (some shared) ≡ to_build_contract enum (some own)
unfolding to_build_contract
same_contract = refl

to_build_contract-SameExecution_example :
    (to_build_contract enum (some shared) ≡ to_build_contract enum (some own))
    ↔ SameExecution enum shared own
to_build_contract-SameExecution_example =
    to_build_contract-SameExecution enum shared own (λ e. cc) (λ e. cc) (λ e. cc) (λ e. cc)
