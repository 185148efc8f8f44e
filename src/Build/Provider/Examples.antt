-- ===== src/Build/Provider/Examples.antt =====
-- Runs on an empty cluster, and a teardown.
use environments.Common.{String, ◌≡◌, ◌⊎◌, refl, false, Option, some, Error, errorf, err, Exec, ok}
use environments.Resolution.Build.Contract.{to_build_contract}
use environments.Build.Image.{short_hash}
use environments.Build.Object.{BuildObject}
use environments.Build.Trigger.{compute_execution_hash}
use environments.Build.Shipwright.{
  ShipwrightBuildRun, create_build_spec, build_object, run_name, create_build_run_spec,
}
use environments.Build.Provider.{
  BuildResult, run_with, created_text, stage_build, stage_run, execution_hash, dispatch, reported,
}
use environments.Build.Provider.Laws.{Store, with_key}
use environments.Build.Provider.Dispatch.{IsOwnRun, run_with-refused}
use environments.Build.Samples.{
  resolved_build, mapped, enum, digest, untouched, cluster, serves, empty,
}

abbrev text : Error → String
text e = "error"

abbrev result : (BuildResult × Option Error) × Store
result = run_with cluster enum digest text untouched created_text resolved_build mapped empty

ref_test : result.0.0.execution_ref ≡ "app-0123456789ab"
unfolding run_with dispatch stage_build stage_run reported create_build_spec build_object
    execution_hash compute_execution_hash to_build_contract create_build_run_spec run_name
    short_hash
ref_test = refl

-- between the stages a call fails
abbrev broken : BuildObject → Exec Store BuildObject
broken b w = (err (errorf "list githubevents"), w)

broken_same_key :
    (b o : BuildObject) (w : Store)
    → (broken b w).0 ≡ ok o
    → (o.name ≡ b.name) × (o.namespace ≡ b.namespace)
broken_same_key b o w h = cc

abbrev refused : (BuildResult × Option Error) × Store
refused = run_with cluster enum digest text broken created_text resolved_build mapped empty

refused_test : refused.0.1 ≡ some (errorf "list githubevents")
unfolding run_with dispatch stage_build stage_run reported create_build_spec build_object
refused_test = refl

run_with-refused_example :
    (refused.0.0
      ≡ record { success = false; triggered = false; message = "error"; execution_ref = "" })
    × ((refused.1.runs ≡ empty.runs)
        ⊎ ((run : ShipwrightBuildRun) × IsOwnRun cluster
              (λ w. w)
              serves
              enum
              digest
              broken
              (λ b w. refl)
              broken_same_key
              resolved_build
              mapped
              empty
              run
            × (refused.1.runs ≡ with_key run.namespace run.name empty.runs)))
run_with-refused_example =
    run_with-refused cluster (λ w. w) serves enum digest broken (λ b w. refl) broken_same_key text
      created_text resolved_build mapped empty (errorf "list githubevents") refused_test
