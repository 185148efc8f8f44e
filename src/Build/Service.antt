-- ===== src/Build/Service.antt =====
-- pkg/apis/build/application/service.go. The write of the status, which the module Status models, is
-- an argument; so is the time of the call.
pub mod Laws
mod Examples
use environments.Common.{
  ℕ, String, Bool, true, false, Option, none, some, List, [], ◌∷◌, if◌then◌else◌, Error, Result, ok,
  err, Effect, Exec,
}
use environments.Core.Conditions.{Condition}
use environments.Resolution.Build.{ResolvedBuildSpec, ResolvedBuild}
use environments.Build.Object.{BuildObject}
use environments.Build.Mapper.{
  BuildSpec, map_resolved_to_domain, zero_spec, no_build, BackendSelector, for_spec,
}
use environments.Build.Provider.{BuildResult, Run, Provider}

abbrev condition : String → String → String → String → ℕ → Condition
condition kind status reason message now = record {
  kind = kind;
  status = status;
  observed_generation = 0;
  last_transition_time = now;
  reason = reason;
  message = message;
}

unfoldable pub build_conditions : (Error → String) → ℕ → BuildResult → Option Error → List Condition
build_conditions text now result (some e) =
    condition "BuildFailed" "False" "BuildFailed" (text e) now ∷ []
build_conditions text now result none =
    if result.success
    then condition "BuildSuccess" "True" "BuildSucceeded" result.message now ∷ []
    else if result.triggered
    then condition "BuildReady" "True" "BuildReady" "Build dispatched" now ∷ []
    else condition "BuildPending" "False" "BuildPending" result.message now ∷ []

spec_or_zero : Result BuildSpec → BuildSpec
spec_or_zero (ok spec) = spec
spec_or_zero (err e) = zero_spec

abbrev object_of :
    {Uint32 : Type 0} → Option (ResolvedBuild BuildObject Uint32) → Option BuildObject
object_of none = none
object_of (some rb) = some rb.build

module _ {W Uint32 : Type 0} (backend : BackendSelector (Provider W Uint32)) where
  run_mapped :
      (Error → String)
      → ℕ
      → (BuildObject → List Condition → Effect W)
      → ResolvedBuild BuildObject Uint32
      → Result BuildSpec
      → Effect W
  run_mapped text now write rb (err e) w = (some e, w)
  run_mapped text now write rb (ok spec) w =
      let ((result, failure), w) = (for_spec backend spec).run rb spec w in
      write rb.build (build_conditions text now result failure) w

  -- The mapper refuses a nil Build before anything of it is read.
  unfoldable pub reconcile_build :
      (Error → String)
      → ℕ
      → (BuildObject → List Condition → Effect W)
      → Option (ResolvedBuild BuildObject Uint32)
      → Effect W
  unfolding run_mapped
  reconcile_build text now write none w = (some no_build, w)
  reconcile_build text now write (some rb) w =
      run_mapped text now write rb (map_resolved_to_domain (some rb)) w

  unfoldable pub teardown_resolved : Option (ResolvedBuild BuildObject Uint32) → Effect W
  unfolding spec_or_zero
  teardown_resolved rb =
      (for_spec backend (spec_or_zero (map_resolved_to_domain rb))).teardown (object_of rb)
