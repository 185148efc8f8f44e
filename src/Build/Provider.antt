-- ===== src/Build/Provider.antt =====
-- pkg/apis/build/api: Run and Teardown of the Kaniko, Buildah and Buildpacks providers, which share
-- their stages; only Kaniko looks for a trigger in between. The cluster, by controller-runtime's
-- client, and SetControllerReference are parameters.
pub mod Laws
pub mod Dispatch
pub mod Teardown
mod Examples
use environments.Common.{
  ℕ, String, Bool, true, false, Option, none, some, List, [], ◌∷◌, ◌^◌, if◌then◌else◌, Error,
  wrap_of, Result, ok, err, ◌>>=◌, wrap, Exec, Effect, with_value, and_then, labelled_call,
  and_then,
}
use environments.Resolution.Build.{ResolvedBuildSpec, ResolvedBuild}
use environments.Resolution.Build.Contract.{TriggerEnum, BuildContract, to_build_contract}
use environments.Build.Object.{BuildObject}
use environments.Build.Mapper.{BuildSpec}
use environments.Build.Trigger.{
  TriggerContext, extract_trigger_context, Digest, compute_execution_hash,
}
use environments.Build.Shipwright.{
  ShipwrightBuild, ShipwrightBuildRun, create_build_spec, create_build_run_spec,
}

-- The fields of domain.BuildResult that a provider sets; all others keep their zero values.
pub record BuildResult : Type 0 where
  pub success : Bool
  pub triggered : Bool
  pub message : String
  pub execution_ref : String

-- The client's calls on Shipwright objects, a namespace before a name, and
-- controllerutil.SetControllerReference for the two kinds.
pub record Cluster (W : Type 0) : Type 0 where
  pub get_build : String → String → Exec W ShipwrightBuild
  pub create_build : ShipwrightBuild → Effect W
  pub update_build : ShipwrightBuild → Effect W
  pub delete_build : String → String → Effect W
  pub get_run : String → String → Exec W ShipwrightBuildRun
  pub create_run : ShipwrightBuildRun → Effect W
  -- the runs of a namespace with the name label
  pub list_runs : String → String → Exec W (List ShipwrightBuildRun)
  pub delete_run : String → String → Effect W
  pub is_not_found : Error → Bool
  pub own_build : BuildObject → ShipwrightBuild → Result ShipwrightBuild
  pub own_run : BuildObject → ShipwrightBuildRun → Result ShipwrightBuildRun

-- `if err := e(); err != nil { return err }`, else the value
abbrev settled : {W A : Type 0} → A → Option Error × W → Result A × W
settled a (none, w) = (ok a, w)
settled a (some e, w) = (err e, w)

-- the object that was made, or the first error, with the world as it is
abbrev made_or : {W A : Type 0} → Result A → (A → Exec W A) → Exec W A
made_or r next w = with_value (r, w) next

module _ {W : Type 0} (cluster : Cluster W) where
  place_build : ShipwrightBuild → Result ShipwrightBuild → Effect W
  place_build ship (ok found) w =
      cluster.update_build (record ship { resource_version = found.resource_version }) w
  place_build ship (err e) w =
      if cluster.is_not_found e then cluster.create_build ship w else (some e, w)

  -- Stage 1: the Build is updated if there is one, and else created.
  upsert_build : ShipwrightBuild → Exec W ShipwrightBuild
  unfolding place_build
  upsert_build ship w =
      let (found, w) = cluster.get_build ship.namespace ship.name w in
      settled ship (place_build ship found w)

  unfoldable pub stage_build : BuildSpec → BuildObject → Exec W ShipwrightBuild
  unfolding upsert_build
  stage_build spec b w =
      made_or (create_build_spec spec b >>= λ ship. cluster.own_build b ship) upsert_build w

  place_run : ShipwrightBuildRun → Result ShipwrightBuildRun → Effect W
  place_run run (ok found) w = (none, w)
  place_run run (err e) w = if cluster.is_not_found e then cluster.create_run run w else (some e, w)

  -- Stage 2: the BuildRun is created unless there is one of its name.
  pub ensure_run : ShipwrightBuildRun → Exec W ShipwrightBuildRun
  unfolding place_run
  ensure_run run w =
      let (found, w) = cluster.get_run run.namespace run.name w in
      settled run (place_run run found w)

module _ {Enum Uint32 : Type 0} (enum : TriggerEnum Enum)
    (digest : Digest (BuildContract Enum Uint32)) where
  unfoldable pub execution_hash : ResolvedBuild BuildObject Uint32 → Result String
  execution_hash rb =
      compute_execution_hash digest (to_build_contract enum (some rb.spec))
        (extract_trigger_context rb.build)

module _ {W Enum Uint32 : Type 0} (cluster : Cluster W) (enum : TriggerEnum Enum)
    (digest : Digest (BuildContract Enum Uint32)) where
  unfoldable pub stage_run :
      ResolvedBuild BuildObject Uint32 → ShipwrightBuild → Exec W ShipwrightBuildRun
  unfolding ensure_run
  stage_run rb ship w =
      made_or
        (execution_hash enum digest rb >>= λ hash.
          cluster.own_run rb.build (create_build_run_spec rb ship hash))
        (ensure_run cluster) w

  -- The pipeline of Run; `patch` is what is done to the Build between the stages, which read its
  -- annotations before and after.
  unfoldable pub dispatch :
      (BuildObject → Exec W BuildObject)
      → ResolvedBuild BuildObject Uint32
      → BuildSpec
      → Exec W ShipwrightBuildRun
  dispatch patch rb spec w = with_value (stage_build cluster spec rb.build w) λ ship w.
      with_value (patch rb.build w) λ patched. stage_run (record rb { build = patched }) ship

-- What Run returns: `message` is the text for a dispatched run.
unfoldable pub reported :
    (Error → String) → (String → String) → Result ShipwrightBuildRun → BuildResult × Option Error
reported text message (ok run) = (
  record {
    success = false;
    triggered = true;
    message = message run.name;
    execution_ref = run.name;
  },
  none,
)
reported text message (err e) =
    (record { success = false; triggered = false; message = text e; execution_ref = "" }, some e)

-- The text that Kaniko and Buildah write has no space before its last word.
abbrev pub created_text : String → String
created_text name = "BuildRun " ^ name ^ "created"

abbrev pub Run : Type 0 → Type 0 → Type 0
Run W Uint32 = ResolvedBuild BuildObject Uint32 → BuildSpec → W → (BuildResult × Option Error) × W

module _ {W Enum Uint32 : Type 0} (cluster : Cluster W) (enum : TriggerEnum Enum)
    (digest : Digest (BuildContract Enum Uint32)) (text : Error → String) where
  unfoldable pub run_with : (BuildObject → Exec W BuildObject) → (String → String) → Run W Uint32
  run_with patch message rb spec w =
      let (r, w) = dispatch cluster enum digest patch rb spec w in (reported text message r, w)

  -- `patch` is PatchBuildTriggerFromGitHubEvent on this cluster.
  unfoldable pub kaniko_run : (BuildObject → Exec W BuildObject) → Run W Uint32
  kaniko_run patch = run_with patch created_text

  unfoldable pub buildah_run : Run W Uint32
  buildah_run = run_with (λ b w. (ok b, w)) created_text

  unfoldable pub buildpacks_run : Run W Uint32
  buildpacks_run = run_with (λ b w. (ok b, w)) λ name. "BuildRun created"

module _ {W : Type 0} (cluster : Cluster W) where
  -- a deletion whose error is not NotFound
  deleted : String → String → Option Error × W → Option Error × W
  deleted label name (none, w) = (none, w)
  deleted label name (some e, w) =
      if cluster.is_not_found e then (none, w) else (some (wrap_of label name e), w)

  -- the loop over `runs.Items`, which stops at the first error
  delete_runs : List ShipwrightBuildRun → Effect W
  unfolding deleted
  delete_runs [] w = (none, w)
  delete_runs (run ∷ runs) w =
      and_then (deleted "delete buildrun" run.name (cluster.delete_run run.namespace run.name w))
        (delete_runs runs)

  delete_listed : BuildObject → Result (List ShipwrightBuildRun) → Effect W
  unfolding delete_runs
  delete_listed b (err e) w = (some (wrap "list buildruns for teardown" e), w)
  delete_listed b (ok runs) w =
      and_then (delete_runs runs w)
        λ w. deleted "delete build" b.name (cluster.delete_build b.namespace b.name w)

  -- The Teardown of each of the three providers; nothing is done for a nil Build.
  unfoldable pub teardown_build : Option BuildObject → Effect W
  unfolding delete_listed
  teardown_build none w = (none, w)
  teardown_build (some b) w =
      let (listed, w) = cluster.list_runs b.namespace b.name w in delete_listed b listed w

-- api.Provider
pub record Provider (W Uint32 : Type 0) : Type 0 where
  pub run : Run W Uint32
  pub teardown : Option BuildObject → Effect W

module _ {W Enum Uint32 : Type 0} (cluster : Cluster W) (enum : TriggerEnum Enum)
    (digest : Digest (BuildContract Enum Uint32)) (text : Error → String)
    (patch : BuildObject → Exec W BuildObject) where
  abbrev pub kaniko_provider : Provider W Uint32
  kaniko_provider = record {
    run = kaniko_run cluster enum digest text patch;
    teardown = teardown_build cluster;
  }

  abbrev pub buildah_provider : Provider W Uint32
  buildah_provider = record {
    run = buildah_run cluster enum digest text;
    teardown = teardown_build cluster;
  }

  abbrev pub buildpacks_provider : Provider W Uint32
  buildpacks_provider = record {
    run = buildpacks_run cluster enum digest text;
    teardown = teardown_build cluster;
  }
