-- ===== src/Build/Provider/Dispatch.antt =====
-- What a Run of a provider leaves in the cluster, when it succeeds and when it fails.
use environments.Common.{
  String, ◌≡◌, ◌⊎◌, refl, sym, ap, [], ◌∷◌, ◌∙◌, subst, inl, inr, false, some, Error, Result, ok,
  err, Result-cases, some-injective, Exec,
}
use environments.Resolution.Build.{ResolvedBuild}
use environments.Resolution.Build.Contract.{TriggerEnum, BuildContract}
use environments.Build.Object.{BuildObject}
use environments.Build.Mapper.{BuildSpec}
use environments.Build.Trigger.{Digest}
use environments.Build.Shipwright.{
  ShipwrightBuild, ShipwrightBuildRun, create_build_spec, create_build_run_spec, run_name,
  run_service_account,
}
use environments.Build.Provider.{
  Cluster, stage_build, execution_hash, stage_run, dispatch, reported, run_with,
}
use environments.Build.Image.{short_hash}
use environments.Build.Shipwright.Laws.{IsMadeOf}
use environments.Build.Provider.Laws.{
  with_key, with_build, unversioned, Store, Serves, with_value-err, stage_build-runs,
  ensure_run-AtMost,
}

-- The abstract operation: the Build is stored as it is given, the BuildRun is there, and nothing else
-- changed.
abbrev pub dispatched : String → String → ShipwrightBuild → String → String → Store → Store
dispatched build_ns build placed run_ns run s = record {
  builds = with_build build_ns build (unversioned placed) s.builds;
  runs = with_key run_ns run s.runs;
}

module _ {W Enum Uint32 : Type 0} (cluster : Cluster W) (view : W → Store)
    (serves : Serves cluster view) (enum : TriggerEnum Enum)
    (digest : Digest (BuildContract Enum Uint32)) where
  -- The run is the one of an execution hash of the Build, with its labels and its account.
  pub record IsRunOf (rb : ResolvedBuild BuildObject Uint32) (run : ShipwrightBuildRun)
      : Type 0 where
    pub hash : String
    pub hashed : execution_hash enum digest rb ≡ ok hash
    pub name : run.name ≡ run_name rb.build.name hash
    pub namespace : run.namespace ≡ rb.build.namespace
    pub annotations : run.annotations ≡ ("build.blanketops.dev/hash", hash) ∷ []
    pub build_name :
        run.labels
        ≡ ("build.blanketops.dev/name", rb.build.name)
          ∷ ("build-hash", short_hash hash)
          ∷ ("shipwright-build", run.build_ref)
          ∷ []
    pub service_account : run.service_account ≡ run_service_account rb

  owned-IsRunOf :
      (rb : ResolvedBuild BuildObject Uint32) (ship : ShipwrightBuild) (hash : String)
      (run : ShipwrightBuildRun)
      → execution_hash enum digest rb ≡ ok hash
      → run ≡ record (create_build_run_spec rb ship hash) { owner = run.owner }
      → IsRunOf rb run
  unfolding create_build_run_spec
  owned-IsRunOf rb ship hash run hashed owned =
      let same = sym owned in
      subst (IsRunOf rb) same (record {
        hash = hash;
        hashed = hashed;
        name = refl;
        namespace = refl;
        annotations = refl;
        build_name = refl;
        service_account = refl;
      })

  stage_run-AtMost :
      (rb : ResolvedBuild BuildObject Uint32) (ship : ShipwrightBuild) (w : W)
      → ((view (stage_run cluster enum digest rb ship w).1).runs ≡ (view w).runs)
        ⊎ ((run : ShipwrightBuildRun) × IsRunOf rb run
            × ((view (stage_run cluster enum digest rb ship w).1).runs
                ≡ with_key run.namespace run.name (view w).runs))
  unfolding stage_run create_build_run_spec
  stage_run-AtMost rb ship w = elim (Result-cases (execution_hash enum digest rb)) [
    | inl (hash, hash_ok) ↦
        elim (Result-cases (cluster.own_run rb.build (create_build_run_spec rb ship hash))) [
          | inl (run, own_ok) ↦
              rw (hash_ok, own_ok)
                (elim (ensure_run-AtMost cluster view serves run w) [
                  | inl kept ↦ inl kept
                  | inr one ↦ inr (
                    run,
                    owned-IsRunOf rb ship hash run hash_ok
                        (serves.own_run_keeps rb.build _ run own_ok),
                    one,
                  )
                ])
          | inr (e, refused) ↦ rw (hash_ok, refused) (inl refl)
        ]
    | inr (e, refused) ↦ rw refused (inl refl)
  ]

  module _ (patch : BuildObject → Exec W BuildObject)
      (keeps : (b : BuildObject) (w : W) → view (patch b w).1 ≡ view w)
      (same_key : (b o : BuildObject) (w : W)
        → (patch b w).0 ≡ ok o
        → (o.name ≡ b.name) × (o.namespace ≡ b.namespace)) where
    -- The run of an execution hash of the Build as `patch` returned it, under the Build's own key.
    pub record IsOwnRun (rb : ResolvedBuild BuildObject Uint32) (spec : BuildSpec) (w : W)
        (run : ShipwrightBuildRun) : Type 0 where
      pub patched : BuildObject
      pub patched_ok : (patch rb.build (stage_build cluster spec rb.build w).1).0 ≡ ok patched
      pub is_run : IsRunOf (record rb { build = patched }) run
      pub own_name : run.name ≡ run_name rb.build.name is_run.hash
      pub own_namespace : run.namespace ≡ rb.build.namespace

    patched-IsOwnRun :
        (rb : ResolvedBuild BuildObject Uint32) (spec : BuildSpec) (w : W)
        (run : ShipwrightBuildRun) (patched : BuildObject)
        → (patch rb.build (stage_build cluster spec rb.build w).1).0 ≡ ok patched
        → IsRunOf (record rb { build = patched }) run
        → IsOwnRun rb spec w run
    patched-IsOwnRun rb spec w run patched patched_ok is_run =
        let (name, namespace) = same_key rb.build patched _ patched_ok in
        record {
          patched = patched;
          patched_ok = patched_ok;
          is_run = is_run;
          own_name = is_run.name ∙ ap (λ n. run_name n is_run.hash) name;
          own_namespace = is_run.namespace ∙ namespace;
        }

    -- What the pipeline did from the world `w` when it returned `run`: the Build is made of the
    -- annotations before the trigger was looked for, the run's hash of those after it.
    pub record Performed (rb : ResolvedBuild BuildObject Uint32) (spec : BuildSpec) (w : W)
        (run : ShipwrightBuildRun) : Type 0 where
      pub made : ShipwrightBuild
      pub made_ok : create_build_spec spec rb.build ≡ ok made
      pub is_build : IsMadeOf spec rb.build made
      pub placed : ShipwrightBuild
      pub owned : placed ≡ record made { owner = placed.owner }
      pub own_run : IsOwnRun rb spec w run
      pub store :
          view (dispatch cluster enum digest patch rb spec w).1
          ≡ dispatched rb.build.namespace rb.build.name placed run.namespace run.name (view w)

    -- After a pipeline that failed the runs are as they were, or the one of its hash was created.
    dispatch-AtMost :
        (rb : ResolvedBuild BuildObject Uint32) (spec : BuildSpec) (w : W) {e : Error}
        → (dispatch cluster enum digest patch rb spec w).0 ≡ err e
        → ((view (dispatch cluster enum digest patch rb spec w).1).runs ≡ (view w).runs)
          ⊎ ((run : ShipwrightBuildRun) × IsOwnRun rb spec w run
              × ((view (dispatch cluster enum digest patch rb spec w).1).runs
                  ≡ with_key run.namespace run.name (view w).runs))
    unfolding dispatch
    dispatch-AtMost rb spec w h =
        let staged = stage_build cluster spec rb.build w in
        let runs = stage_build-runs cluster view serves spec rb.build w in
        let kept = ap (λ (v : Store). v.runs) (keeps rb.build staged.1) ∙ runs in
        elim (with_value-err staged _ h) [
          | inl first ↦
              inl (ap (λ (m : Result ShipwrightBuildRun × W). (view m.1).runs) first ∙ runs)
          | inr (ship, ship_ok, rest, same) ↦
              elim (with_value-err (patch rb.build staged.1) _ rest) [
                | inl second ↦ inl (
                    ap (λ (m : Result ShipwrightBuildRun × W). (view m.1).runs) (same ∙ second)
                    ∙ kept)
                | inr (patched, patched_ok, last, then_same) ↦
                    let world =
                      ap (λ (m : Result ShipwrightBuildRun × W). (view m.1).runs)
                        (same ∙ then_same) in
                    elim (stage_run-AtMost (record rb { build = patched }) ship
                      (patch rb.build staged.1).1) [
                        | inl as_before ↦ inl (world ∙ as_before ∙ kept)
                        | inr (run, is_run, one) ↦ inr (
                          run,
                          patched-IsOwnRun rb spec w run patched patched_ok is_run,
                          world ∙ one ∙ ap (with_key run.namespace run.name) kept,
                        )
                      ]
              ]
        ]

    module _ (text : Error → String) (message : String → String) where
      -- A Run that reports an error returns its text as the message of a result that is neither
      -- triggered nor a success and names no run; the BuildRuns of the cluster are then as they
      -- were, but for that of the Build's own key and execution hash, whose creation may have been
      -- refused after it was stored. The API server is assumed to serve as documented, and what is
      -- done between the stages to leave the Shipwright objects and the Build's key alone.
      pub run_with-refused :
          (rb : ResolvedBuild BuildObject Uint32) (spec : BuildSpec) (w : W) (e : Error)
          → (run_with cluster enum digest text patch message rb spec w).0.1 ≡ some e
          → ((run_with cluster enum digest text patch message rb spec w).0.0
              ≡ record { success = false; triggered = false; message = text e; execution_ref = "" })
            × (((view (run_with cluster enum digest text patch message rb spec w).1).runs
                  ≡ (view w).runs)
                ⊎ ((run : ShipwrightBuildRun) × IsOwnRun rb spec w run
                    × ((view (run_with cluster enum digest text patch message rb spec w).1).runs
                        ≡ with_key run.namespace run.name (view w).runs)))
      unfolding run_with reported
      run_with-refused rb spec w e h =
          elim (Result-cases (dispatch cluster enum digest patch rb spec w).0) [
            | inl (run, run_ok) ↦ cc (rw run_ok at h)
            | inr (x, failed) ↦ (
              rw failed (
                  ap
                    (λ y. record {
                      success = false;
                      triggered = false;
                      message = text y;
                      execution_ref = "";
                    })
                    (some-injective (rw failed at h))),
              dispatch-AtMost rb spec w failed,
            )
          ]
