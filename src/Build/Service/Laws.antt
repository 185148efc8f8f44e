-- ===== src/Build/Service/Laws.antt =====
-- What the service records of a Build, and what its teardown removes.
use environments.Common.{
  ℕ, String, ◌≡◌, ◌⊎◌, refl, sym, ap, subst, inl, inr, Bool, false, Bool-cases, Option, none, some,
  List, [], ◌∷◌, contains, Error, ok, err, Result-cases, Effect, Exec,
}
use environments.Core.Conditions.{Condition}
use environments.Resolution.Build.{ResolvedBuild}
use environments.Resolution.Build.Contract.{TriggerEnum, BuildContract}
use environments.Build.Object.{BuildObject}
use environments.Build.Mapper.{BuildSpec, map_resolved_to_domain, BackendSelector, for_spec}
use environments.Build.Trigger.{Digest}
use environments.Build.Provider.{
  Cluster, Provider, dispatch, reported, run_with, kaniko_run, buildah_run, buildpacks_run,
  kaniko_provider, buildah_provider, buildpacks_provider, teardown_build,
}
use environments.Build.Provider.Teardown.{Deletes, teardown_build-clears}
use environments.Build.Service.{
  condition, build_conditions, run_mapped, reconcile_build, spec_or_zero, teardown_resolved,
}

-- Whatever holds of the three providers holds of the one that is selected.
for_spec-any :
    {Provider : Type 0} (P : Provider → Type 0) (backend : BackendSelector Provider)
    → P backend.buildah
    → P backend.kaniko
    → P backend.buildpacks
    → (spec : BuildSpec) → P (for_spec backend spec)
unfolding for_spec
for_spec-any P backend buildah kaniko buildpacks spec =
    elim (Bool-cases (contains spec.strategy_name "buildah")) [
      | inl found ↦ rw found buildah
      | inr not_buildah ↦ elim (Bool-cases (contains spec.strategy_name "kaniko")) [
        | inl found ↦ rw (not_buildah, found) kaniko
        | inr not_kaniko ↦ elim (Bool-cases (contains spec.strategy_name "buildpacks")) [
          | inl found ↦ rw (not_buildah, not_kaniko, found) buildpacks
          | inr none_found ↦ rw (not_buildah, not_kaniko, none_found) buildah
        ]
      ]
    ]

module _ {W Enum Uint32 : Type 0} (cluster : Cluster W) (enum : TriggerEnum Enum)
    (digest : Digest (BuildContract Enum Uint32)) (text : Error → String)
    (patch : BuildObject → Exec W BuildObject) where
  -- a selector of the three providers on one cluster
  abbrev pub backends : BackendSelector (Provider W Uint32)
  backends = record {
    buildah = buildah_provider cluster enum digest text patch;
    kaniko = kaniko_provider cluster enum digest text patch;
    buildpacks = buildpacks_provider cluster enum digest text patch;
  }

  abbrev pub ready : ℕ → Condition
  ready now = condition "BuildReady" "True" "BuildReady" "Build dispatched" now

  abbrev pub failed : ℕ → Error → Condition
  failed now e = condition "BuildFailed" "False" "BuildFailed" (text e) now

  -- The one condition that is written after a Run by `p`: ready if it reported no error, else failed.
  abbrev pub Records :
      ℕ
      → ResolvedBuild BuildObject Uint32
      → BuildSpec
      → W
      → List Condition
      → Provider W Uint32
      → Type 0
  Records now rb spec w cs p =
      (((p.run rb spec w).0.1 ≡ none) × (cs ≡ ready now ∷ []))
      ⊎ ((e : Error) × ((p.run rb spec w).0.1 ≡ some e) × (cs ≡ failed now e ∷ []))

  abbrev Conditioned :
      ℕ → ResolvedBuild BuildObject Uint32 → BuildSpec → W → Provider W Uint32 → Type 0
  Conditioned now rb spec w p =
      Records now rb spec w (build_conditions text now (p.run rb spec w).0.0 (p.run rb spec w).0.1)
        p

  run_with-Records :
      (p : BuildObject → Exec W BuildObject) (message : String → String) (now : ℕ)
      (rb : ResolvedBuild BuildObject Uint32) (spec : BuildSpec) (w : W)
      → Conditioned now rb spec w (record {
        run = run_with cluster enum digest text p message;
        teardown = teardown_build cluster;
      })
  unfolding run_with reported build_conditions
  run_with-Records p message now rb spec w =
      elim (Result-cases (dispatch cluster enum digest p rb spec w).0) [
        | inl (run, run_ok) ↦ rw run_ok (inl (refl, refl))
        | inr (e, refused) ↦ rw refused (inr (e, refl, refl))
      ]

  selected-Conditioned :
      (now : ℕ) (rb : ResolvedBuild BuildObject Uint32) (spec chosen : BuildSpec) (w : W)
      → Conditioned now rb spec w (for_spec backends chosen)
  unfolding kaniko_run buildah_run buildpacks_run
  selected-Conditioned now rb spec chosen w =
      for_spec-any (Conditioned now rb spec w) backends (run_with-Records _ _ now rb spec w)
        (run_with-Records _ _ now rb spec w) (run_with-Records _ _ now rb spec w) chosen

  -- A reconciliation of a Build that can be mapped ends in one write of one condition: BuildReady if
  -- the Run of the selected provider reported no error, else BuildFailed with the text of its error.
  -- What it returns is what the write returned, so an error of the Run is in the status only; a Build
  -- that cannot be mapped is not written at all, and its error is returned.
  pub reconcile_build-Records :
      (now : ℕ) (write : BuildObject → List Condition → Effect W)
      (rb : ResolvedBuild BuildObject Uint32) (w : W)
      → ((spec : BuildSpec) × (cs : List Condition) × (map_resolved_to_domain (some rb) ≡ ok spec)
          × Records now rb spec w cs (for_spec backends spec)
          × (reconcile_build backends text now write (some rb) w
              ≡ write rb.build cs ((for_spec backends spec).run rb spec w).1))
        ⊎ ((e : Error) × (map_resolved_to_domain (some rb) ≡ err e)
            × (reconcile_build backends text now write (some rb) w ≡ (some e, w)))
  unfolding reconcile_build run_mapped
  reconcile_build-Records now write rb w = elim (Result-cases (map_resolved_to_domain (some rb))) [
    | inl (spec, mapped) ↦ inl (
      spec,
      build_conditions text now ((for_spec backends spec).run rb spec w).0.0
          ((for_spec backends spec).run rb spec w).0.1,
      mapped,
      selected-Conditioned now rb spec spec w,
      rw mapped refl,
    )
    | inr (e, refused) ↦ inr (e, refused, rw refused refl)
  ]

  selected_teardown :
      (chosen : BuildSpec) → (for_spec backends chosen).teardown ≡ teardown_build cluster
  selected_teardown chosen =
      for_spec-any (λ (p : Provider W Uint32). p.teardown ≡ teardown_build cluster) backends refl
        refl refl chosen

  -- The teardown of a resolved Build, whether or not it can be mapped and whatever its strategy, that
  -- reports no error leaves neither the Shipwright Build nor any BuildRun with the Build's label in
  -- its namespace; the API server is assumed to list and delete as documented.
  pub teardown_resolved-clears :
      (labelled : W → String → String → String → Bool) (builds : W → String → String → Bool)
      → Deletes cluster labelled builds
      → (rb : ResolvedBuild BuildObject Uint32) (w : W)
      → (teardown_resolved backends (some rb) w).0 ≡ none
      → ((n : String)
          → labelled (teardown_resolved backends (some rb) w).1 rb.build.namespace rb.build.name n
            ≡ false)
        × (builds (teardown_resolved backends (some rb) w).1 rb.build.namespace rb.build.name
            ≡ false)
  unfolding teardown_resolved
  teardown_resolved-clears labelled builds deletes rb w h =
      let same =
        ap (λ (t : Option BuildObject → Effect W). t (some rb.build) w)
          (selected_teardown (spec_or_zero (map_resolved_to_domain (some rb)))) in
      subst
        (λ (m : Option Error × W).
          ((n : String) → labelled m.1 rb.build.namespace rb.build.name n ≡ false)
          × (builds m.1 rb.build.namespace rb.build.name ≡ false))
        (sym same)
        (teardown_build-clears cluster labelled builds deletes rb.build w
          (subst (λ (m : Option Error × W). m.0 ≡ none) same h))
