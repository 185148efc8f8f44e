-- ===== src/Build/Service/Examples.antt =====
-- A reconciliation and a teardown by the service.
use environments.Common.{
  String, ◌≡◌, ◌⊎◌, refl, true, false, Option, none, some, List, Error, ok, err, Effect, Exec,
}
use environments.Core.Conditions.{Condition}
use environments.Build.Object.{BuildObject}
use environments.Build.Mapper.{BuildSpec, map_resolved_to_domain, for_spec}
use environments.Build.Provider.{teardown_build}
use environments.Build.Provider.Laws.{Store}
use environments.Build.Service.{reconcile_build, teardown_resolved}
use environments.Build.Service.Laws.{
  backends, Records, reconcile_build-Records, teardown_resolved-clears,
}
use environments.Build.Samples.{
  object, resolved_build, enum, digest, untouched, cluster, empty, Pair, labelled, has_build,
  small_cluster, deletes,
}

abbrev text : Error → String
text e = "error"

abbrev write : BuildObject → List Condition → Effect Store
write b cs w = (none, w)

reconcile_build-Records_example :
    ((spec : BuildSpec) × (cs : List Condition) × (map_resolved_to_domain (some resolved_build)
        ≡ ok spec)
      × Records cluster enum digest text untouched 3 resolved_build spec empty cs
          (for_spec (backends cluster enum digest text untouched) spec)
      × (reconcile_build
            (backends cluster enum digest text untouched)
            text
            3
            write
            (some resolved_build)
            empty
          ≡ write object cs
              ((for_spec (backends cluster enum digest text untouched) spec).run resolved_build spec
                empty).1))
    ⊎ ((e : Error) × (map_resolved_to_domain (some resolved_build) ≡ err e)
        × (reconcile_build
              (backends cluster enum digest text untouched)
              text
              3
              write
              (some resolved_build)
              empty
            ≡ (some e, empty)))
reconcile_build-Records_example =
    reconcile_build-Records cluster enum digest text untouched 3 write resolved_build empty

abbrev unpatched : BuildObject → Exec Pair BuildObject
unpatched b w = (ok b, w)

abbrev full : Pair
full = (true, true)

abbrev torn_down : Option Error × Pair
torn_down =
    teardown_resolved (backends small_cluster enum digest text unpatched) (some resolved_build) full

teardown_test : torn_down ≡ (none, (false, false))
unfolding teardown_resolved map_resolved_to_domain for_spec teardown_build
teardown_test = refl

teardown_resolved-clears_example :
    ((n : String) → labelled torn_down.1 "apps" "app" n ≡ false)
    × (has_build torn_down.1 "apps" "app" ≡ false)
teardown_resolved-clears_example =
    teardown_resolved-clears small_cluster enum digest text unpatched labelled has_build deletes
      resolved_build full (λ i. (teardown_test i).0)
