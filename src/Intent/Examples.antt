-- ===== src/Intent/Examples.antt =====
-- Plans of one static unit, and units that resolution accepts.
use environments.Common.{ℕ, ◌≡◌, refl, some, ok}
use environments.Json.{Fields, str, num, end, field}
use environments.Intent.{
  DeploymentIntent, unit_intents, resolve_service_unit_intent, new_deployment_intent, build,
  build_teardown,
}
use environments.Intent.Laws.{IsPlanOf, build-IsPlanOf}
use environments.Intent.Teardown.{Covers, build_teardown-Covers}
use environments.Samples.{types, name_of, namespace_of, units, resolved, intent}

build_test : build name_of namespace_of types (some resolved) units ≡ ok intent
unfolding build unit_intents resolve_service_unit_intent new_deployment_intent
build_test = refl

build-IsPlanOf_example : IsPlanOf types name_of namespace_of resolved units intent
build-IsPlanOf_example = build-IsPlanOf types name_of namespace_of resolved units intent build_test

build_teardown-Covers_example :
    (t : DeploymentIntent ℕ) × (build_teardown name_of namespace_of 0 (some resolved) ≡ ok t)
    × Covers types name_of namespace_of t intent
build_teardown-Covers_example =
    build_teardown-Covers types name_of namespace_of 0 resolved units intent refl build_test

abbrev contract : Fields ℕ
contract = field "type" (str "static") (
    field "image" (str "registry/app:1")
      (field "containerPort" (num 8080) (field "size" (num 2) end)))
