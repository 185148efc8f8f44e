-- ===== src/Resolution/ServiceUnit/Examples.antt =====
-- A contract of a build unit, and the theorem about ServiceUnits at it.
use environments.Common.{ℕ, ◌≡◌, refl, some, List, Result, ok}
use environments.Json.{Fields, str, num, obj, end, field, lookup, must_string, optional_string}
use environments.Resolution.Contract.{decode_contract}
use environments.Resolution.Contract.Laws.{ComesFrom}
use environments.Resolution.ServiceUnit.{
  ResolvedServiceUnitSpec, ResolvedServiceUnit, resolve_service_unit_type, resolve_source,
  optional_int32, resolve_service_unit_spec, resolve_service_unit,
}
use environments.Resolution.ServiceUnit.Laws.{IsUnitOf, resolve_service_unit-IsUnitOf}
use environments.Samples.{types, ints, raw, bytes}

abbrev contract : Fields ℕ
contract = field "type" (str "BUILD") (
    field "buildRef" (obj (field "name" (str "app-build") end))
      (field "route" (obj (field "name" (str "app-route") end)) (field "size" (num 2) end)))

abbrev unmarshal : List ℕ → Result (Fields ℕ)
unmarshal _ = ok contract

abbrev spec : ResolvedServiceUnitSpec ℕ ℕ
spec = record {
  unit_type = 2;
  image = "";
  image_pull_secret = "";
  build_ref = some (record { name = "app-build"; namespace = "" });
  container_port = 0;
  size = 2;
  app_type = "";
  stack_type = "";
  route_ref = some (record { name = "app-route" });
}

abbrev resolved : ResolvedServiceUnit (List ℕ) ℕ ℕ
resolved = record { service_unit = bytes; spec = some spec }

resolve_service_unit_test : resolve_service_unit types ints raw unmarshal (some bytes) ≡ ok resolved
unfolding resolve_service_unit resolve_service_unit_spec resolve_service_unit_type resolve_source
    optional_int32 must_string optional_string lookup decode_contract
resolve_service_unit_test = refl

resolve_service_unit-IsUnitOf_example :
    (s : ResolvedServiceUnitSpec ℕ ℕ) × (resolved.spec ≡ some s)
    × ComesFrom raw unmarshal (some bytes) bytes (λ m. IsUnitOf types ints m s)
resolve_service_unit-IsUnitOf_example =
    resolve_service_unit-IsUnitOf types ints raw unmarshal (some bytes) resolved
      resolve_service_unit_test
