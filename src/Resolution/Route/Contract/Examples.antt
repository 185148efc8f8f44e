-- ===== src/Resolution/Route/Contract/Examples.antt =====
-- A Route with the short name of the Knative runtime.
use environments.Common.{ℕ, ◌≡◌, refl, ◌↔◌, some, ok, true, arith, eq_iff}
use environments.Json.{
  Fields, str, obj, end, field, lookup, must_string, optional_bool, optional_string,
}
use environments.Json.Laws.{Holds}
use environments.Resolution.Route.{
  ResolvedRouteSpec, resolve_route_spec, require_service_unit_ref, default_path,
}
use environments.Resolution.Route.Contract.{RouteRuntimeEnum, RouteContract, to_route_contract}
use environments.Resolution.Route.Contract.Laws.{
  Specified, OtherRuntime, to_route_contract-unspecified_iff,
}

abbrev enum : RouteRuntimeEnum ℕ
enum = record { knative_service = 1; kubernetes_container = 2; gateway_api = 3; unspecified = 0 }

enum-Specified : Specified enum
enum-Specified = (λ h. omega (arith, h), λ h. omega (arith, h), λ h. omega (arith, h))

abbrev contract : Fields ℕ
contract = field "host" (str "app.example.org") (
    field "runtime" (str "knative")
      (field "serviceUnitRef" (obj (field "name" (str "app") end)) end))

abbrev spec : ResolvedRouteSpec
spec = record {
  host = "app.example.org";
  enabled = true;
  path = "/";
  tls_enabled = true;
  runtime = some "knative";
  service_unit_ref = some (record { name = "app" });
}

resolve_knative : resolve_route_spec contract ≡ ok spec
unfolding resolve_route_spec require_service_unit_ref default_path must_string lookup optional_bool
    optional_string
resolve_knative = refl

knative-Holds : Holds contract "runtime" "knative"
unfolding lookup
knative-Holds = record { found = refl; filled = λ h. ground (arith, eq_iff "knative" "") }

to_route_contract-unspecified_iff_example :
    (c : RouteContract ℕ) × (to_route_contract enum (some spec) ≡ some c)
    × ((c.runtime ≡ 0) ↔ OtherRuntime "knative")
to_route_contract-unspecified_iff_example =
    to_route_contract-unspecified_iff enum contract spec "knative" enum-Specified resolve_knative
      knative-Holds
