-- ===== src/Resolution/Route/Examples.antt =====
-- A Route contract, and the theorems about Routes at it.
use environments.Common.{ℕ, ◌≡◌, refl, some, List, [], ◌∷◌, Result, ok, true, false, arith, eq_iff}
use environments.Json.{
  Fields, str, bool, obj, end, field, lookup, must_string, optional_bool, optional_string,
}
use environments.Resolution.Contract.{decode_contract}
use environments.Resolution.Contract.Laws.{ComesFrom}
use environments.Resolution.Route.{
  ResolvedRoute, resolve_route, resolve_route_spec, require_service_unit_ref, default_path,
}
use environments.Resolution.Route.Laws.{
  IsRouteOf, IsAcceptable, resolve_route-IsRouteOf, resolve_route_total,
}

abbrev contract : Fields ℕ
contract = field "host" (str "app.example.org") (
    field "runtime" (str "knative-service") (
      field "serviceUnitRef" (obj (field "name" (str "app") end))
        (field "tlsEnabled" (bool false) end)))

abbrev bytes : List ℕ
bytes = b'{' ∷ b'}' ∷ []

abbrev raw : List ℕ → List ℕ
raw o = o

abbrev unmarshal : List ℕ → Result (Fields ℕ)
unmarshal _ = ok contract

abbrev resolved : ResolvedRoute (List ℕ)
resolved = record {
  route = bytes;
  spec = record {
    host = "app.example.org";
    enabled = true;
    path = "/";
    tls_enabled = false;
    runtime = some "knative-service";
    service_unit_ref = some (record { name = "app" });
  };
}

resolve_route_test : resolve_route raw unmarshal (some bytes) ≡ ok resolved
unfolding resolve_route resolve_route_spec decode_contract must_string lookup optional_bool
    optional_string default_path require_service_unit_ref
resolve_route_test = refl

resolve_route-IsRouteOf_example :
    ComesFrom raw unmarshal (some bytes) resolved.route (λ m. IsRouteOf m resolved.spec)
resolve_route-IsRouteOf_example =
    resolve_route-IsRouteOf raw unmarshal (some bytes) resolved resolve_route_test

acceptable : IsAcceptable contract
unfolding lookup
acceptable = record {
  host = "app.example.org";
  runtime = "knative-service";
  unit = "app";
  has_host = record { found = refl; filled = ground (arith, eq_iff "app.example.org" "") };
  has_runtime = record { found = refl; filled = ground (arith, eq_iff "knative-service" "") };
  has_unit = record {
    reference = field "name" (str "app") end;
    found = refl;
    named = record { found = refl; filled = ground (arith, eq_iff "app" "") };
  };
}

resolve_route_total_example :
    (r : ResolvedRoute (List ℕ)) × (resolve_route raw unmarshal (some bytes) ≡ ok r)
resolve_route_total_example =
    resolve_route_total raw unmarshal bytes contract
      (record { present = λ e. cc e; decoded = refl }) acceptable
