-- ===== src/Resolution/Route.antt =====
-- resolution/route/resolve/resolve.go
pub mod Laws
mod Contract
mod Examples
use environments.Common.{
  ℕ, String, Bool, true, Option, none, some, List, ◌==◌, if◌then◌else◌, Result, ok, err, errorf,
  ◌>>=◌,
}
use environments.Json.{
  Json, str, obj, Fields, lookup, as_string, as_bool, must_string, optional_string, optional_bool,
}
use environments.Resolution.Contract.{decode_contract}

abbrev pub runtime_knative_service : String
runtime_knative_service = "knative-service"

abbrev pub runtime_kubernetes_container : String
runtime_kubernetes_container = "kubernetes-container"

abbrev pub runtime_gateway_api : String
runtime_gateway_api = "gateway-api"

pub record ResolvedServiceUnitRef : Type 0 where
  pub name : String

pub record ResolvedRouteSpec : Type 0 where
  pub host : String
  pub enabled : Bool
  pub path : String
  pub tls_enabled : Bool
  pub runtime : Option String
  pub service_unit_ref : Option ResolvedServiceUnitRef

pub record ResolvedRoute (Object : Type 0) : Type 0 where
  pub route : Object
  pub spec : ResolvedRouteSpec

-- The checks on `serviceUnitRef` and on its name.
reference_name : Option String → Result ResolvedServiceUnitRef
reference_name none = err (errorf "field \"serviceUnitRef.name\" must be a non-empty string")
reference_name (some name) =
    if name == ""
    then err (errorf "field \"serviceUnitRef.name\" must be a non-empty string")
    else ok (record { name = name })

module _ {Float64 : Type 0} where
  present_reference : Option (Json Float64) → Result ResolvedServiceUnitRef
  unfolding reference_name
  present_reference none = err (errorf "missing required field \"serviceUnitRef\"")
  present_reference (some (obj m)) = reference_name (as_string (lookup "name" m))
  present_reference _ = err (errorf "field \"serviceUnitRef\" must be an object")

  pub require_service_unit_ref : Fields Float64 → Result ResolvedServiceUnitRef
  unfolding present_reference
  require_service_unit_ref m = present_reference (lookup "serviceUnitRef" m)

  -- `if path == "" { path = "/" }`
  pub default_path : Fields Float64 → String
  default_path m = let path = optional_string m "path" in if path == "" then "/" else path

  pub resolve_route_spec : Fields Float64 → Result ResolvedRouteSpec
  resolve_route_spec m = do
    host ← must_string m "host"
    runtime ← must_string m "runtime"
    service_unit_ref ← require_service_unit_ref m
    ok (record {
      host = host;
      enabled = optional_bool m "enabled" true;
      path = default_path m;
      tls_enabled = optional_bool m "tlsEnabled" true;
      runtime = some runtime;
      service_unit_ref = some service_unit_ref;
    })

module _ {Object Float64 : Type 0} (raw : Object → List ℕ)
    (unmarshal : List ℕ → Result (Fields Float64)) where
  pub resolve_route : Option Object → Result (ResolvedRoute Object)
  resolve_route o = do
    (route, m) ← decode_contract raw unmarshal "route is nil" "failed to decode raw contract" o
    spec ← resolve_route_spec m
    ok (record { route = route; spec = spec })
