-- ===== src/Resolution/Route/Contract.antt =====
-- resolution/route/contract/contract_adapter.go: the part of a resolved Route that is hashed and
-- audited. The generated enum of runtimes is a parameter.
mod Laws
mod Examples
use environments.Common.{String, Bool, Option, none, some, ◌==◌, if◌then◌else◌}
use environments.Resolution.Route.{
  ResolvedServiceUnitRef, ResolvedRouteSpec, runtime_knative_service, runtime_kubernetes_container,
  runtime_gateway_api,
}

pub record RouteRuntimeEnum (Enum : Type 0) : Type 0 where
  pub knative_service : Enum
  pub kubernetes_container : Enum
  pub gateway_api : Enum
  pub unspecified : Enum

-- The message ServiceUnitRef has the field of the resolved one, and RouteRuntime is its one field.
pub record RouteContract (Enum : Type 0) : Type 0 where
  pub host : String
  pub enabled : Bool
  pub path : String
  pub tls_enabled : Bool
  pub runtime : Enum
  pub service_unit_ref : Option ResolvedServiceUnitRef

module _ {Enum : Type 0} (enum : RouteRuntimeEnum Enum) where
  pub map_runtime : Option String → Enum
  map_runtime none = enum.unspecified
  map_runtime (some r) =
      if r == runtime_knative_service
      then enum.knative_service
      else if r == runtime_kubernetes_container
      then enum.kubernetes_container
      else if r == runtime_gateway_api
      then enum.gateway_api
      else enum.unspecified

  -- A nil spec has no contract.
  pub to_route_contract : Option ResolvedRouteSpec → Option (RouteContract Enum)
  to_route_contract none = none
  to_route_contract (some s) = some (record {
    host = s.host;
    enabled = s.enabled;
    path = s.path;
    tls_enabled = s.tls_enabled;
    runtime = map_runtime s.runtime;
    service_unit_ref = s.service_unit_ref;
  })
