-- ===== src/Resolution/Domain/Contract.antt =====
-- resolution/domain/contract/contract_adapter.go: the part of a resolved Domain that is hashed and
-- audited. The generated enum of TLS strategies is a parameter.
mod Laws
mod Examples
use environments.Common.{String, Option, none, some, ◌==◌, if◌then◌else◌}
use environments.Resolution.Domain.{
  ResolvedDomainRouteRef, ResolvedDomainMtls, ResolvedDomainSpec, tls_strategy_platform,
  tls_strategy_custom,
}

pub record TlsStrategyEnum (Enum : Type 0) : Type 0 where
  pub platform : Enum
  pub custom : Enum
  pub unspecified : Enum

-- The messages DomainRouteRef and DomainMTLS have the fields of the resolved ones, and
-- DomainTLSStrategy is its one field.
pub record DomainContract (Enum : Type 0) : Type 0 where
  pub host : String
  pub route_ref : ResolvedDomainRouteRef
  pub tls_strategy : Enum
  pub mtls : ResolvedDomainMtls
  pub renew_before : String

module _ {Enum : Type 0} (enum : TlsStrategyEnum Enum) where
  pub map_tls_strategy : Option String → Enum
  map_tls_strategy none = enum.unspecified
  map_tls_strategy (some s) =
      if s == tls_strategy_platform
      then enum.platform
      else if s == tls_strategy_custom
      then enum.custom
      else enum.unspecified

  -- A nil spec has no contract.
  pub to_domain_contract : Option ResolvedDomainSpec → Option (DomainContract Enum)
  to_domain_contract none = none
  to_domain_contract (some s) = some (record {
    host = s.host;
    route_ref = s.route_ref;
    tls_strategy = map_tls_strategy s.tls_strategy;
    mtls = s.mtls;
    renew_before = s.renew_before;
  })
