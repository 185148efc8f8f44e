-- ===== src/Resolution/Domain.antt =====
-- resolution/domain/resolve/resolve.go
pub mod Laws
mod Contract
mod Examples
use environments.Common.{
  ℕ, String, Bool, true, false, Option, none, some, List, ◌==◌, not, ◌&&◌, if◌then◌else◌, Result,
  ok, err, errorf, errorf_of, labelled, ◌>>=◌,
}
use environments.Json.{Json, str, obj, Fields, lookup, must_string, optional_string, optional_bool}
use environments.Resolution.Contract.{decode_contract}

abbrev pub tls_strategy_platform : String
tls_strategy_platform = "platform"

abbrev pub tls_strategy_custom : String
tls_strategy_custom = "custom"

pub record ResolvedDomainRouteRef : Type 0 where
  pub name : String

pub record ResolvedDomainMtls : Type 0 where
  pub enforced : Bool

pub record ResolvedDomainSpec : Type 0 where
  pub host : String
  pub route_ref : ResolvedDomainRouteRef
  pub tls_strategy : Option String
  pub mtls : ResolvedDomainMtls
  pub renew_before : String

pub record ResolvedDomain (Object : Type 0) : Type 0 where
  pub domain : Object
  pub spec : ResolvedDomainSpec

check_tls_strategy : String → Result String
check_tls_strategy s =
    if not (s == tls_strategy_platform) && not (s == tls_strategy_custom)
    then err (errorf_of "field \"tlsStrategy\" must be \"platform\" or \"custom\"" s)
    else ok s

module _ {Float64 : Type 0} where
  present_route_ref : Option (Json Float64) → Result ResolvedDomainRouteRef
  present_route_ref none = err (errorf "missing required field \"routeRef\"")
  present_route_ref (some (obj m)) = do
    name ← labelled "routeRef.name" (must_string m "name")
    ok (record { name = name })
  present_route_ref _ = err (errorf "field \"routeRef\" must be an object")

  pub resolve_route_ref : Fields Float64 → Result ResolvedDomainRouteRef
  unfolding present_route_ref
  resolve_route_ref m = present_route_ref (lookup "routeRef" m)

  present_mtls : Option (Json Float64) → Result ResolvedDomainMtls
  present_mtls none = ok (record { enforced = false })
  present_mtls (some (obj m)) = ok (record { enforced = optional_bool m "enforced" false })
  present_mtls _ = err (errorf "field \"mtls\" must be an object")

  pub resolve_mtls : Fields Float64 → Result ResolvedDomainMtls
  unfolding present_mtls
  resolve_mtls m = present_mtls (lookup "mtls" m)

  pub resolve_domain_spec : Fields Float64 → Result ResolvedDomainSpec
  unfolding check_tls_strategy
  resolve_domain_spec m = do
    host ← must_string m "host"
    route_ref ← resolve_route_ref m
    named ← must_string m "tlsStrategy"
    tls_strategy ← check_tls_strategy named
    mtls ← resolve_mtls m
    ok (record {
      host = host;
      route_ref = route_ref;
      tls_strategy = some tls_strategy;
      mtls = mtls;
      renew_before = optional_string m "renewBefore";
    })

module _ {Object Float64 : Type 0} (raw : Object → List ℕ)
    (unmarshal : List ℕ → Result (Fields Float64)) where
  pub resolve_domain : Option Object → Result (ResolvedDomain Object)
  resolve_domain o = do
    (domain, m) ← decode_contract raw unmarshal "domain is nil" "failed to decode raw contract" o
    spec ← resolve_domain_spec m
    ok (record { domain = domain; spec = spec })
