-- ===== src/Resolution/Domain/Contract/Examples.antt =====
-- Two contracts of one Domain, in different orders of their fields.
use environments.Common.{ℕ, ◌≡◌, refl, some, ok, false, arith}
use environments.Json.{
  Fields, str, obj, end, field, lookup, must_string, optional_bool, optional_string,
}
use environments.Resolution.Domain.{
  ResolvedDomainSpec, resolve_domain_spec, resolve_mtls, resolve_route_ref,
}
use environments.Resolution.Domain.Contract.{TlsStrategyEnum}
use environments.Resolution.Domain.Contract.Laws.{TellsApart, to_domain_contract-injective}

abbrev enum : TlsStrategyEnum ℕ
enum = record { platform = 1; custom = 2; unspecified = 0 }

enum-TellsApart : TellsApart enum
enum-TellsApart h = omega (arith, h)

abbrev route : Fields ℕ
route = field "name" (str "app-route") end

abbrev contract : Fields ℕ
contract =
    field "host" (str "app.client.co.za")
      (field "routeRef" (obj route) (field "tlsStrategy" (str "custom") end))

abbrev reordered : Fields ℕ
reordered =
    field "tlsStrategy" (str "custom")
      (field "routeRef" (obj route) (field "host" (str "app.client.co.za") end))

abbrev spec : ResolvedDomainSpec
spec = record {
  host = "app.client.co.za";
  route_ref = record { name = "app-route" };
  tls_strategy = some "custom";
  mtls = record { enforced = false };
  renew_before = "";
}

resolve_contract : resolve_domain_spec contract ≡ ok spec
unfolding resolve_domain_spec resolve_mtls resolve_route_ref must_string lookup optional_bool
    optional_string
resolve_contract = refl

resolve_reordered : resolve_domain_spec reordered ≡ ok spec
unfolding resolve_domain_spec resolve_mtls resolve_route_ref must_string lookup optional_bool
    optional_string
resolve_reordered = refl

same_spec : spec ≡ spec
same_spec =
    to_domain_contract-injective enum contract reordered spec spec enum-TellsApart resolve_contract
      resolve_reordered refl
