-- ===== src/Resolution/Domain/Examples.antt =====
-- A Domain contract, and the theorem about Domains at it.
use environments.Common.{ℕ, ◌≡◌, refl, some, List, [], ◌∷◌, Result, ok, true}
use environments.Json.{
  Fields, str, bool, obj, end, field, lookup, must_string, optional_bool, optional_string,
}
use environments.Resolution.Contract.{decode_contract}
use environments.Resolution.Contract.Laws.{ComesFrom}
use environments.Resolution.Domain.{
  ResolvedDomain, resolve_domain, resolve_domain_spec, resolve_mtls, resolve_route_ref,
}
use environments.Resolution.Domain.Laws.{IsDomainOf, resolve_domain-IsDomainOf}

abbrev contract : Fields ℕ
contract = field "host" (str "app.client.co.za") (
    field "routeRef" (obj (field "name" (str "app-route") end)) (
      field "tlsStrategy" (str "custom")
        (field "mtls" (obj (field "enforced" (bool true) end)) end)))

abbrev bytes : List ℕ
bytes = b'{' ∷ b'}' ∷ []

abbrev raw : List ℕ → List ℕ
raw o = o

abbrev unmarshal : List ℕ → Result (Fields ℕ)
unmarshal _ = ok contract

abbrev resolved : ResolvedDomain (List ℕ)
resolved = record {
  domain = bytes;
  spec = record {
    host = "app.client.co.za";
    route_ref = record { name = "app-route" };
    tls_strategy = some "custom";
    mtls = record { enforced = true };
    renew_before = "";
  };
}

resolve_domain_test : resolve_domain raw unmarshal (some bytes) ≡ ok resolved
unfolding resolve_domain resolve_domain_spec resolve_mtls resolve_route_ref decode_contract
    must_string lookup optional_bool optional_string
resolve_domain_test = refl

resolve_domain-IsDomainOf_example :
    ComesFrom raw unmarshal (some bytes) resolved.domain (λ m. IsDomainOf m resolved.spec)
resolve_domain-IsDomainOf_example =
    resolve_domain-IsDomainOf raw unmarshal (some bytes) resolved resolve_domain_test
