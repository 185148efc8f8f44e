-- ===== src/Resolution/Route/Laws.antt =====
-- What resolution promises of a Route: the contracts that it accepts, and the meaning of each field.
use environments.Common.{
  ℕ, String, ◌≡◌, refl, ◌↔◌, false, Option, none, some, List, Result, ok, arith, eq_iff, inl, inr,
  Bool-cases, bind-ok, ok-injective, subst, ◌==◌,
}
use environments.Json.{Fields, lookup, obj, bool, must_string, optional_string, Json}
use environments.Json.Laws.{
  Holds, must_string-Holds, must_string-ok, optional_string-Holds, optional_bool-false_iff,
  Defaults, optional_string-unfilled,
}
use environments.Resolution.Contract.Laws.{Carries, ComesFrom, decode_then-ok, decode_contract-ok}
use environments.Resolution.Route.{
  ResolvedRouteSpec, ResolvedRoute, ResolvedServiceUnitRef, present_reference,
  require_service_unit_ref, default_path, resolve_route_spec, resolve_route,
}

module _ {Float64 : Type 0} where
  -- `serviceUnitRef` is an object with a non-empty name.
  pub record Refers (m : Fields Float64) (name : String) : Type 0 where
    pub reference : Fields Float64
    pub found : lookup "serviceUnitRef" m ≡ some (obj reference)
    pub named : Holds reference "name" name

  -- What a resolved Route says of its contract.
  pub record IsRouteOf (m : Fields Float64) (s : ResolvedRouteSpec) : Type 0 where
    pub host : Holds m "host" s.host
    pub runtime : (r : String) × (s.runtime ≡ some r) × Holds m "runtime" r
    pub workload : (u : ResolvedServiceUnitRef) × (s.service_unit_ref ≡ some u) × Refers m u.name
    pub enabled : (s.enabled ≡ false) ↔ (lookup "enabled" m ≡ some (bool false))
    pub tls : (s.tls_enabled ≡ false) ↔ (lookup "tlsEnabled" m ≡ some (bool false))
    pub path : Defaults m "path" "/" s.path

  present_reference-Refers :
      (o : Option (Json Float64)) (u : ResolvedServiceUnitRef)
      → present_reference o ≡ ok u
      → (r : Fields Float64) × (o ≡ some (obj r)) × Holds r "name" u.name
  unfolding present_reference
  present_reference-Refers (some (obj r)) u h =
      (r, refl, record { found = ground arith; filled = ground (arith, eq_iff u.name "") })
  present_reference-Refers none u h = cc
  present_reference-Refers _ u h = cc

  require_service_unit_ref-Refers :
      (m : Fields Float64) (u : ResolvedServiceUnitRef)
      → require_service_unit_ref m ≡ ok u
      → Refers m u.name
  unfolding require_service_unit_ref
  require_service_unit_ref-Refers m u h =
      let (r, found, named) = present_reference-Refers (lookup "serviceUnitRef" m) u h in
      record { reference = r; found = found; named = named }

  require_service_unit_ref-ok :
      (m : Fields Float64) (name : String)
      → Refers m name
      → require_service_unit_ref m ≡ ok (record { name = name })
  unfolding require_service_unit_ref
  require_service_unit_ref-ok m name r =
      rw r.found (rw r.named.found (ground (arith, eq_iff name "", r.named.filled)))

  default_path-Defaults : (m : Fields Float64) → Defaults m "path" "/" (default_path m)
  unfolding default_path
  default_path-Defaults m = elim (Bool-cases (optional_string m "path" == "")) [
    | inl absent ↦ rw absent (
        inr (
          refl,
          optional_string-unfilled m "path" ((eq_iff (optional_string m "path") "").0 absent),
        ))
    | inr given ↦ rw given (
        inl (optional_string-Holds m "path" (ground (arith, eq_iff (optional_string m "path") ""))))
  ]

  pub resolve_route_spec-IsRouteOf :
      (m : Fields Float64) (s : ResolvedRouteSpec) → resolve_route_spec m ≡ ok s → IsRouteOf m s
  unfolding resolve_route_spec
  resolve_route_spec-IsRouteOf m s h =
      let (host, host_ok, h) = bind-ok (must_string m "host") _ h in
      let (runtime, runtime_ok, h) = bind-ok (must_string m "runtime") _ h in
      let (unit, unit_ok, h) = bind-ok (require_service_unit_ref m) _ h in
      subst (IsRouteOf m) (ok-injective h) (record {
        host = must_string-Holds m "host" host_ok;
        runtime = (runtime, refl, must_string-Holds m "runtime" runtime_ok);
        workload = (unit, refl, require_service_unit_ref-Refers m unit unit_ok);
        enabled = optional_bool-false_iff m "enabled";
        tls = optional_bool-false_iff m "tlsEnabled";
        path = default_path-Defaults m;
      })

  -- The contracts of a Route that are accepted.
  pub record IsAcceptable (m : Fields Float64) : Type 0 where
    pub host : String
    pub runtime : String
    pub unit : String
    pub has_host : Holds m "host" host
    pub has_runtime : Holds m "runtime" runtime
    pub has_unit : Refers m unit

  resolve_route_spec-ok :
      (m : Fields Float64)
      → IsAcceptable m
      → (s : ResolvedRouteSpec) × (resolve_route_spec m ≡ ok s)
  unfolding resolve_route_spec
  resolve_route_spec-ok m a =
      rw
        (
          must_string-ok m "host" a.host a.has_host,
          must_string-ok m "runtime" a.runtime a.has_runtime,
          require_service_unit_ref-ok m a.unit a.has_unit,
        )
        (_, refl)

abbrev paired : {Object : Type 0} → Object → ResolvedRouteSpec → ResolvedRoute Object
paired o s = record { route = o; spec = s }

module _ {Object Float64 : Type 0} (raw : Object → List ℕ)
    (unmarshal : List ℕ → Result (Fields Float64)) where
  -- A resolved Route keeps the object that was given, whose contract is not empty and decodes to
  -- fields that mean the spec: host, runtime and workload are its non-empty texts, the route is
  -- disabled or plain exactly on an explicit false, and the path is the one
  -- that the contract declares, or "/" exactly if it declares none that is not empty.
  pub resolve_route-IsRouteOf :
      (o : Option Object) (r : ResolvedRoute Object)
      → resolve_route raw unmarshal o ≡ ok r
      → ComesFrom raw unmarshal o r.route (λ m. IsRouteOf m r.spec)
  unfolding resolve_route
  resolve_route-IsRouteOf o r h =
      let (p, m, s, given, carries, spec_ok, same) =
        decode_then-ok raw unmarshal _ _ o resolve_route_spec paired h in
      subst
        (λ (r : ResolvedRoute Object). ComesFrom raw unmarshal o r.route (λ m. IsRouteOf m r.spec))
        same (given, (m, carries, resolve_route_spec-IsRouteOf m s spec_ok))

  -- Every contract with a host, a runtime and a named workload is resolved.
  pub resolve_route_total :
      (o : Object) (m : Fields Float64)
      → Carries raw unmarshal o m
      → IsAcceptable m
      → (r : ResolvedRoute Object) × (resolve_route raw unmarshal (some o) ≡ ok r)
  unfolding resolve_route
  resolve_route_total o m c a =
      let (s, spec_ok) = resolve_route_spec-ok m a in
      (record { route = o; spec = s }, rw (decode_contract-ok raw unmarshal _ _ o m c, spec_ok))
