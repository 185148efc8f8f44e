-- ===== src/Resolution/Domain/Laws.antt =====
-- What a resolved Domain says of its contract.
use environments.Common.{
  ℕ, String, ◌≡◌, refl, ◌↔◌, ◌⊎◌, true, Option, none, some, List, Result, ok, labelled, labelled-ok,
  bind-ok, ok-injective, arith, eq_iff, subst,
}
use environments.Json.{Fields, Json, lookup, obj, bool, must_string, optional_string}
use environments.Json.Laws.{Holds, must_string-Holds, optional_bool-true_iff}
use environments.Resolution.Contract.Laws.{ComesFrom, decode_then-ok}
use environments.Resolution.Domain.{
  ResolvedDomainRouteRef, ResolvedDomainMtls, ResolvedDomainSpec, ResolvedDomain,
  check_tls_strategy, present_route_ref, resolve_route_ref, present_mtls, resolve_mtls,
  resolve_domain_spec, resolve_domain,
}

check_tls_strategy_lem :
    (s t : String) → check_tls_strategy s ≡ ok t → (s ≡ t) × ((t ≡ "platform") ⊎ (t ≡ "custom"))
unfolding check_tls_strategy
check_tls_strategy_lem s t h = ground (arith, eq_iff s "platform", eq_iff s "custom")

module _ {Float64 : Type 0} where
  -- mTLS is on exactly if the contract has an object with an explicit true.
  abbrev pub Enforces : Fields Float64 → Type 0
  Enforces m =
      (b : Fields Float64) × (lookup "mtls" m ≡ some (obj b))
      × (lookup "enforced" b ≡ some (bool true))

  pub record IsDomainOf (m : Fields Float64) (s : ResolvedDomainSpec) : Type 0 where
    pub host : Holds m "host" s.host
    pub route :
        (r : Fields Float64) × (lookup "routeRef" m ≡ some (obj r))
        × Holds r "name" s.route_ref.name
    pub tls :
        (t : String) × (s.tls_strategy ≡ some t)
        × Holds m "tlsStrategy" t
        × ((t ≡ "platform") ⊎ (t ≡ "custom"))
    pub mtls : (s.mtls.enforced ≡ true) ↔ Enforces m
    pub renew_before : s.renew_before ≡ optional_string m "renewBefore"

  present_route_ref_lem :
      (o : Option (Json Float64)) (u : ResolvedDomainRouteRef)
      → present_route_ref o ≡ ok u
      → (r : Fields Float64) × (o ≡ some (obj r)) × Holds r "name" u.name
  unfolding present_route_ref
  present_route_ref_lem (some (obj r)) u h =
      let (name, name_ok, h) = bind-ok (labelled "routeRef.name" (must_string r "name")) _ h in
      subst
        (λ (u : ResolvedDomainRouteRef).
          (q : Fields Float64) × (◌≡◌ {A = Option (Json Float64)} (some (obj r)) (some (obj q)))
          × Holds q "name" u.name)
        (ok-injective h) (r, refl, must_string-Holds r "name" (labelled-ok _ _ name_ok))
  present_route_ref_lem none u h = cc
  present_route_ref_lem _ u h = cc

  present_mtls_lem :
      (o : Option (Json Float64)) (u : ResolvedDomainMtls)
      → present_mtls o ≡ ok u
      → (u.enforced ≡ true)
        ↔ ((b : Fields Float64) × (o ≡ some (obj b)) × (lookup "enforced" b ≡ some (bool true)))
  unfolding present_mtls
  present_mtls_lem none u h = (λ e. cc, λ (b, e, _). cc)
  present_mtls_lem (some (obj b)) u h =
      let (to, from) = optional_bool-true_iff b "enforced" in
      subst
        (λ (u : ResolvedDomainMtls). (u.enforced ≡ true) ↔ (
          (q : Fields Float64) × (◌≡◌ {A = Option (Json Float64)} (some (obj b)) (some (obj q)))
          × (lookup "enforced" q ≡ some (bool true))))
        (ok-injective h) (λ e. (b, refl, to e), λ (q, same, there). from (cc (same, there)))
  present_mtls_lem _ u h = cc

  pub resolve_domain_spec-IsDomainOf :
      (m : Fields Float64) (s : ResolvedDomainSpec) → resolve_domain_spec m ≡ ok s → IsDomainOf m s
  unfolding resolve_domain_spec resolve_route_ref resolve_mtls
  resolve_domain_spec-IsDomainOf m s h =
      let (host, host_ok, h) = bind-ok (must_string m "host") _ h in
      let (ref, ref_ok, h) = bind-ok (resolve_route_ref m) _ h in
      let (named, named_ok, h) = bind-ok (must_string m "tlsStrategy") _ h in
      let (tls, tls_ok, h) = bind-ok (check_tls_strategy named) _ h in
      let (mtls, mtls_ok, h) = bind-ok (resolve_mtls m) _ h in
      let (same, known) = check_tls_strategy_lem named tls tls_ok in
      subst (IsDomainOf m) (ok-injective h) (record {
        host = must_string-Holds m "host" host_ok;
        route = present_route_ref_lem (lookup "routeRef" m) ref ref_ok;
        tls = (tls, refl, must_string-Holds m "tlsStrategy" (rw (← same) named_ok), known);
        mtls = present_mtls_lem (lookup "mtls" m) mtls mtls_ok;
        renew_before = refl;
      })

abbrev paired : {Object : Type 0} → Object → ResolvedDomainSpec → ResolvedDomain Object
paired o s = record { domain = o; spec = s }

module _ {Object Float64 : Type 0} (raw : Object → List ℕ)
    (unmarshal : List ℕ → Result (Fields Float64)) where
  -- A resolved Domain keeps the object that was given, whose contract is not empty and decodes to
  -- fields that mean the spec: the host and the route are its non-empty texts, the TLS strategy is
  -- its text and one of the two known, mTLS is on exactly if it has an explicit true, and the
  -- renewal window is its optional text.
  pub resolve_domain-IsDomainOf :
      (o : Option Object) (r : ResolvedDomain Object)
      → resolve_domain raw unmarshal o ≡ ok r
      → ComesFrom raw unmarshal o r.domain (λ m. IsDomainOf m r.spec)
  unfolding resolve_domain
  resolve_domain-IsDomainOf o r h =
      let (p, m, s, given, carries, spec_ok, same) =
        decode_then-ok raw unmarshal _ _ o resolve_domain_spec paired h in
      subst
        (λ (r : ResolvedDomain Object).
          ComesFrom raw unmarshal o r.domain (λ m. IsDomainOf m r.spec))
        same (given, (m, carries, resolve_domain_spec-IsDomainOf m s spec_ok))
