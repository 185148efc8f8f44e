-- ===== src/Resolution/Route/Contract/Laws.antt =====
-- The runtime in the contract of a resolved Route.
use environments.Common.{String, ◌≡◌, refl, sym, ap, ◌∙◌, subst, ◌≢◌, ◌↔◌, some, ok, arith, eq_iff}
use environments.Json.{Fields}
use environments.Json.Laws.{Holds}
use environments.Resolution.Route.{ResolvedRouteSpec, resolve_route_spec}
use environments.Resolution.Route.Laws.{resolve_route_spec-IsRouteOf}
use environments.Resolution.Route.Contract.{
  RouteRuntimeEnum, RouteContract, map_runtime, to_route_contract,
}

abbrev pub OtherRuntime : String → Type 0
OtherRuntime r = (r ≢ "knative-service") × (r ≢ "kubernetes-container") × (r ≢ "gateway-api")

module _ {Enum : Type 0} (enum : RouteRuntimeEnum Enum) where
  -- The values of the three runtimes are not the unspecified one.
  abbrev pub Specified : Type 0
  Specified =
      (enum.knative_service ≢ enum.unspecified)
      × (enum.kubernetes_container ≢ enum.unspecified)
      × (enum.gateway_api ≢ enum.unspecified)

  map_runtime-unspecified_iff :
      Specified → (r : String) → (map_runtime enum (some r) ≡ enum.unspecified) ↔ OtherRuntime r
  unfolding map_runtime
  map_runtime-unspecified_iff (knative, kubernetes, gateway) r = (
    λ h. (
      λ same. knative (rw same at h),
      λ same. kubernetes (rw same at h),
      λ same. gateway (rw same at h),
    ),
    λ others. ground (
      arith,
      eq_iff r "knative-service",
      eq_iff r "kubernetes-container",
      eq_iff r "gateway-api",
    ),
  )

  -- A Route that resolution accepts, whatever its runtime, has a contract; where the generated values
  -- of the three runtimes are not the unspecified one, the contract's runtime is unspecified exactly
  -- if the text that the Route declares is none of knative-service, kubernetes-container and
  -- gateway-api.
  pub to_route_contract-unspecified_iff :
      {Float64 : Type 0} (m : Fields Float64) (s : ResolvedRouteSpec) (r : String)
      → Specified
      → resolve_route_spec m ≡ ok s
      → Holds m "runtime" r
      → (c : RouteContract Enum) × (to_route_contract enum (some s) ≡ some c)
        × ((c.runtime ≡ enum.unspecified) ↔ OtherRuntime r)
  unfolding to_route_contract
  to_route_contract-unspecified_iff m s r specified s_ok declared =
      let (p, p_is, found) = (resolve_route_spec-IsRouteOf m s s_ok).runtime in
      let same : p ≡ r = cc (found.found, declared.found) in
      (
        _,
        refl,
        subst (λ o. (map_runtime enum o ≡ enum.unspecified) ↔ OtherRuntime r)
            (sym (p_is ∙ ap some same)) (map_runtime-unspecified_iff specified r),
      )
