-- ===== src/Resolution/Deployment/Modes.antt =====
-- The runtime and the reconciliation mode that a Deployment's contract declares.
use environments.Common.{
  String, ◌≡◌, refl, sym, ◌⊎◌, inl, inr, Option, none, some, Option-cases, ok, bind-ok,
  ok-injective, arith, eq_iff, subst,
}
use environments.Json.{Json, str, num, Fields, lookup}
use environments.Resolution.Deployment.{
  RuntimeEnum, StrategyEnum, runtime_kubernetes, runtime_knative, ResolvedManifestsRepo,
  resolve_deployment_runtime, normalize_runtime, resolve_reconciliation_strategy,
  normalize_reconciliation_strategy, resolve_reconciliation,
}

module _ {Float64 Enum : Type 0} (runtimes : RuntimeEnum Float64 Enum) where
  -- The runtime that a contract declares, by a name or by its number.
  abbrev pub DeclaresRuntime : Option (Json Float64) → String → Type 0
  DeclaresRuntime o r =
      (((o ≡ some (str "kubernetes")) ⊎ (o ≡ some (str "kubernetes.io/container-runtime")))
        × (r ≡ runtime_kubernetes))
      ⊎ ((o ≡ some (str "knative")) × (r ≡ runtime_knative))
      ⊎ ((v : Float64) × (o ≡ some (num v))
          × (((runtimes.of_float64 v ≡ runtimes.kubernetes_container) × (r ≡ runtime_kubernetes))
              ⊎ ((runtimes.of_float64 v ≡ runtimes.knative_service) × (r ≡ runtime_knative))))

  normalize_runtime_lem :
      (e : Enum) (r : String)
      → normalize_runtime runtimes e ≡ ok r
      → ((e ≡ runtimes.kubernetes_container) × (r ≡ runtime_kubernetes))
        ⊎ ((e ≡ runtimes.knative_service) × (r ≡ runtime_knative))
  unfolding normalize_runtime
  normalize_runtime_lem e r h = ground (
    arith,
    runtimes.same_iff e runtimes.kubernetes_container,
    runtimes.same_iff e runtimes.knative_service,
  )

  resolve_deployment_runtime_lem :
      (v : String) (e : Enum)
      → resolve_deployment_runtime runtimes (some (str v)) ≡ ok e
      → (((v ≡ "kubernetes") ⊎ (v ≡ "kubernetes.io/container-runtime"))
          × (e ≡ runtimes.kubernetes_container))
        ⊎ ((v ≡ "knative") × (e ≡ runtimes.knative_service))
  unfolding resolve_deployment_runtime
  resolve_deployment_runtime_lem v e h =
      ground (
        arith,
        eq_iff v "kubernetes",
        eq_iff v "kubernetes.io/container-runtime",
        eq_iff v "knative",
      )

  pub normalize_runtime-DeclaresRuntime :
      (o : Option (Json Float64)) (e : Enum) (r : String)
      → resolve_deployment_runtime runtimes o ≡ ok e
      → normalize_runtime runtimes e ≡ ok r
      → DeclaresRuntime o r
  unfolding resolve_deployment_runtime
  normalize_runtime-DeclaresRuntime (some (str v)) e r found named =
      let named = normalize_runtime_lem e r named in
      let distinct = runtimes.distinct in ground (arith, resolve_deployment_runtime_lem v e found)
  normalize_runtime-DeclaresRuntime (some (num v)) e r found named = inr (
      inr (
        v,
        refl,
        subst
            (λ e.
              ((e ≡ runtimes.kubernetes_container) × (r ≡ runtime_kubernetes))
              ⊎ ((e ≡ runtimes.knative_service) × (r ≡ runtime_knative)))
            (sym (ok-injective found)) (normalize_runtime_lem e r named),
      ))
  normalize_runtime-DeclaresRuntime _ e r found named = cc

module _ {Float64 Enum : Type 0} (strategies : StrategyEnum Float64 Enum) where
  -- A value of the enum, and the mode that it stands for.
  abbrev pub MeansMode : Enum → String → Type 0
  MeansMode e mode =
      ((e ≡ strategies.kustomize) × (mode ≡ "Kustomize"))
      ⊎ ((e ≡ strategies.helm) × (mode ≡ "Helm"))
      ⊎ ((e ≡ strategies.unspecified) × (mode ≡ "Imperative"))

  -- The mode that a contract declares, by its name or by its number.
  abbrev pub DeclaresMode : Option (Json Float64) → String → Type 0
  DeclaresMode o mode =
      ((o ≡ some (str "kustomize")) × (mode ≡ "Kustomize"))
      ⊎ ((o ≡ some (str "helm")) × (mode ≡ "Helm"))
      ⊎ ((v : Float64) × (o ≡ some (num v)) × MeansMode (strategies.of_float64 v) mode)

  -- Imperative and undeclared without a repo; with one, the declared mode.
  abbrev pub MatchesMode : Fields Float64 → Option ResolvedManifestsRepo → String → Type 0
  MatchesMode m none mode = (mode ≡ "Imperative") × (lookup "reconciliationStrategy" m ≡ none)
  MatchesMode m (some repo) mode = DeclaresMode (lookup "reconciliationStrategy" m) mode

  normalize_reconciliation_strategy_lem :
      (e : Enum) (r : String)
      → normalize_reconciliation_strategy strategies e ≡ ok r
      → MeansMode e r
  unfolding normalize_reconciliation_strategy
  normalize_reconciliation_strategy_lem e r h = ground (
    arith,
    strategies.same_iff e strategies.kustomize,
    strategies.same_iff e strategies.helm,
    strategies.same_iff e strategies.unspecified,
  )

  resolve_reconciliation_strategy_lem :
      (v : String) (e : Enum)
      → resolve_reconciliation_strategy strategies (some (str v)) ≡ ok e
      → ((v ≡ "kustomize") × (e ≡ strategies.kustomize)) ⊎ ((v ≡ "helm") × (e ≡ strategies.helm))
  unfolding resolve_reconciliation_strategy
  resolve_reconciliation_strategy_lem v e h = ground (arith, eq_iff v "kustomize", eq_iff v "helm")

  normalize_reconciliation_strategy-DeclaresMode :
      (o : Option (Json Float64)) (e : Enum) (mode : String)
      → resolve_reconciliation_strategy strategies o ≡ ok e
      → normalize_reconciliation_strategy strategies e ≡ ok mode
      → DeclaresMode o mode
  unfolding resolve_reconciliation_strategy
  normalize_reconciliation_strategy-DeclaresMode (some (str v)) e mode found named =
      let named = normalize_reconciliation_strategy_lem e mode named in
      let apart = strategies.kustomize_helm in
      let kustomized = strategies.kustomize_unspecified in
      let charted = strategies.helm_unspecified in
      ground (arith, resolve_reconciliation_strategy_lem v e found)
  normalize_reconciliation_strategy-DeclaresMode (some (num v)) e mode found named = inr (
      inr (
        v,
        refl,
        subst (λ e. MeansMode e mode) (sym (ok-injective found))
            (normalize_reconciliation_strategy_lem e mode named),
      ))
  normalize_reconciliation_strategy-DeclaresMode _ e mode found named = cc

  pub resolve_reconciliation-MatchesMode :
      (m : Fields Float64) (repo : Option ResolvedManifestsRepo) (mode : String)
      → resolve_reconciliation strategies repo (lookup "reconciliationStrategy" m) ≡ ok mode
      → MatchesMode m repo mode
  unfolding resolve_reconciliation
  resolve_reconciliation-MatchesMode m none mode h = (ground arith, ground arith)
  resolve_reconciliation-MatchesMode m (some repo) mode h =
      elim (Option-cases (lookup "reconciliationStrategy" m)) [
        | inl absent ↦ ground arith
        | inr (v, there) ↦
            let (e, raw_ok, h) =
              bind-ok (resolve_reconciliation_strategy strategies (some v)) _
                (rw (there, resolve_reconciliation) at h) in
            subst (λ o. DeclaresMode o mode) (sym there)
              (normalize_reconciliation_strategy-DeclaresMode (some v) e mode raw_ok h)
      ]
