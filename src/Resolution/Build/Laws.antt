-- ===== src/Resolution/Build/Laws.antt =====
-- What a resolved Build says of its contract.
use environments.Common.{
  ℕ, String, ◌≡◌, sym, ◌≢◌, ◌⊎◌, inl, inr, Option, none, some, Option-cases, List, Result, ok,
  labelled, labelled-ok, bind-ok, ok-injective, arith, eq_iff, subst,
}
use environments.Json.{obj, Fields, lookup, as_map, must_string}
use environments.Json.Laws.{Holds, must_string-Holds, as_map-obj, Reads, optional_string-Reads}
use environments.Resolution.Contract.Laws.{ComesFrom, decode_then-ok}
use environments.Resolution.Build.{
  Uint32Of, ResolvedServiceAccount, account_of, ResolvedSource, ResolvedStrategy,
  strategy_kind_cluster, strategy_kind_namespaced, ResolvedBuildSpec, ResolvedBuild, demand_map,
  check_strategy_kind, check_clone_secret, resolve_build_source, resolve_build_strategy,
  resolve_policy, resolve_build_spec, resolve_build,
}
use environments.Resolution.Build.Policy.{MatchesPolicy, resolve_policy-MatchesPolicy}

demand_map-ok :
    {A : Type 0} (text : String) (o : Option A) {a : A} → demand_map text o ≡ ok a → o ≡ some a
unfolding demand_map
demand_map-ok text none h = cc
demand_map-ok text (some a) h = ground arith

check_strategy_kind_lem :
    (k kind : String)
    → check_strategy_kind k ≡ ok kind
    → (k ≡ kind) × ((kind ≡ strategy_kind_cluster) ⊎ (kind ≡ strategy_kind_namespaced))
unfolding check_strategy_kind
check_strategy_kind_lem k kind h =
    ground (arith, eq_iff k strategy_kind_cluster, eq_iff k strategy_kind_namespaced)

module _ {Float64 : Type 0} where
  pub record IsSourceOf (r : Fields Float64) (s : ResolvedSource) : Type 0 where
    pub url : Holds r "url" s.url
    pub secret : (lookup "cloneSecret" r ≡ none) ⊎ (s.clone_secret ≢ "")
    pub clone_secret : Reads r "cloneSecret" s.clone_secret
    pub revision : Reads r "revision" s.revision
    pub context_dir : Reads r "contextDir" s.context_dir

  pub record IsStrategyOf (r : Fields Float64) (s : ResolvedStrategy) : Type 0 where
    pub name : Holds r "name" s.name
    pub kind : Holds r "kind" s.strategy_kind
    pub known :
        (s.strategy_kind ≡ strategy_kind_cluster) ⊎ (s.strategy_kind ≡ strategy_kind_namespaced)

  check_clone_secret_lem :
      (r : Fields Float64) (s t : ResolvedSource)
      → check_clone_secret r s ≡ ok t
      → (s ≡ t) × ((lookup "cloneSecret" r ≡ none) ⊎ (s.clone_secret ≢ ""))
  unfolding check_clone_secret
  check_clone_secret_lem r s t h = elim (Option-cases (lookup "cloneSecret" r)) [
    | inl absent ↦ (ok-injective (rw (absent, check_clone_secret) at h), inl absent)
    | inr (v, there) ↦
        let h = rw (there, check_clone_secret) at h in
        (ground (arith, eq_iff s.clone_secret ""), inr (ground (arith, eq_iff s.clone_secret "")))
  ]

  resolve_build_source-IsSourceOf :
      (r : Fields Float64) (s : ResolvedSource) → resolve_build_source r ≡ ok s → IsSourceOf r s
  unfolding resolve_build_source
  resolve_build_source-IsSourceOf r s h =
      let (url, url_ok, h) = bind-ok (labelled "source.url" (must_string r "url")) _ h in
      let (same, secret) = check_clone_secret_lem r _ s h in
      subst (IsSourceOf r) same (record {
        url = must_string-Holds r "url" (labelled-ok _ _ url_ok);
        secret = secret;
        clone_secret = optional_string-Reads r "cloneSecret";
        revision = optional_string-Reads r "revision";
        context_dir = optional_string-Reads r "contextDir";
      })

  resolve_build_strategy-IsStrategyOf :
      (r : Fields Float64) (s : ResolvedStrategy)
      → resolve_build_strategy r ≡ ok s
      → IsStrategyOf r s
  unfolding resolve_build_strategy
  resolve_build_strategy-IsStrategyOf r s h =
      let (name, name_ok, h) = bind-ok (labelled "strategy.name" (must_string r "name")) _ h in
      let (k, kind_ok, h) = bind-ok (labelled "strategy.kind" (must_string r "kind")) _ h in
      let (kind, known_ok, h) = bind-ok (check_strategy_kind k) _ h in
      let (same, known) = check_strategy_kind_lem k kind known_ok in
      subst (IsStrategyOf r) (ok-injective h) (record {
        name = must_string-Holds r "name" (labelled-ok _ _ name_ok);
        kind = subst (Holds r "kind") same (must_string-Holds r "kind" (labelled-ok _ _ kind_ok));
        known = known;
      })

module _ {Float64 : Type 0} where
  -- An account is there exactly if an object stands there, with its texts.
  abbrev pub MatchesAccount : Fields Float64 → Option ResolvedServiceAccount → Type 0
  MatchesAccount m none = as_map (lookup "serviceAccount" m) ≡ none
  MatchesAccount m (some a) =
      (r : Fields Float64) × (lookup "serviceAccount" m ≡ some (obj r))
      × Reads r "name" a.name
      × Reads r "secret" a.secret

  account_of-MatchesAccount :
      (m : Fields Float64) → MatchesAccount m (account_of (as_map (lookup "serviceAccount" m)))
  unfolding account_of
  account_of-MatchesAccount m = elim (Option-cases (as_map (lookup "serviceAccount" m))) [
    | inl absent ↦ subst (λ o. MatchesAccount m (account_of o)) (sym absent) absent
    | inr (r, there) ↦
        subst (λ o. MatchesAccount m (account_of o)) (sym there)
          (
            r,
            as_map-obj (lookup "serviceAccount" m) there,
            optional_string-Reads r "name",
            optional_string-Reads r "secret",
          )
  ]

module _ {Float64 Uint32 : Type 0} (ints : Uint32Of Float64 Uint32) where
  pub record IsBuildOf (m : Fields Float64) (s : ResolvedBuildSpec Uint32) : Type 0 where
    pub image : Holds m "image" s.image
    pub source : (r : Fields Float64) × (lookup "source" m ≡ some (obj r)) × IsSourceOf r s.source
    pub strategy :
        (r : Fields Float64) × (lookup "strategy" m ≡ some (obj r)) × IsStrategyOf r s.strategy
    pub event : Reads m "githubevent" s.githubevent
    pub account : MatchesAccount m s.service_account
    pub policy : MatchesPolicy ints m s.policy

  resolve_build_spec-IsBuildOf :
      (m : Fields Float64) (s : ResolvedBuildSpec Uint32)
      → resolve_build_spec ints m ≡ ok s
      → IsBuildOf m s
  unfolding resolve_build_spec
  resolve_build_spec-IsBuildOf m s h =
      let (src, src_ok, h) =
        bind-ok (demand_map "source is required" (as_map (lookup "source" m))) _ h in
      let (source, source_ok, h) = bind-ok (resolve_build_source src) _ h in
      let (image, image_ok, h) = bind-ok (labelled "image" (must_string m "image")) _ h in
      let (strat, strat_ok, h) =
        bind-ok (demand_map "strategy is required" (as_map (lookup "strategy" m))) _ h in
      let (strategy, strategy_ok, h) = bind-ok (resolve_build_strategy strat) _ h in
      let (policy, policy_ok, h) = bind-ok (resolve_policy ints (as_map (lookup "policy" m))) _ h in
      subst (IsBuildOf m) (ok-injective h) (record {
        image = must_string-Holds m "image" (labelled-ok _ _ image_ok);
        source = (
          src,
          as_map-obj (lookup "source" m) (demand_map-ok _ _ src_ok),
          resolve_build_source-IsSourceOf src source source_ok,
        );
        strategy = (
          strat,
          as_map-obj (lookup "strategy" m) (demand_map-ok _ _ strat_ok),
          resolve_build_strategy-IsStrategyOf strat strategy strategy_ok,
        );
        event = optional_string-Reads m "githubevent";
        account = account_of-MatchesAccount m;
        policy = resolve_policy-MatchesPolicy ints m policy policy_ok;
      })

  abbrev paired :
      {Object : Type 0} → Object → ResolvedBuildSpec Uint32 → ResolvedBuild Object Uint32
  paired o s = record { build = o; spec = s }

  module _ {Object : Type 0} (raw : Object → List ℕ)
      (unmarshal : List ℕ → Result (Fields Float64)) where
    -- A resolved Build keeps the object that was given, whose contract is not empty and decodes to
    -- fields that mean the spec: image, source and strategy are declared, the strategy's kind is
    -- one of two, a service account stands there exactly if one is resolved, the texts that are
    -- optional are the declared ones or empty, the triggers are those of the entries that declare
    -- one, and a Build that retries on failure has attempts left; without a policy object there is
    -- no trigger and no retry.
    pub resolve_build-IsBuildOf :
        (o : Option Object) (r : ResolvedBuild Object Uint32)
        → resolve_build ints raw unmarshal o ≡ ok r
        → ComesFrom raw unmarshal o r.build (λ m. IsBuildOf m r.spec)
    unfolding resolve_build
    resolve_build-IsBuildOf o r h =
        let (p, m, s, given, carries, spec_ok, same) =
          decode_then-ok raw unmarshal _ _ o (resolve_build_spec ints) paired h in
        subst
          (λ (r : ResolvedBuild Object Uint32).
            ComesFrom raw unmarshal o r.build (λ m. IsBuildOf m r.spec))
          same (given, (m, carries, resolve_build_spec-IsBuildOf m s spec_ok))
