-- ===== src/Resolution/Deployment/Laws.antt =====
-- What a resolved Deployment says of its contract.
use environments.Common.{
  ℕ, String, ◌≡◌, refl, ◌≢◌, ◌↔◌, ◌⊎◌, inl, inr, true, Option, none, some, List, [], ◌∷◌, Result,
  ok, bind-ok, ok-injective, labelled-ok, labelled, Option-cases, arith, eq_iff, subst,
}
use environments.Json.{
  is_declared, string_or_empty, Json, str, bool, obj, Fields, lookup, as_string, as_map, as_list,
  must_string, optional_string,
}
use environments.Json.Laws.{
  Reads, optional_string-Reads, as_map-obj, Holds, must_string-Holds, optional_bool-true_iff,
}
use environments.Resolution.Contract.Laws.{ComesFrom, decode_then-ok}
use environments.Resolution.Deployment.Modes.{
  DeclaresRuntime, MatchesMode, normalize_runtime-DeclaresRuntime,
  resolve_reconciliation-MatchesMode,
}
use environments.Resolution.Deployment.{
  RuntimeEnum, StrategyEnum, ResolvedManifestsRepo, ResolvedDeploymentSpec, ResolvedDeployment,
  declared_text, service_unit_entry, service_unit_entries, listed_units, resolve_service_units,
  resolve_deployment_strategy, resolve_git_owner, resolve_repo_fields, optional_repo,
  resolve_manifests_repo, resolve_deployment_runtime, normalize_runtime, resolve_reconciliation,
  resolve_deployment_spec, resolve_deployment,
}

module _ {Float64 : Type 0} where
  -- Entry by entry, the list holds these texts, and none is empty.
  abbrev pub AreTexts : List (Json Float64) → List String → Type 0
  AreTexts [] [] = Unit
  AreTexts (v ∷ vs) (s ∷ ss) = (v ≡ str s) × (s ≢ "") × AreTexts vs ss
  AreTexts _ _ = ⊥

  pub record NamesUnits (m : Fields Float64) (units : List String) : Type 0 where
    pub listed : List (Json Float64)
    pub found : as_list (lookup "serviceUnits" m) ≡ some listed
    pub texts : AreTexts listed units
    pub some_unit : units ≢ []

  -- A text that need not be declared, but is not empty if it is.
  abbrev pub HoldsIfDeclared : Fields Float64 → String → String → Type 0
  HoldsIfDeclared m key s = Holds m key s ⊎ ((lookup key m ≡ none) × (s ≡ ""))

  pub record IsRepoOf (r : Fields Float64) (repo : ResolvedManifestsRepo) : Type 0 where
    pub url : Holds r "url" repo.url
    pub clone_secret : HoldsIfDeclared r "cloneSecret" repo.clone_secret
    pub ref : Reads r "ref" repo.ref
    pub path : Reads r "path" repo.path
    pub strategy : Reads r "strategy" repo.strategy

  -- A repo is resolved exactly if the contract has an object there.
  abbrev pub MatchesRepo : Fields Float64 → Option ResolvedManifestsRepo → Type 0
  MatchesRepo m none = as_map (lookup "manifestsRepo" m) ≡ none
  MatchesRepo m (some repo) =
      (r : Fields Float64) × (lookup "manifestsRepo" m ≡ some (obj r)) × IsRepoOf r repo

  service_unit_entry_lem :
      (v : Json Float64) (s : String)
      → service_unit_entry (as_string (some v)) ≡ ok s
      → (v ≡ str s) × (s ≢ "")
  unfolding service_unit_entry
  service_unit_entry_lem (str t) s h = ground (arith, eq_iff t "")
  service_unit_entry_lem _ s h = cc

  service_unit_entries-AreTexts :
      (vs : List (Json Float64)) (units : List String)
      → service_unit_entries vs ≡ ok units
      → AreTexts vs units
  unfolding service_unit_entries
  service_unit_entries-AreTexts [] units h = subst (AreTexts []) (ok-injective h) tt
  service_unit_entries-AreTexts (v ∷ vs) units h =
      let (s, entry, h) = bind-ok (service_unit_entry (as_string (some v))) _ h in
      let (rest, later, h) = bind-ok (service_unit_entries vs) _ h in
      let (here, filled) = service_unit_entry_lem v s entry in
      subst (AreTexts (v ∷ vs)) (ok-injective h)
        (here, filled, service_unit_entries-AreTexts vs rest later)

  listed_units-ok :
      (o : Option (List (Json Float64))) (units : List String)
      → listed_units o ≡ ok units
      → (vs : List (Json Float64)) × (o ≡ some vs) × AreTexts vs units × (units ≢ [])
  unfolding listed_units
  listed_units-ok (some (v ∷ vs)) (u ∷ us) h =
      (v ∷ vs, refl, service_unit_entries-AreTexts (v ∷ vs) (u ∷ us) h, cc)
  listed_units-ok (some (v ∷ vs)) [] h = absurd (service_unit_entries-AreTexts (v ∷ vs) [] h)
  listed_units-ok _ units h = cc

  resolve_service_units-NamesUnits :
      (m : Fields Float64) (units : List String)
      → resolve_service_units m ≡ ok units
      → NamesUnits m units
  unfolding resolve_service_units
  resolve_service_units-NamesUnits m units h =
      let (vs, found, texts, some_unit) = listed_units-ok _ units h in
      record { listed = vs; found = found; texts = texts; some_unit = some_unit }

  resolve_deployment_strategy_lem :
      (o : Option (Json Float64)) (s : String)
      → resolve_deployment_strategy o ≡ ok s
      → (o ≡ some (str s)) × ((s ≡ "Rolling") ⊎ (s ≡ "BlueGreen") ⊎ (s ≡ "Canary"))
  unfolding resolve_deployment_strategy
  resolve_deployment_strategy_lem (some (str v)) s h =
      ground (arith, eq_iff v "Rolling", eq_iff v "BlueGreen", eq_iff v "Canary")
  resolve_deployment_strategy_lem _ s h = cc

  declared_text_cases :
      (o : Option (Json Float64)) (text s : String)
      → declared_text (is_declared o) (string_or_empty (as_string o)) text ≡ ok s
      → ((o ≡ some (str s)) × (s ≢ "")) ⊎ ((o ≡ none) × (s ≡ ""))
  unfolding declared_text
  declared_text_cases none text s h = ground arith
  declared_text_cases (some (str t)) text s h = ground (arith, eq_iff t "")
  declared_text_cases (some _) text s h = cc

  declared_text_lem :
      (m : Fields Float64) (key text s : String)
      → declared_text (is_declared (lookup key m)) (optional_string m key) text ≡ ok s
      → HoldsIfDeclared m key s
  unfolding optional_string
  declared_text_lem m key text s h = elim (declared_text_cases (lookup key m) text s h) [
    | inl (found, filled) ↦ inl (record { found = found; filled = filled })
    | inr absent ↦ inr absent
  ]

  resolve_repo_fields-IsRepoOf :
      (r : Fields Float64) (repo : ResolvedManifestsRepo)
      → resolve_repo_fields r ≡ ok repo
      → IsRepoOf r repo
  unfolding resolve_repo_fields
  resolve_repo_fields-IsRepoOf r repo h =
      let (url, url_ok, h) = bind-ok (labelled "manifestsRepo.url" (must_string r "url")) _ h in
      let (secret, secret_ok, h) =
        bind-ok
          (declared_text (is_declared (lookup "cloneSecret" r)) (optional_string r "cloneSecret")
            "manifestsRepo.cloneSecret declared but empty")
          _ h in
      subst (IsRepoOf r) (ok-injective h) (record {
        url = must_string-Holds r "url" (labelled-ok _ _ url_ok);
        clone_secret =
            declared_text_lem r "cloneSecret" "manifestsRepo.cloneSecret declared but empty" secret
              secret_ok;
        ref = optional_string-Reads r "ref";
        path = optional_string-Reads r "path";
        strategy = optional_string-Reads r "strategy";
      })

  resolve_manifests_repo-MatchesRepo :
      (m : Fields Float64) (repo : Option ResolvedManifestsRepo)
      → resolve_manifests_repo m ≡ ok repo
      → MatchesRepo m repo
  unfolding resolve_manifests_repo
  resolve_manifests_repo-MatchesRepo m repo h =
      elim (Option-cases (as_map (lookup "manifestsRepo" m))) [
        | inl absent ↦ subst (MatchesRepo m) (ok-injective (rw (absent, optional_repo) at h)) absent
        | inr (r, there) ↦
            let (found, repo_ok, h) =
              bind-ok (resolve_repo_fields r) _ (rw (there, optional_repo) at h) in
            subst (MatchesRepo m) (ok-injective h) (
              r,
              as_map-obj (lookup "manifestsRepo" m) there,
              resolve_repo_fields-IsRepoOf r found repo_ok,
            )
      ]

abbrev paired : {Object : Type 0} → Object → ResolvedDeploymentSpec → ResolvedDeployment Object
paired o s = record { deployment = o; spec = s }

module _ {Float64 Runtimes Strategies : Type 0} (runtimes : RuntimeEnum Float64 Runtimes)
    (strategies : StrategyEnum Float64 Strategies) where
  pub record IsDeploymentOf (m : Fields Float64) (s : ResolvedDeploymentSpec) : Type 0 where
    pub units : NamesUnits m s.service_units
    pub runtime : DeclaresRuntime runtimes (lookup "runtime" m) s.runtime
    pub strategy : lookup "strategy" m ≡ some (str s.strategy)
    pub known_strategy :
        (s.strategy ≡ "Rolling") ⊎ (s.strategy ≡ "BlueGreen") ⊎ (s.strategy ≡ "Canary")
    pub git_owner : HoldsIfDeclared m "gitOwner" s.git_owner
    pub image_automation :
        (s.image_automation ≡ true) ↔ (lookup "imageAutomation" m ≡ some (bool true))
    pub repo : MatchesRepo m s.manifests_repo
    pub mode : MatchesMode strategies m s.manifests_repo s.reconciliation_strategy

  resolve_deployment_spec-IsDeploymentOf :
      (m : Fields Float64) (s : ResolvedDeploymentSpec)
      → resolve_deployment_spec runtimes strategies m ≡ ok s
      → IsDeploymentOf m s
  unfolding resolve_deployment_spec resolve_git_owner
  resolve_deployment_spec-IsDeploymentOf m s h =
      let (units, units_ok, h) = bind-ok (resolve_service_units m) _ h in
      let (rt, rt_ok, h) = bind-ok (resolve_deployment_runtime runtimes (lookup "runtime" m)) _ h in
      let (runtime, runtime_ok, h) = bind-ok (normalize_runtime runtimes rt) _ h in
      let (strategy, strategy_ok, h) =
        bind-ok (resolve_deployment_strategy (lookup "strategy" m)) _ h in
      let (owner, owner_ok, h) = bind-ok (resolve_git_owner m) _ h in
      let (repo, repo_ok, h) = bind-ok (resolve_manifests_repo m) _ h in
      let (mode, mode_ok, h) =
        bind-ok (resolve_reconciliation strategies repo (lookup "reconciliationStrategy" m)) _ h in
      let (strategy_found, strategy_known) =
        resolve_deployment_strategy_lem _ strategy strategy_ok in
      subst (IsDeploymentOf m) (ok-injective h) (record {
        units = resolve_service_units-NamesUnits m units units_ok;
        runtime =
            normalize_runtime-DeclaresRuntime runtimes (lookup "runtime" m) rt runtime rt_ok
              runtime_ok;
        strategy = strategy_found;
        known_strategy = strategy_known;
        git_owner = declared_text_lem m "gitOwner" "gitOwner declared but empty" owner owner_ok;
        image_automation = optional_bool-true_iff m "imageAutomation";
        repo = resolve_manifests_repo-MatchesRepo m repo repo_ok;
        mode = resolve_reconciliation-MatchesMode strategies m repo mode mode_ok;
      })

  module _ {Object : Type 0} (raw : Object → List ℕ)
      (unmarshal : List ℕ → Result (Fields Float64)) where
    -- A resolved Deployment keeps the object that was given, whose contract is not empty and
    -- decodes to fields that mean the spec: the units it lists, all non-empty; the runtime and the
    -- mode that it names or numbers, each by its own value; the strategy that it names, one of
    -- three; a repo exactly if an object stands there, and a mode only together with a repo.
    pub resolve_deployment-IsDeploymentOf :
        (o : Option Object) (r : ResolvedDeployment Object)
        → resolve_deployment runtimes strategies raw unmarshal o ≡ ok r
        → ComesFrom raw unmarshal o r.deployment (λ m. IsDeploymentOf m r.spec)
    unfolding resolve_deployment
    resolve_deployment-IsDeploymentOf o r h =
        let (p, m, s, given, carries, spec_ok, same) =
          decode_then-ok raw unmarshal _ _ o (resolve_deployment_spec runtimes strategies) paired
            h in
        subst
          (λ (r : ResolvedDeployment Object).
            ComesFrom raw unmarshal o r.deployment (λ m. IsDeploymentOf m r.spec))
          same (given, (m, carries, resolve_deployment_spec-IsDeploymentOf m s spec_ok))
