-- ===== src/Resolution/Packages/Laws.antt =====
-- What a resolved Package says of its contract.
use environments.Common.{
  ℕ, suc, String, ◌≡◌, refl, sym, ◌↔◌, ◌⊎◌, inl, inr, true, Option, none, some, Option-cases, List,
  [], ◌∷◌, Result, ok, err, labelled, labelled-ok, bind-ok, ok-injective, subst, arith,
}
use environments.Json.{
  Json, str, obj, bool, Fields, lookup, as_map, as_list, must_string, required_map,
}
use environments.Json.Laws.{
  Holds, must_string-Holds, optional_bool-true_iff, required_map-obj, Reads, optional_string-Reads,
}
use environments.Resolution.Packages.{
  ResolvedPackageRepository, ResolvedStateRepository, ResolvedMaintainer, ResolvedPackageSpec,
  ResolvedPackage, maintainer_field, resolve_repository, ref_of, resolve_state_repository,
  optional_state, maintainer_of, maintainer_entries, resolve_maintainers, optional_maintainers,
  resolve_package_spec, decode_package, resolve_package,
}

maintainer_field-ok :
    {A : Type 0} (i : ℕ) (key : String) (r : Result A) {a : A}
    → maintainer_field i key r ≡ ok a
    → r ≡ ok a
unfolding maintainer_field
maintainer_field-ok i key (ok a) h = h
maintainer_field-ok i key (err e) h = cc

module _ {Float64 : Type 0} where
  pub record IsRepositoryOf (m : Fields Float64) (r : ResolvedPackageRepository) : Type 0 where
    pub url : Holds m "url" r.url
    pub ref : Holds m "ref" r.ref
    pub credentials_secret : Reads m "credentialsSecret" r.credentials_secret
    pub path : Reads m "path" r.path

  -- The url is declared; the ref is the declared text, or empty if none is declared.
  pub record IsStateOf (m : Fields Float64) (r : ResolvedStateRepository) : Type 0 where
    pub url : Holds m "url" r.url
    pub ref : (lookup "ref" m ≡ some (str r.ref)) ⊎ ((lookup "ref" m ≡ none) × (r.ref ≡ ""))
    pub clone_secret : Reads m "cloneSecret" r.clone_secret
    pub strategy : Reads m "strategy" r.strategy
    pub path : Reads m "path" r.path

  abbrev pub MatchesState : Option (Json Float64) → Option ResolvedStateRepository → Type 0
  MatchesState o none = o ≡ none
  MatchesState o (some r) = (m : Fields Float64) × (o ≡ some (obj m)) × IsStateOf m r

  -- Entry by entry, the list holds objects with these names and addresses.
  abbrev pub AreMaintainers : List (Json Float64) → List ResolvedMaintainer → Type 0
  AreMaintainers [] [] = Unit
  AreMaintainers (v ∷ vs) (r ∷ rs) =
      ((m : Fields Float64) × (v ≡ obj m) × Holds m "name" r.name × Holds m "email" r.email)
      × AreMaintainers vs rs
  AreMaintainers _ _ = ⊥

  abbrev pub ListsMaintainers : Option (Json Float64) → List ResolvedMaintainer → Type 0
  ListsMaintainers o rs =
      ((o ≡ none) × (rs ≡ []))
      ⊎ ((vs : List (Json Float64)) × (as_list o ≡ some vs) × AreMaintainers vs rs)

  pub record IsPackageOf (m : Fields Float64) (s : ResolvedPackageSpec) : Type 0 where
    pub name : Holds m "name" s.name
    pub version : Holds m "version" s.version
    pub description : Reads m "description" s.description
    pub diff : (s.diff_enabled ≡ true) ↔ (lookup "diffEnabled" m ≡ some (bool true))
    pub repository :
        (r : Fields Float64) × (lookup "repository" m ≡ some (obj r))
        × IsRepositoryOf r s.package_repository
    pub state : MatchesState (lookup "stateRepository" m) s.state_repository
    pub maintainers : ListsMaintainers (lookup "maintainers" m) s.maintainers

  resolve_repository-IsRepositoryOf :
      (m : Fields Float64) {r : ResolvedPackageRepository}
      → resolve_repository m ≡ ok r
      → IsRepositoryOf m r
  unfolding resolve_repository
  resolve_repository-IsRepositoryOf m h =
      let (url, url_ok, h) = bind-ok (must_string m "url") _ h in
      let (ref, ref_ok, h) = bind-ok (must_string m "ref") _ h in
      subst (IsRepositoryOf m) (ok-injective h) (record {
        url = must_string-Holds m "url" url_ok;
        ref = must_string-Holds m "ref" ref_ok;
        credentials_secret = optional_string-Reads m "credentialsSecret";
        path = optional_string-Reads m "path";
      })

  ref_of-ok :
      (o : Option (Json Float64)) {s : String}
      → ref_of o ≡ ok s
      → (o ≡ some (str s)) ⊎ ((o ≡ none) × (s ≡ ""))
  unfolding ref_of
  ref_of-ok none h = inr (refl, sym (ok-injective h))
  ref_of-ok (some (str s)) h = inl (ground arith)
  ref_of-ok _ h = cc

  resolve_state_repository-IsStateOf :
      (m : Fields Float64) {r : ResolvedStateRepository}
      → resolve_state_repository m ≡ ok r
      → IsStateOf m r
  unfolding resolve_state_repository
  resolve_state_repository-IsStateOf m h =
      let (url, url_ok, h) = bind-ok (must_string m "url") _ h in
      let (ref, ref_ok, h) = bind-ok (ref_of (lookup "ref" m)) _ h in
      subst (IsStateOf m) (ok-injective h) (record {
        url = must_string-Holds m "url" url_ok;
        ref = ref_of-ok (lookup "ref" m) ref_ok;
        clone_secret = optional_string-Reads m "cloneSecret";
        strategy = optional_string-Reads m "strategy";
        path = optional_string-Reads m "path";
      })

  optional_state-MatchesState :
      (o : Option (Json Float64)) {r : Option ResolvedStateRepository}
      → optional_state o ≡ ok r
      → MatchesState o r
  unfolding optional_state
  optional_state-MatchesState none h = subst (MatchesState none) (ok-injective h) refl
  optional_state-MatchesState (some (obj m)) h =
      let (r, r_ok, h) = bind-ok (labelled "stateRepository" (resolve_state_repository m)) _ h in
      subst (MatchesState (some (obj m))) (ok-injective h)
        (m, refl, resolve_state_repository-IsStateOf m (labelled-ok _ _ r_ok))
  optional_state-MatchesState _ h = cc

  maintainer_of-ok :
      (i : ℕ) (v : Json Float64) {r : ResolvedMaintainer}
      → maintainer_of i (as_map (some v)) ≡ ok r
      → (m : Fields Float64) × (v ≡ obj m) × Holds m "name" r.name × Holds m "email" r.email
  unfolding maintainer_of
  maintainer_of-ok i (obj m) h =
      let (name, name_ok, h) = bind-ok (maintainer_field i "name" (must_string m "name")) _ h in
      let (email, email_ok, h) = bind-ok (maintainer_field i "email" (must_string m "email")) _ h in
      subst
        (λ (r : ResolvedMaintainer).
          (n : Fields Float64) × (obj m ≡ obj n) × Holds n "name" r.name × Holds n "email" r.email)
        (ok-injective h)
        (
          m,
          refl,
          must_string-Holds m "name" (maintainer_field-ok i "name" _ name_ok),
          must_string-Holds m "email" (maintainer_field-ok i "email" _ email_ok),
        )
  maintainer_of-ok i _ h = cc

  maintainer_entries-AreMaintainers :
      (i : ℕ) (vs : List (Json Float64)) {rs : List ResolvedMaintainer}
      → maintainer_entries i vs ≡ ok rs
      → AreMaintainers vs rs
  unfolding maintainer_entries
  maintainer_entries-AreMaintainers i [] h = subst (AreMaintainers []) (ok-injective h) tt
  maintainer_entries-AreMaintainers i (v ∷ vs) h =
      let (r, r_ok, h) = bind-ok (maintainer_of i (as_map (some v))) _ h in
      let (rs, rs_ok, h) = bind-ok (maintainer_entries (suc i) vs) _ h in
      subst (AreMaintainers (v ∷ vs)) (ok-injective h)
        (maintainer_of-ok i v r_ok, maintainer_entries-AreMaintainers (suc i) vs rs_ok)

  optional_maintainers-ListsMaintainers :
      (o : Option (Json Float64)) {rs : List ResolvedMaintainer}
      → optional_maintainers o ≡ ok rs
      → ListsMaintainers o rs
  unfolding optional_maintainers resolve_maintainers
  optional_maintainers-ListsMaintainers none h = inl (refl, sym (ok-injective h))
  optional_maintainers-ListsMaintainers (some v) h = elim (Option-cases (as_list (some v))) [
    | inl absent ↦ cc (rw (absent, resolve_maintainers) at h)
    | inr (vs, there) ↦
        inr
          (vs, there, maintainer_entries-AreMaintainers 0 vs (rw (there, resolve_maintainers) at h))
  ]

  resolve_package_spec-IsPackageOf :
      (m : Fields Float64) (s : ResolvedPackageSpec)
      → resolve_package_spec m ≡ ok s
      → IsPackageOf m s
  unfolding resolve_package_spec
  resolve_package_spec-IsPackageOf m s h =
      let (name, name_ok, h) = bind-ok (must_string m "name") _ h in
      let (version, version_ok, h) = bind-ok (must_string m "version") _ h in
      let (r, r_ok, h) = bind-ok (required_map m "repository") _ h in
      let (repo, repo_ok, h) = bind-ok (labelled "repository" (resolve_repository r)) _ h in
      let (state, state_ok, h) = bind-ok (optional_state (lookup "stateRepository" m)) _ h in
      let (people, people_ok, h) = bind-ok (optional_maintainers (lookup "maintainers" m)) _ h in
      subst (IsPackageOf m) (ok-injective h) (record {
        name = must_string-Holds m "name" name_ok;
        version = must_string-Holds m "version" version_ok;
        description = optional_string-Reads m "description";
        diff = optional_bool-true_iff m "diffEnabled";
        repository = (
          r,
          required_map-obj m "repository" r_ok,
          resolve_repository-IsRepositoryOf r (labelled-ok _ _ repo_ok),
        );
        state = optional_state-MatchesState (lookup "stateRepository" m) state_ok;
        maintainers = optional_maintainers-ListsMaintainers (lookup "maintainers" m) people_ok;
      })

module _ {Object Float64 : Type 0} (raw : Object → Option (List ℕ))
    (unmarshal : List ℕ → Result (Fields Float64)) where
  -- A resolved Package keeps the object that was given, whose contract is not nil and decodes to
  -- fields that mean the spec: name, version, the repository's url and ref are declared and not
  -- empty; a state repository stands there exactly if one is resolved; the maintainers are those of
  -- the list, in order, each with a name and an address; the diff is enabled exactly if the
  -- contract says so, and each optional text is the declared one or empty.
  pub resolve_package-IsPackageOf :
      (o : Object) (r : ResolvedPackage Object)
      → resolve_package raw unmarshal (some o) ≡ ok r
      → (r.packages ≡ o)
        × ((bytes : List ℕ) × (m : Fields Float64) × (raw o ≡ some bytes)
            × (unmarshal bytes ≡ ok m)
            × IsPackageOf m r.spec)
  unfolding resolve_package decode_package
  resolve_package-IsPackageOf o r h =
      let (m, decoded, h) = bind-ok (decode_package raw unmarshal (raw o)) _ h in
      let (s, spec_ok, h) = bind-ok (resolve_package_spec m) _ h in
      elim (Option-cases (raw o)) [
        | inl absent ↦ cc (rw (absent, decode_package) at decoded)
        | inr (bytes, there) ↦
            let decoded = labelled-ok _ _ (rw (there, decode_package) at decoded) in
            subst
              (λ (r : ResolvedPackage Object).
                (r.packages ≡ o)
                × ((bytes : List ℕ) × (m : Fields Float64) × (raw o ≡ some bytes)
                    × (unmarshal bytes ≡ ok m)
                    × IsPackageOf m r.spec))
              (ok-injective h)
              (refl, (bytes, m, there, decoded, resolve_package_spec-IsPackageOf m s spec_ok))
      ]
