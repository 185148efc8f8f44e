-- ===== src/Resolution/Environment/Sections.antt =====
-- The references, the units and the secret store of an Environment's contract.
use environments.Common.{
  ℕ, suc, String, ◌≡◌, refl, sym, ◌⊎◌, inl, inr, true, false, Bool-cases, Option, none, some,
  Option-cases, List, [], ◌∷◌, ◌==◌, Result, ok, err, labelled, labelled-ok, bind-ok, ok-injective,
  arith, eq_iff, subst,
}
use environments.Json.{Json, obj, Fields, lookup, as_map, as_list, must_string, optional_string}
use environments.Json.Laws.{
  Defaults, Reads, optional_string-Reads, optional_string-unfilled, Holds, must_string-Holds,
  optional_string-Holds, as_map-obj,
}
use environments.Resolution.Environment.{
  ResolvedVaultConfig, ResolvedSecretStore, or_default, is_vault, labelled_at, reference_name,
  optional_reference, entry_name, unit_names, optional_units, resolve_vault, resolve_provider,
  resolve_secret_store,
}

labelled_at-ok : {A : Type 0} (i : ℕ) (r : Result A) {a : A} → labelled_at i r ≡ ok a → r ≡ ok a
unfolding labelled_at
labelled_at-ok i (ok a) h = h
labelled_at-ok i (err e) h = cc

module _ {Float64 : Type 0} where
  -- An object with a name stands under the key, or no object does and the name is empty.
  abbrev pub MatchesReference : Fields Float64 → String → String → Type 0
  MatchesReference m key name =
      ((as_map (lookup key m) ≡ none) × (name ≡ ""))
      ⊎ ((r : Fields Float64) × (lookup key m ≡ some (obj r)) × Holds r "name" name)

  -- Entry by entry, the list holds objects with these names.
  abbrev pub AreNamed : List (Json Float64) → List String → Type 0
  AreNamed [] [] = Unit
  AreNamed (v ∷ vs) (n ∷ ns) =
      ((r : Fields Float64) × (v ≡ obj r) × Holds r "name" n) × AreNamed vs ns
  AreNamed _ _ = ⊥

  abbrev pub ListsUnits : Fields Float64 → List String → Type 0
  ListsUnits m ns =
      ((as_list (lookup "serviceUnits" m) ≡ none) × (ns ≡ []))
      ⊎ ((vs : List (Json Float64)) × (as_list (lookup "serviceUnits" m) ≡ some vs)
          × AreNamed vs ns)

  pub record IsVaultOf (v : Fields Float64) (c : ResolvedVaultConfig) : Type 0 where
    pub address : Holds v "address" c.address
    pub path : Holds v "path" c.path
    pub role : Holds v "role" c.role
    pub mount_path : Defaults v "mountPath" "kubernetes" c.mount_path
    pub version : Defaults v "version" "v2" c.version
    pub service_account_name : Reads v "serviceAccountName" c.service_account_name

  -- Vault's connection is there exactly for Vault.
  abbrev pub MatchesProvider : Fields Float64 → String → Option ResolvedVaultConfig → Type 0
  MatchesProvider ss provider none = is_vault provider ≡ false
  MatchesProvider ss provider (some c) =
      (is_vault provider ≡ true)
      × ((v : Fields Float64) × (lookup "vault" ss ≡ some (obj v)) × IsVaultOf v c)

  abbrev pub IsStoreOf : Fields Float64 → ResolvedSecretStore → Type 0
  IsStoreOf m s =
      (ss : Fields Float64) × (lookup "secretStore" m ≡ some (obj ss))
      × Holds ss "provider" s.provider
      × Reads ss "storeName" s.store_name
      × MatchesProvider ss s.provider s.vault

  pub optional_reference-MatchesReference :
      (key label : String) (m : Fields Float64) {name : String}
      → optional_reference key label m ≡ ok name
      → MatchesReference m key name
  unfolding optional_reference
  optional_reference-MatchesReference key label m h = elim (Option-cases (as_map (lookup key m))) [
    | inl absent ↦ inl (absent, sym (ok-injective (rw (absent, reference_name) at h)))
    | inr (r, there) ↦ inr (
      r,
      as_map-obj (lookup key m) there,
      must_string-Holds r "name"
          (labelled-ok label (must_string r "name") (rw (there, reference_name) at h)),
    )
  ]

  entry_name-ok :
      (i : ℕ) (v : Json Float64) {n : String}
      → entry_name i (as_map (some v)) ≡ ok n
      → (r : Fields Float64) × (v ≡ obj r) × Holds r "name" n
  unfolding entry_name
  entry_name-ok i (obj r) h = (r, refl, must_string-Holds r "name" (labelled_at-ok i _ h))
  entry_name-ok i _ h = cc

  unit_names-AreNamed :
      (i : ℕ) (vs : List (Json Float64)) {ns : List String}
      → unit_names i vs ≡ ok ns
      → AreNamed vs ns
  unfolding unit_names
  unit_names-AreNamed i [] h = subst (AreNamed []) (ok-injective h) tt
  unit_names-AreNamed i (v ∷ vs) h =
      let (n, n_ok, h) = bind-ok (entry_name i (as_map (some v))) _ h in
      let (ns, ns_ok, h) = bind-ok (unit_names (suc i) vs) _ h in
      subst (AreNamed (v ∷ vs)) (ok-injective h)
        (entry_name-ok i v n_ok, unit_names-AreNamed (suc i) vs ns_ok)

  pub optional_units-ListsUnits :
      (m : Fields Float64) {ns : List String}
      → optional_units (as_list (lookup "serviceUnits" m)) ≡ ok ns
      → ListsUnits m ns
  unfolding optional_units
  optional_units-ListsUnits m h = elim (Option-cases (as_list (lookup "serviceUnits" m))) [
    | inl absent ↦ inl (absent, sym (ok-injective (rw (absent, optional_units) at h)))
    | inr (vs, there) ↦ inr (vs, there, unit_names-AreNamed 0 vs (rw (there, optional_units) at h))
  ]

  or_default_lem :
      (v : Fields Float64) (key fallback : String)
      → Defaults v key fallback (or_default fallback (optional_string v key))
  or_default_lem v key fallback = elim (Bool-cases (optional_string v key == "")) [
    | inl absent ↦
        rw absent (
          inr (refl, optional_string-unfilled v key ((eq_iff (optional_string v key) "").0 absent)))
    | inr given ↦
        rw given
          (inl (optional_string-Holds v key (ground (arith, eq_iff (optional_string v key) ""))))
  ]

  resolve_vault-IsVaultOf :
      (provider : String) (o : Option (Fields Float64)) {c : ResolvedVaultConfig}
      → resolve_vault provider o ≡ ok c
      → (v : Fields Float64) × (o ≡ some v) × IsVaultOf v c
  unfolding resolve_vault
  resolve_vault-IsVaultOf provider none h = cc
  resolve_vault-IsVaultOf provider (some v) h =
      let (address, address_ok, h) = bind-ok (labelled _ (must_string v "address")) _ h in
      let (path, path_ok, h) = bind-ok (labelled _ (must_string v "path")) _ h in
      let (role, role_ok, h) = bind-ok (labelled _ (must_string v "role")) _ h in
      (
        v,
        refl,
        subst (IsVaultOf v) (ok-injective h) (record {
          address = must_string-Holds v "address" (labelled-ok _ _ address_ok);
          path = must_string-Holds v "path" (labelled-ok _ _ path_ok);
          role = must_string-Holds v "role" (labelled-ok _ _ role_ok);
          mount_path = or_default_lem v "mountPath" "kubernetes";
          version = or_default_lem v "version" "v2";
          service_account_name = optional_string-Reads v "serviceAccountName";
        }),
      )

  resolve_provider-MatchesProvider :
      (provider : String) (ss : Fields Float64) {vault : Option ResolvedVaultConfig}
      → resolve_provider provider ss ≡ ok vault
      → MatchesProvider ss provider vault
  unfolding resolve_provider
  resolve_provider-MatchesProvider provider ss h = elim (Bool-cases (is_vault provider)) [
    | inl vault ↦
        let (c, c_ok, h) =
          bind-ok (resolve_vault provider (as_map (lookup "vault" ss))) _ (rw vault at h) in
        let (v, there, is_vault_of) = resolve_vault-IsVaultOf provider _ c_ok in
        subst (MatchesProvider ss provider) (ok-injective h)
          (vault, (v, as_map-obj (lookup "vault" ss) there, is_vault_of))
    | inr other ↦ subst (MatchesProvider ss provider) (ok-injective (rw other at h)) other
  ]

  pub resolve_secret_store-IsStoreOf :
      (m : Fields Float64) {s : ResolvedSecretStore}
      → resolve_secret_store (as_map (lookup "secretStore" m)) ≡ ok s
      → IsStoreOf m s
  unfolding resolve_secret_store
  resolve_secret_store-IsStoreOf m h = elim (Option-cases (as_map (lookup "secretStore" m))) [
    | inl absent ↦ cc (rw (absent, resolve_secret_store) at h)
    | inr (ss, there) ↦
        let (provider, provider_ok, h) =
          bind-ok (labelled "contract.secretStore.provider" (must_string ss "provider")) _
            (rw (there, resolve_secret_store) at h) in
        let (vault, vault_ok, h) = bind-ok (resolve_provider provider ss) _ h in
        subst (IsStoreOf m) (ok-injective h) (
          ss,
          as_map-obj (lookup "secretStore" m) there,
          must_string-Holds ss "provider" (labelled-ok _ _ provider_ok),
          optional_string-Reads ss "storeName",
          resolve_provider-MatchesProvider provider ss vault_ok,
        )
  ]
