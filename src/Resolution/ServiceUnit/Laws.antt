-- ===== src/Resolution/ServiceUnit/Laws.antt =====
-- What a resolved ServiceUnit says of its contract.
use environments.Common.{
  ℕ, String, ◌≡◌, refl, sym, ◌≢◌, arith, eq_iff, ◌⊎◌, inl, inr, Bool-cases, Option, none, some,
  Option-cases, List, Result, ok, labelled, labelled-ok, bind-ok, ok-injective, subst,
}
use environments.Json.{Json, str, num, Fields, lookup, obj, as_map, must_string, optional_string}
use environments.Json.Laws.{
  Holds, must_string-Holds, as_map-obj, Reads, ReadsNumber, optional_string-Reads,
}
use environments.Resolution.Contract.Laws.{ComesFrom, decode_then-ok}
use environments.Resolution.ServiceUnit.{
  UnitTypeEnum, Int32Of, int32_value, optional_int32, ResolvedBuildRef, ResolvedRouteRef,
  ResolvedServiceUnitSpec, ResolvedServiceUnit, Source, build_ref_of, route_ref_of,
  resolve_service_unit_type, resolve_source, resolve_service_unit_spec, resolve_service_unit,
}

module _ {Float64 : Type 0} where
  -- The image is declared by a static unit, and by no other.
  pub record IsBuildSource (m : Fields Float64) (image : String)
      (build_ref : Option ResolvedBuildRef) : Type 0 where
    pub no_image : image ≡ ""
    pub reference : Fields Float64
    pub found : lookup "buildRef" m ≡ some (obj reference)
    pub build : ResolvedBuildRef
    pub referenced : build_ref ≡ some build
    pub named : Holds reference "name" build.name
    pub namespace : Reads reference "namespace" build.namespace

  abbrev pub MatchesRoute : Fields Float64 → Option ResolvedRouteRef → Type 0
  MatchesRoute m none = as_map (lookup "route" m) ≡ none
  MatchesRoute m (some u) =
      (r : Fields Float64) × (lookup "route" m ≡ some (obj r)) × Holds r "name" u.name

  build_ref_of-IsBuildSource :
      (m : Fields Float64) (s : Source)
      → build_ref_of (as_map (lookup "buildRef" m)) ≡ ok s
      → IsBuildSource m s.image s.build_ref
  unfolding build_ref_of
  build_ref_of-IsBuildSource m s h = elim (Option-cases (as_map (lookup "buildRef" m))) [
    | inl absent ↦ cc (rw (absent, build_ref_of) at h)
    | inr (r, there) ↦
        let (name, name_ok, h) =
          bind-ok (labelled "buildRef.name" (must_string r "name")) _
            (rw (there, build_ref_of) at h) in
        subst (λ (s : Source). IsBuildSource m s.image s.build_ref) (ok-injective h)
          (record {
            no_image = refl;
            reference = r;
            found = as_map-obj (lookup "buildRef" m) there;
            build = record { name = name; namespace = optional_string r "namespace" };
            referenced = refl;
            named = must_string-Holds r "name" (labelled-ok _ _ name_ok);
            namespace = optional_string-Reads r "namespace";
          })
  ]

  route_ref_of-MatchesRoute :
      (m : Fields Float64) (u : Option ResolvedRouteRef)
      → route_ref_of (as_map (lookup "route" m)) ≡ ok u
      → MatchesRoute m u
  unfolding route_ref_of
  route_ref_of-MatchesRoute m u h = elim (Option-cases (as_map (lookup "route" m))) [
    | inl absent ↦ subst (MatchesRoute m) (ok-injective (rw (absent, route_ref_of) at h)) absent
    | inr (r, there) ↦
        let (name, name_ok, h) =
          bind-ok (labelled "route.name" (must_string r "name")) _
            (rw (there, route_ref_of) at h) in
        subst (MatchesRoute m) (ok-injective h) (
          r,
          as_map-obj (lookup "route" m) there,
          must_string-Holds r "name" (labelled-ok _ _ name_ok),
        )
  ]

module _ {Float64 Enum : Type 0} (types : UnitTypeEnum Float64 Enum) where
  -- The type that a contract declares, by one of the two spellings of its name or by its number.
  abbrev pub DeclaresType : Option (Json Float64) → Enum → Type 0
  DeclaresType o unit_type =
      ((o ≡ some (str "static")) ⊎ (o ≡ some (str "STATIC"))) × (unit_type ≡ types.static)
      ⊎ ((o ≡ some (str "build")) ⊎ (o ≡ some (str "BUILD"))) × (unit_type ≡ types.build)
      ⊎ ((o ≡ some (str "supplychain")) ⊎ (o ≡ some (str "SUPPLYCHAIN")))
        × (unit_type ≡ types.supplychain)
      ⊎ ((v : Float64) × (o ≡ some (num v)) × (unit_type ≡ types.of_float64 v))

  resolve_service_unit_type-DeclaresType :
      (o : Option (Json Float64)) (unit_type : Enum)
      → resolve_service_unit_type types o ≡ ok unit_type
      → DeclaresType o unit_type
  unfolding resolve_service_unit_type
  resolve_service_unit_type-DeclaresType (some (str v)) unit_type h = ground (
    arith,
    eq_iff v "static",
    eq_iff v "STATIC",
    eq_iff v "build",
    eq_iff v "BUILD",
    eq_iff v "supplychain",
    eq_iff v "SUPPLYCHAIN",
  )
  resolve_service_unit_type-DeclaresType (some (num v)) unit_type h =
      inr (inr (inr (v, refl, sym (ok-injective h))))
  resolve_service_unit_type-DeclaresType _ unit_type h = cc

  -- What each type of unit brings: an image that the contract declares, a reference to a Build and
  -- no image, or neither.
  abbrev pub Brings : Fields Float64 → Enum → String → Option ResolvedBuildRef → Type 0
  Brings m unit_type image build_ref =
      ((unit_type ≡ types.static) × Holds m "image" image × (build_ref ≡ none))
      ⊎ ((unit_type ≡ types.build) × IsBuildSource m image build_ref)
      ⊎ ((unit_type ≡ types.supplychain) × (image ≡ "") × (build_ref ≡ none))

  resolve_source-Brings :
      (unit_type : Enum) (m : Fields Float64) (s : Source)
      → resolve_source types unit_type m ≡ ok s
      → Brings m unit_type s.image s.build_ref
  unfolding resolve_source
  resolve_source-Brings unit_type m s h = elim (Bool-cases (types.same unit_type types.static)) [
    | inl same ↦
        let (image, image_ok, h) =
          bind-ok (labelled "image" (must_string m "image")) _ (rw same at h) in
        subst (λ (s : Source). Brings m unit_type s.image s.build_ref) (ok-injective h)
          (inl (
            (types.same_iff _ _).0 same,
            must_string-Holds m "image" (labelled-ok _ _ image_ok),
            refl,
          ))
    | inr other ↦ elim (Bool-cases (types.same unit_type types.build)) [
      | inl same ↦ inr (
          inl ((types.same_iff _ _).0 same, build_ref_of-IsBuildSource m s (rw (other, same) at h)))
      | inr neither ↦ elim (Bool-cases (types.same unit_type types.supplychain)) [
        | inl same ↦
            subst (λ (s : Source). Brings m unit_type s.image s.build_ref)
              (ok-injective (rw (other, neither, same) at h))
              (inr (inr ((types.same_iff _ _).0 same, refl, refl)))
        | inr unknown ↦ cc (rw (other, neither, unknown) at h)
      ]
    ]
  ]

module _ {Float64 Enum Int32 : Type 0} (types : UnitTypeEnum Float64 Enum)
    (ints : Int32Of Float64 Int32) where
  int32_cases :
      (o : Option (Json Float64))
      → ((v : Float64) × (o ≡ some (num v)) × (int32_value ints o ≡ ints.of_float64 v))
        ⊎ ((int32_value ints o ≡ ints.zero32) × ((v : Float64) → o ≢ some (num v)))
  unfolding int32_value
  int32_cases (some (num v)) = inl (v, refl, refl)
  int32_cases none = inr (refl, λ v h. cc)
  int32_cases _ = inr (refl, λ v h. cc)

  optional_int32-ReadsNumber :
      (m : Fields Float64) (key : String)
      → ReadsNumber ints.of_float64 ints.zero32 m key (optional_int32 ints m key)
  unfolding optional_int32
  optional_int32-ReadsNumber m key = int32_cases (lookup key m)

  pub record IsUnitOf (m : Fields Float64) (s : ResolvedServiceUnitSpec Enum Int32) : Type 0 where
    pub source : Brings types m s.unit_type s.image s.build_ref
    pub declared : DeclaresType types (lookup "type" m) s.unit_type
    pub route : MatchesRoute m s.route_ref
    pub port : ReadsNumber ints.of_float64 ints.zero32 m "containerPort" s.container_port
    pub size : ReadsNumber ints.of_float64 ints.zero32 m "size" s.size
    pub app_type : Reads m "appType" s.app_type
    pub stack_type : Reads m "stackType" s.stack_type
    pub no_pull_secret : s.image_pull_secret ≡ ""

  pub resolve_service_unit_spec-IsUnitOf :
      (m : Fields Float64) (s : ResolvedServiceUnitSpec Enum Int32)
      → resolve_service_unit_spec types ints m ≡ ok s
      → IsUnitOf m s
  unfolding resolve_service_unit_spec
  resolve_service_unit_spec-IsUnitOf m s h =
      let (unit_type, type_ok, h) =
        bind-ok (resolve_service_unit_type types (lookup "type" m)) _ h in
      let (source, source_ok, h) = bind-ok (resolve_source types unit_type m) _ h in
      let (route, route_ok, h) = bind-ok (route_ref_of (as_map (lookup "route" m))) _ h in
      subst (IsUnitOf m) (ok-injective h) (record {
        source = resolve_source-Brings types unit_type m source source_ok;
        declared = resolve_service_unit_type-DeclaresType types (lookup "type" m) unit_type type_ok;
        port = optional_int32-ReadsNumber m "containerPort";
        size = optional_int32-ReadsNumber m "size";
        app_type = optional_string-Reads m "appType";
        stack_type = optional_string-Reads m "stackType";
        route = route_ref_of-MatchesRoute m route route_ok;
        no_pull_secret = refl;
      })

  abbrev paired :
      {Object : Type 0}
      → Object
      → ResolvedServiceUnitSpec Enum Int32
      → ResolvedServiceUnit Object Enum Int32
  paired o s = record { service_unit = o; spec = some s }

  module _ {Object : Type 0} (raw : Object → List ℕ)
      (unmarshal : List ℕ → Result (Fields Float64)) where
    -- A resolved ServiceUnit keeps the object that was given and has a spec: its type is the one
    -- that the contract names or numbers, its port and size are the contract's numbers or zero, its
    -- app and stack type the contract's texts or empty. Its source is the one of its type: the
    -- declared image of a static unit, the named Build of a build unit with no image, nothing for a
    -- supply-chain unit. A route is referenced exactly if an object stands there.
    pub resolve_service_unit-IsUnitOf :
        (o : Option Object) (r : ResolvedServiceUnit Object Enum Int32)
        → resolve_service_unit types ints raw unmarshal o ≡ ok r
        → (s : ResolvedServiceUnitSpec Enum Int32) × (r.spec ≡ some s)
          × ComesFrom raw unmarshal o r.service_unit (λ m. IsUnitOf m s)
    unfolding resolve_service_unit
    resolve_service_unit-IsUnitOf o r h =
        let (p, m, s, given, carries, spec_ok, same) =
          decode_then-ok raw unmarshal _ _ o (resolve_service_unit_spec types ints) paired h in
        subst
          (λ (r : ResolvedServiceUnit Object Enum Int32).
            (s : ResolvedServiceUnitSpec Enum Int32) × (r.spec ≡ some s)
            × ComesFrom raw unmarshal o r.service_unit (λ m. IsUnitOf m s))
          same (s, refl, (given, (m, carries, resolve_service_unit_spec-IsUnitOf m s spec_ok)))
