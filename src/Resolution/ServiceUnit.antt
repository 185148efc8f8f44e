-- ===== src/Resolution/ServiceUnit.antt =====
-- resolution/serviceunit/resolve/resolve.go. The generated enum of unit types and Go's int32 are not
-- part of the repository: parameters give the constants and the conversions from float64.
pub mod Laws
mod Examples
use environments.Common.{
  ℕ, String, ◌≡◌, ◌≢◌, ◌↔◌, Bool, true, ◌||◌, Option, none, some, List, ◌==◌, if◌then◌else◌, Result,
  ok, err, errorf, errorf_of, labelled, ◌>>=◌,
}
use environments.Json.{Json, str, num, Fields, lookup, as_map, must_string, optional_string}
use environments.Resolution.Contract.{decode_contract}

-- blanketops/common/v1 ServiceUnitType
pub record UnitTypeEnum (Float64 Enum : Type 0) : Type 0 where
  pub same : Enum → Enum → Bool
  pub same_iff : (a b : Enum) → (same a b ≡ true) ↔ (a ≡ b)
  pub of_float64 : Float64 → Enum
  pub static : Enum
  pub build : Enum
  pub supplychain : Enum
  pub static_build : static ≢ build
  pub static_supplychain : static ≢ supplychain
  pub build_supplychain : build ≢ supplychain

pub record Int32Of (Float64 Int32 : Type 0) : Type 0 where
  pub zero32 : Int32
  pub of_float64 : Float64 → Int32

pub record ResolvedBuildRef : Type 0 where
  pub name : String
  pub namespace : String

pub record ResolvedRouteRef : Type 0 where
  pub name : String

pub record ResolvedServiceUnitSpec (Enum Int32 : Type 0) : Type 0 where
  pub unit_type : Enum
  pub image : String
  pub image_pull_secret : String
  pub build_ref : Option ResolvedBuildRef
  pub container_port : Int32
  pub size : Int32
  pub app_type : String
  pub stack_type : String
  pub route_ref : Option ResolvedRouteRef

pub record ResolvedServiceUnit (Object Enum Int32 : Type 0) : Type 0 where
  pub service_unit : Object
  pub spec : Option (ResolvedServiceUnitSpec Enum Int32)

-- what the switch on the type fills in
pub record Source : Type 0 where
  pub image : String
  pub build_ref : Option ResolvedBuildRef

module _ {Float64 Int32 : Type 0} (ints : Int32Of Float64 Int32) where
  int32_value : Option (Json Float64) → Int32
  int32_value (some (num v)) = ints.of_float64 v
  int32_value _ = ints.zero32

  unfoldable pub optional_int32 : Fields Float64 → String → Int32
  unfolding int32_value
  optional_int32 m key = int32_value (lookup key m)

module _ {Float64 : Type 0} where
  build_ref_of : Option (Fields Float64) → Result Source
  build_ref_of none = err (errorf "buildRef is required when type is BUILD")
  build_ref_of (some r) = do
    name ← labelled "buildRef.name" (must_string r "name")
    ok (record {
      image = "";
      build_ref = some (record { name = name; namespace = optional_string r "namespace" });
    })

  route_ref_of : Option (Fields Float64) → Result (Option ResolvedRouteRef)
  route_ref_of none = ok none
  route_ref_of (some r) = do
    name ← labelled "route.name" (must_string r "name")
    ok (some (record { name = name }))

module _ {Float64 Enum : Type 0} (types : UnitTypeEnum Float64 Enum) where
  unfoldable pub resolve_service_unit_type : Option (Json Float64) → Result Enum
  resolve_service_unit_type (some (str v)) =
      if v == "static" || v == "STATIC"
      then ok types.static
      else if v == "build" || v == "BUILD"
      then ok types.build
      else if v == "supplychain" || v == "SUPPLYCHAIN"
      then ok types.supplychain
      else err (errorf_of "unsupported serviceunit.type" v)
  resolve_service_unit_type (some (num v)) = ok (types.of_float64 v)
  resolve_service_unit_type _ = err (errorf "serviceunit.type is required")

  unfoldable pub resolve_source : Enum → Fields Float64 → Result Source
  unfolding build_ref_of
  resolve_source unit_type m =
      if types.same unit_type types.static
      then (do
        image ← labelled "image" (must_string m "image")
        ok (record { image = image; build_ref = none }))
      else if types.same unit_type types.build
      then build_ref_of (as_map (lookup "buildRef" m))
      else if types.same unit_type types.supplychain
      then ok (record { image = ""; build_ref = none })
      else err (errorf "unsupported serviceunit.type")

module _ {Float64 Enum Int32 : Type 0} (types : UnitTypeEnum Float64 Enum)
    (ints : Int32Of Float64 Int32) where
  unfoldable pub resolve_service_unit_spec :
      Fields Float64 → Result (ResolvedServiceUnitSpec Enum Int32)
  unfolding route_ref_of
  resolve_service_unit_spec m = do
    unit_type ← resolve_service_unit_type types (lookup "type" m)
    source ← resolve_source types unit_type m
    route_ref ← route_ref_of (as_map (lookup "route" m))
    ok (record {
      unit_type = unit_type;
      image = source.image;
      image_pull_secret = "";
      build_ref = source.build_ref;
      container_port = optional_int32 ints m "containerPort";
      size = optional_int32 ints m "size";
      app_type = optional_string m "appType";
      stack_type = optional_string m "stackType";
      route_ref = route_ref;
    })

  module _ {Object : Type 0} (raw : Object → List ℕ)
      (unmarshal : List ℕ → Result (Fields Float64)) where
    pub resolve_service_unit : Option Object → Result (ResolvedServiceUnit Object Enum Int32)
    resolve_service_unit o = do
      (su, m) ← decode_contract raw unmarshal "serviceunit is nil" "failed to decode raw contract" o
      spec ← resolve_service_unit_spec m
      ok (record { service_unit = su; spec = some spec })
