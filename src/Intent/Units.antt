-- ===== src/Intent/Units.antt =====
-- What a plan says of each unit, against the resolved ServiceUnit that it is made from.
use environments.Common.{
  String, ◌≡◌, refl, Option, none, some, List, [], ◌∷◌, ok, bind-ok, ok-injective, arith, subst,
  Result, err,
}
use environments.Resolution.ServiceUnit.{UnitTypeEnum, ResolvedServiceUnitSpec, ResolvedServiceUnit}
use environments.Intent.{
  ServiceUnitIntent, intent_of_spec, intent_of, resolve_service_unit_intent, named_unit,
  unit_intents,
}

pub named_unit-ok :
    {A : Type 0} (name : String) (r : Result A) {a : A} → named_unit name r ≡ ok a → r ≡ ok a
unfolding named_unit
named_unit-ok name (ok i) h = h
named_unit-ok name (err e) h = cc

-- The unit has the name, and the image, pull secret, port and size of the spec.
pub record KeepsSpec {Enum Int32 : Type 0} (name : String) (s : ResolvedServiceUnitSpec Enum Int32)
    (i : ServiceUnitIntent Int32) : Type 0 where
  pub same_name : i.name ≡ name
  pub image : i.image ≡ s.image
  pub image_pull_secret : i.image_pull_secret ≡ s.image_pull_secret
  pub port : i.port ≡ s.container_port
  pub size : i.size ≡ s.size

module _ {Float64 Enum Int32 : Type 0} (types : UnitTypeEnum Float64 Enum) where
  intent_of_spec-KeepsSpec :
      (name : String) (s : ResolvedServiceUnitSpec Enum Int32) (i : ServiceUnitIntent Int32)
      → intent_of_spec types name s ≡ ok i
      → KeepsSpec name s i
  unfolding intent_of_spec
  intent_of_spec-KeepsSpec name s i h = record {
    same_name = ground arith;
    image = ground arith;
    image_pull_secret = ground arith;
    port = ground arith;
    size = ground arith;
  }

module _ {Object Float64 Enum Int32 : Type 0} (types : UnitTypeEnum Float64 Enum)
    (name_of : Object → String) where
  -- Unit by unit, in order, the plan keeps the spec of the resolved ServiceUnit.
  abbrev pub KeepUnits :
      List (ResolvedServiceUnit Object Enum Int32) → List (ServiceUnitIntent Int32) → Type 0
  KeepUnits [] [] = Unit
  KeepUnits (su ∷ sus) (i ∷ is) =
      ((s : ResolvedServiceUnitSpec Enum Int32) × (su.spec ≡ some s)
        × KeepsSpec (name_of su.service_unit) s i)
      × KeepUnits sus is
  KeepUnits _ _ = ⊥

  intent_of-KeepsSpec :
      (o : Object) (s : Option (ResolvedServiceUnitSpec Enum Int32)) (i : ServiceUnitIntent Int32)
      → intent_of types name_of o s ≡ ok i
      → (spec : ResolvedServiceUnitSpec Enum Int32) × (s ≡ some spec) × KeepsSpec (name_of o) spec i
  unfolding intent_of
  intent_of-KeepsSpec o none i h = cc
  intent_of-KeepsSpec o (some s) i h = (s, refl, intent_of_spec-KeepsSpec types (name_of o) s i h)

  pub unit_intents-KeepUnits :
      (sus : List (ResolvedServiceUnit Object Enum Int32)) (is : List (ServiceUnitIntent Int32))
      → unit_intents types name_of sus ≡ ok is
      → KeepUnits sus is
  unfolding unit_intents resolve_service_unit_intent
  unit_intents-KeepUnits [] is h = subst (KeepUnits []) (ok-injective h) tt
  unit_intents-KeepUnits (su ∷ sus) is h =
      let (i, i_ok, h) =
        bind-ok
          (named_unit (name_of su.service_unit)
            (resolve_service_unit_intent types name_of (some su)))
          _ h in
      let (later, later_ok, h) = bind-ok (unit_intents types name_of sus) _ h in
      subst (KeepUnits (su ∷ sus)) (ok-injective h) (
        intent_of-KeepsSpec su.service_unit su.spec i (named_unit-ok _ _ i_ok),
        unit_intents-KeepUnits sus later later_ok,
      )
