-- ===== src/Core/Predicates.antt =====
-- core/predicates/predicates.go. The nine kinds are generated types outside the repository: of an
-- object the model keeps its kind, its annotations and its spec, and `reflect.DeepEqual` on specs is
-- a parameter.
pub mod Laws
mod Examples
use environments.Common.{
  String, ◌≡◌, ◌↔◌, Bool, true, false, Option, none, some, List, [], ◌∷◌, ◌==◌, ◌&&◌, not,
  if◌then◌else◌,
}

pub data CrKind : Type 0 where
  build deployment git_hub_event git_repository environment : CrKind
  packages service_unit route domain : CrKind
  -- a kind that the type switch does not name
  unknown : CrKind

abbrev pub same_kind : CrKind → CrKind → Bool
same_kind build build = true
same_kind deployment deployment = true
same_kind git_hub_event git_hub_event = true
same_kind git_repository git_repository = true
same_kind environment environment = true
same_kind packages packages = true
same_kind service_unit service_unit = true
same_kind route route = true
same_kind domain domain = true
same_kind unknown unknown = true
same_kind _ _ = false

pub record Object (Spec : Type 0) : Type 0 where
  pub kind : CrKind
  pub annotations : List (String × String)
  pub spec : Spec

abbrev pub retry_annotation : String
retry_annotation = "build.blanketops.dev/retry-attempt"

-- `m[key]` of a map of texts: empty when the key is missing
pub annotation : String → List (String × String) → String
annotation key [] = ""
annotation key ((k, v) ∷ rest) = if k == key then v else annotation key rest

-- controller-runtime's events
pub data Event (Spec : Type 0) : Type 0 where
  created deleted generic : Object Spec → Event Spec
  updated : Object Spec → Object Spec → Event Spec

module _ {Spec : Type 0} (deep_equal : Spec → Spec → Bool) where
  -- The second object has the kind of the first when this is asked.
  changed : CrKind → Object Spec → Object Spec → Bool
  changed build old new =
      not
        (annotation retry_annotation old.annotations == annotation retry_annotation new.annotations)
  changed unknown old new = true
  changed _ old new = not (deep_equal old.spec new.spec)

  pub meaningful_change : Event Spec → Bool
  unfolding changed
  meaningful_change (updated old new) =
      if not (same_kind old.kind new.kind) then true else changed old.kind old new
  meaningful_change _ = true
