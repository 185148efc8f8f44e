-- ===== src/Json.antt =====
-- The decoded form of a contract, Go's `map[string]any` as encoding/json fills it, and the
-- extraction helpers that every resolution package declares for itself with the same body
-- (mustString, requireString, requiredString, optionalString, optionalBool, requiredMap).
pub mod Laws
use environments.Common.{
  String, Bool, true, false, Option, none, some, List, [], ◌∷◌, ◌==◌, if◌then◌else◌, Result, ok,
  err, errorf_of,
}

-- `num` holds a float64, whose type is the parameter.
mutual
  pub data Json (Float64 : Type 0) : Type 0 where
    null : Json Float64
    bool : Bool → Json Float64
    num : Float64 → Json Float64
    str : String → Json Float64
    arr : Items Float64 → Json Float64
    obj : Fields Float64 → Json Float64

  pub data Items (Float64 : Type 0) : Type 0 where
    nil : Items Float64
    cons : Json Float64 → Items Float64 → Items Float64

  pub data Fields (Float64 : Type 0) : Type 0 where
    end : Fields Float64
    field : String → Json Float64 → Fields Float64 → Fields Float64

non_empty : String → Option String → Result String
non_empty key none = err (errorf_of "field must be a non-empty string" key)
non_empty key (some s) =
    if s == "" then err (errorf_of "field must be a non-empty string" key) else ok s

abbrev pub string_or_empty : Option String → String
string_or_empty none = ""
string_or_empty (some s) = s

abbrev bool_or : Bool → Option Bool → Bool
bool_or fallback none = fallback
bool_or fallback (some b) = b

-- A Go map holds a key once; of an association list the first entry counts.
module _ {Float64 : Type 0} where
  unfoldable pub lookup : String → Fields Float64 → Option (Json Float64)
  lookup key end = none
  lookup key (field k v rest) = if k == key then some v else lookup key rest

  abbrev pub items : Items Float64 → List (Json Float64)
  items nil = []
  items (cons v vs) = v ∷ items vs

  -- The type assertions `v.(string)`, `v.(bool)`, `v.(map[string]any)`, `v.([]any)` on `m[key]`,
  -- which fail on a missing key too.
  abbrev pub as_string : Option (Json Float64) → Option String
  as_string (some (str s)) = some s
  as_string _ = none

  abbrev pub as_bool : Option (Json Float64) → Option Bool
  as_bool (some (bool b)) = some b
  as_bool _ = none

  abbrev pub as_map : Option (Json Float64) → Option (Fields Float64)
  as_map (some (obj m)) = some m
  as_map _ = none

  abbrev pub as_list : Option (Json Float64) → Option (List (Json Float64))
  as_list (some (arr vs)) = some (items vs)
  as_list _ = none

  -- `_, declared := m[key]`
  abbrev pub is_declared : Option (Json Float64) → Bool
  is_declared none = false
  is_declared (some v) = true

  present_string : String → Option (Json Float64) → Result String
  unfolding non_empty
  present_string key none = err (errorf_of "missing required field" key)
  present_string key (some v) = non_empty key (as_string (some v))

  unfoldable pub must_string : Fields Float64 → String → Result String
  unfolding present_string
  must_string m key = present_string key (lookup key m)

  unfoldable pub optional_string : Fields Float64 → String → String
  optional_string m key = string_or_empty (as_string (lookup key m))

  -- `optionalBool(m, key, def)`; in the packages that take no default it is false
  unfoldable pub optional_bool : Fields Float64 → String → Bool → Bool
  optional_bool m key fallback = bool_or fallback (as_bool (lookup key m))

  present_map : String → Option (Json Float64) → Result (Fields Float64)
  present_map key none = err (errorf_of "missing required object" key)
  present_map key (some (obj m)) = ok m
  present_map key _ = err (errorf_of "field must be an object" key)

  unfoldable pub required_map : Fields Float64 → String → Result (Fields Float64)
  unfolding present_map
  required_map m key = present_map key (lookup key m)
