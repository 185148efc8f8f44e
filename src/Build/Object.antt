-- ===== src/Build/Object.antt =====
-- What is read and written of a Build resource, and Go's map[string]string.
use environments.Common.{String, Option, none, some, List, [], ◌∷◌, ◌==◌, if◌then◌else◌}

abbrev pub StringMap : Type 0
StringMap = List (String × String)

-- m[key], "" for a missing key and for a nil map
unfoldable pub value_at : StringMap → String → String
value_at [] key = ""
value_at ((k, v) ∷ m) key = if k == key then v else value_at m key

-- m[key] = value
unfoldable pub put : StringMap → String → String → StringMap
put [] key value = (key, value) ∷ []
put ((k, v) ∷ m) key value = if k == key then (k, value) ∷ m else (k, v) ∷ put m key value

-- `uid` stands for what an owner reference takes from the object
pub record BuildObject : Type 0 where
  pub name : String
  pub namespace : String
  pub uid : String
  pub labels : StringMap
  pub annotations : Option StringMap

-- build.Annotations[key], which may be a nil map
unfoldable pub annotation : BuildObject → String → String
annotation b key = elim b.annotations [ none ↦ "" | some m ↦ value_at m key ]

-- the map, made if it is nil
abbrev pub made : Option StringMap → StringMap
made none = []
made (some m) = m
