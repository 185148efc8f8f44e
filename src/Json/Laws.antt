-- ===== src/Json/Laws.antt =====
-- What a successful extraction says about the contract, stated without the helpers.
use environments.Common.{
  String, ◌≡◌, refl, sym, ◌∙◌, ◌≢◌, ◌↔◌, ◌⊎◌, inl, inr, true, false, Option, none, some, arith,
  eq_iff, ok,
}
use environments.Json.{
  obj, num, as_map, as_string, string_or_empty, Json, bool, str, Fields, lookup, must_string,
  optional_string, optional_bool, present_string, present_map, required_map,
}

module _ {Float64 : Type 0} where
  -- The contract holds the non-empty text `s` under `key`.
  pub record Holds (m : Fields Float64) (key s : String) : Type 0 where
    pub found : lookup key m ≡ some (str s)
    pub filled : s ≢ ""

  present_string-Holds :
      (key s : String) (o : Option (Json Float64))
      → present_string key o ≡ ok s
      → (o ≡ some (str s)) × (s ≢ "")
  unfolding present_string
  present_string-Holds key s (some (str t)) h = ground (arith, eq_iff t "")
  present_string-Holds key s none h = cc
  present_string-Holds key s _ h = cc

  pub must_string-Holds :
      (m : Fields Float64) (key : String) {s : String} → must_string m key ≡ ok s → Holds m key s
  unfolding must_string
  must_string-Holds m key {s} h =
      let (found, filled) = present_string-Holds key s (lookup key m) h in
      record { found = found; filled = filled }

  pub must_string-ok :
      (m : Fields Float64) (key s : String) → Holds m key s → must_string m key ≡ ok s
  unfolding must_string
  must_string-ok m key s h = rw h.found (ground (arith, eq_iff s "", h.filled))

  pub lookup-optional_string :
      (m : Fields Float64) (key s : String)
      → lookup key m ≡ some (str s)
      → optional_string m key ≡ s
  unfolding optional_string
  lookup-optional_string m key s h = rw h

  -- A text that is optional reads as "" exactly if the contract holds no other text there.
  pub optional_string-Holds :
      (m : Fields Float64) (key : String)
      → optional_string m key ≢ ""
      → Holds m key (optional_string m key)
  unfolding optional_string
  optional_string-Holds m key h = record { found = ground arith; filled = h }

  -- The text under the key, or the empty one where no text stands.
  abbrev pub Reads : Fields Float64 → String → String → Type 0
  Reads m key s =
      (lookup key m ≡ some (str s)) ⊎ ((s ≡ "") × ((t : String) → lookup key m ≢ some (str t)))

  text_cases :
      (o : Option (Json Float64))
      → (o ≡ some (str (string_or_empty (as_string o))))
        ⊎ ((string_or_empty (as_string o) ≡ "") × ((t : String) → o ≢ some (str t)))
  text_cases (some (str s)) = inl refl
  text_cases none = inr (refl, λ t h. cc)
  text_cases _ = inr (refl, λ t h. cc)

  pub optional_string-Reads :
      (m : Fields Float64) (key : String) → Reads m key (optional_string m key)
  unfolding optional_string
  optional_string-Reads m key = text_cases (lookup key m)

  -- The non-empty text under the key, or the fallback where none stands.
  abbrev pub Defaults : Fields Float64 → String → String → String → Type 0
  Defaults m key fallback s = Holds m key s ⊎ ((s ≡ fallback) × ((t : String) → Holds m key t → ⊥))

  pub optional_string-unfilled :
      (m : Fields Float64) (key : String)
      → optional_string m key ≡ ""
      → (t : String) → Holds m key t
      → ⊥
  optional_string-unfilled m key empty t h =
      h.filled (sym (lookup-optional_string m key t h.found) ∙ empty)

  -- The number under the key, converted, or zero where no number stands.
  abbrev pub ReadsNumber : {N : Type 0} → (Float64 → N) → N → Fields Float64 → String → N → Type 0
  ReadsNumber convert zero m key n =
      ((v : Float64) × (lookup key m ≡ some (num v)) × (n ≡ convert v))
      ⊎ ((n ≡ zero) × ((v : Float64) → lookup key m ≢ some (num v)))

  -- A flag that is on by default is off only on an explicit false.
  pub optional_bool-false_iff :
      (m : Fields Float64) (key : String)
      → (optional_bool m key true ≡ false) ↔ (lookup key m ≡ some (bool false))
  unfolding optional_bool
  optional_bool-false_iff m key = (λ h. ground arith, λ h. ground arith)

  -- A flag that is off by default is on only on an explicit true.
  pub optional_bool-true_iff :
      (m : Fields Float64) (key : String)
      → (optional_bool m key false ≡ true) ↔ (lookup key m ≡ some (bool true))
  unfolding optional_bool
  optional_bool-true_iff m key = (λ h. ground arith, λ h. ground arith)

  pub as_map-obj :
      (o : Option (Json Float64)) {r : Fields Float64} → as_map o ≡ some r → o ≡ some (obj r)
  as_map-obj (some (obj m)) h = cc
  as_map-obj none h = cc
  as_map-obj _ h = cc

  present_map-obj :
      (key : String) (o : Option (Json Float64)) {r : Fields Float64}
      → present_map key o ≡ ok r
      → o ≡ some (obj r)
  unfolding present_map
  present_map-obj key (some (obj m)) h = ground arith
  present_map-obj key none h = cc
  present_map-obj key _ h = cc

  pub required_map-obj :
      (m : Fields Float64) (key : String) {r : Fields Float64}
      → required_map m key ≡ ok r
      → lookup key m ≡ some (obj r)
  unfolding required_map
  required_map-obj m key = present_map-obj key (lookup key m)
