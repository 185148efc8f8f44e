-- ===== src/Resolution/Contract.antt =====
-- How every resolution begins (resolution/*/resolve/resolve.go): a nil object and an empty contract
-- are refused, and encoding/json decodes the rest. The object's type and `json.Unmarshal` are not
-- part of the repository: they are parameters.
pub mod Laws
use environments.Common.{
  ℕ, String, Bool, true, false, Option, none, some, List, [], ◌∷◌, if◌then◌else◌, Result, ok, err,
  errorf, labelled, ◌>>=◌,
}
use environments.Json.{Fields}

abbrev pub is_empty : List ℕ → Bool
is_empty [] = true
is_empty (b ∷ bs) = false

module _ {Object Float64 : Type 0} (raw : Object → List ℕ)
    (unmarshal : List ℕ → Result (Fields Float64)) where
  -- the first text is the error for a nil object, the second labels an error of the decoder
  unfoldable pub decode_contract :
      String → String → Option Object → Result (Object × Fields Float64)
  decode_contract nil_text decode_text none = err (errorf nil_text)
  decode_contract nil_text decode_text (some o) =
      if is_empty (raw o)
      then err (errorf "spec.contract is required")
      else do m ← labelled decode_text (unmarshal (raw o)); ok (o, m)
