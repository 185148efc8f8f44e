-- ===== src/Resolution/Contract/Laws.antt =====
-- When a contract decodes.
use environments.Common.{
  ◌>>=◌, bind-ok, ok-injective, ℕ, String, ◌≡◌, ◌≢◌, Option, none, some, List, [], Result, ok,
  arith,
}
use environments.Json.{Fields}
use environments.Resolution.Contract.{decode_contract}

module _ {Object Float64 : Type 0} (raw : Object → List ℕ)
    (unmarshal : List ℕ → Result (Fields Float64)) where
  -- The object carries a contract that is not empty and decodes to `m`.
  pub record Carries (o : Object) (m : Fields Float64) : Type 0 where
    pub present : raw o ≢ []
    pub decoded : unmarshal (raw o) ≡ ok m

  pub decode_contract-Carries :
      (n d : String) (o : Option Object) {p : Object} {m : Fields Float64}
      → decode_contract raw unmarshal n d o ≡ ok (p, m)
      → (o ≡ some p) × Carries p m
  unfolding decode_contract
  decode_contract-Carries n d none h = cc
  decode_contract-Carries n d (some o) h =
      (ground arith, record { present = ground arith; decoded = ground arith })

  pub decode_contract-ok :
      (n d : String) (o : Object) (m : Fields Float64)
      → Carries o m
      → decode_contract raw unmarshal n d (some o) ≡ ok (o, m)
  unfolding decode_contract
  decode_contract-ok n d o m c = rw c.decoded (ground (arith, c.present))

  -- The object `p` was given, and its contract means what is stated.
  abbrev pub ComesFrom : Option Object → Object → (Fields Float64 → Type 0) → Type 0
  ComesFrom o p Means = (o ≡ some p) × ((m : Fields Float64) × Carries p m × Means m)

  -- Every resolver decodes the contract, resolves a spec from the fields, and pairs it with the
  -- object: what its success says.
  pub decode_then-ok :
      {S R : Type 0} (n d : String) (o : Option Object) (f : Fields Float64 → Result S)
      (g : Object → S → R) {r : R}
      → (decode_contract raw unmarshal n d o >>= λ q. f q.1 >>= λ s. ok (g q.0 s)) ≡ ok r
      → (p : Object) × (m : Fields Float64) × (s : S) × (o ≡ some p)
        × Carries p m
        × (f m ≡ ok s)
        × (g p s ≡ r)
  decode_then-ok n d o f g h =
      let (q, decoded, h) = bind-ok (decode_contract raw unmarshal n d o) _ h in
      let (s, spec_ok, h) = bind-ok (f q.1) _ h in
      let (given, carries) = decode_contract-Carries n d o {p = q.0} {m = q.1} decoded in
      (q.0, q.1, s, given, carries, spec_ok, ok-injective h)
