-- ===== src/Common/Results.antt =====
-- Go's `(value, error)` results. An error keeps the format and the arguments that it is made from.
use Prim.Native.Nat.{ℕ}
use Prim.Native.String.{String}
use mathlib.Core.Path.{◌≡◌, refl}
use mathlib.Core.Logic.{◌⊎◌, inl, inr}

pub data Error : Type 0 where
  -- errors.New, or fmt.Errorf with no argument
  errorf : String → Error
  -- fmt.Errorf with one text argument
  errorf_of : String → String → Error
  -- fmt.Errorf about an entry of a list, "field[index] text"
  errorf_at : String → ℕ → String → Error
  -- fmt.Errorf("label: %w", err)
  wrap : String → Error → Error
  -- fmt.Errorf("label %s: %w", name, err)
  wrap_of : String → String → Error → Error
  wrap_at : String → ℕ → String → Error → Error

pub data Result {ℓ} (A : Type ℓ) : Type ℓ where
  ok : A → Result A
  err : Error → Result A

infixl 5 ◌>>=◌
abbrev pub ◌>>=◌ {ℓ κ} : {A : Type ℓ} {B : Type κ} → Result A → (A → Result B) → Result B
ok a >>= f = f a
err e >>= f = err e

-- `if err != nil { return fmt.Errorf("label: %w", err) }`
abbrev pub labelled {ℓ} : {A : Type ℓ} → String → Result A → Result A
labelled label (ok a) = ok a
labelled label (err e) = err (wrap label e)

pub Result-cases {ℓ} :
    {A : Type ℓ} (r : Result A) → ((a : A) × (r ≡ ok a)) ⊎ ((e : Error) × (r ≡ err e))
Result-cases (ok a) = inl (a, refl)
Result-cases (err e) = inr (e, refl)

-- A chain that succeeds: what its first step returned, and the success of the rest.
pub bind-ok {ℓ κ} :
    {A : Type ℓ} {B : Type κ} (first : Result A) (rest : A → Result B) {last : B}
    → first >>= rest ≡ ok last
    → (value : A) × (first ≡ ok value) × (rest value ≡ ok last)
bind-ok (ok value) rest h = (value, refl, h)
bind-ok (err e) rest h = cc

pub labelled-ok {ℓ} :
    {A : Type ℓ} (label : String) (r : Result A) {a : A} → labelled label r ≡ ok a → r ≡ ok a
labelled-ok label (ok a) h = h
labelled-ok label (err e) h = cc

pub ok-injective {ℓ} : {A : Type ℓ} {a b : A} → ◌≡◌ {A = Result A} (ok a) (ok b) → a ≡ b
ok-injective h = cc
