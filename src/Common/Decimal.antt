-- ===== src/Common/Decimal.antt =====
-- fmt's %d of a number that is not negative.
use Prim.Native.Nat.{ℕ, zero, suc, ◌+◌, ◌-◌, ◌*◌, ◌/◌, ◌%◌, ◌<◌, ◌≤◌}
use Prim.Native.Char.{Char, code}
use Prim.Native.String.append
use Prim.Native.String.{String, [], ◌∷◌, ◌++◌, slice}
use mathlib.Core.Path.{◌≡◌, refl, ap, ◌∙◌, sym}
use mathlib.Core.Logic.{inl, inr}
use mathlib.Core.Bool.{false}
use native.Mathlib.Omega.{arith}
use environments.Common.Tests.{ltb, if◌then◌else◌, Bool-cases}
use environments.Common.Texts.{has_char, has_char-append}

digit : ℕ → String
digit d = slice "0123456789" d (suc d)

-- the fuel is at least the number
digits : ℕ → ℕ → String
unfolding digit
digits zero n = digit n
digits (suc k) n = if ltb n 10 then digit n else digits k (n / 10) ++ digit (n % 10)

unfoldable pub decimal : ℕ → String
unfolding digits
decimal n = digits n n

-- the number that a text of digits writes, behind the digits of `a`
value_from : ℕ → String → ℕ
value_from a [] = a
value_from a (c ∷ s) = value_from (a * 10 + (code c - 48)) s

value_from-append : (s t : String) (a : ℕ) → value_from a (s ++ t) ≡ value_from (value_from a s) t
unfolding value_from
value_from-append [] t a = ap (value_from a) (append.nil t)
value_from-append (c ∷ s) t a = ap (value_from a) (append.cons c s t) ∙ value_from-append s t _

-- What holds of the ten digits holds of every number below ten.
below_ten {ℓ} :
    (P : ℕ → Type ℓ)
    → P 0 × P 1 × P 2 × P 3 × P 4 × P 5 × P 6 × P 7 × P 8 × P 9
    → (d : ℕ) → d < 10
    → P d
below_ten P (a, b, c, d, e, f, g, h, i, j) zero lt = a
below_ten P (a, b, c, d, e, f, g, h, i, j) (suc zero) lt = b
below_ten P (a, b, c, d, e, f, g, h, i, j) (suc (suc zero)) lt = c
below_ten P (a, b, c, d, e, f, g, h, i, j) (suc (suc (suc zero))) lt = d
below_ten P (a, b, c, d, e, f, g, h, i, j) (suc (suc (suc (suc zero)))) lt = e
below_ten P (a, b, c, d, e, f, g, h, i, j) (suc (suc (suc (suc (suc zero))))) lt = f
below_ten P (a, b, c, d, e, f, g, h, i, j) (suc (suc (suc (suc (suc (suc zero)))))) lt = g
below_ten P (a, b, c, d, e, f, g, h, i, j) (suc (suc (suc (suc (suc (suc (suc zero))))))) lt = h
below_ten P (a, b, c, d, e, f, g, h, i, j) (suc (suc (suc (suc (suc (suc (suc (suc zero)))))))) lt =
    i
below_ten P (a, b, c, d, e, f, g, h, i, j)
      (suc (suc (suc (suc (suc (suc (suc (suc (suc zero))))))))) lt =
    j
below_ten P all (suc (suc (suc (suc (suc (suc (suc (suc (suc (suc d)))))))))) lt =
    absurd (omega (arith, lt))

-- A digit is one character, and no colon.
digit_lem :
    (d : ℕ)
    → d < 10
    → (c : Char) × (digit d ≡ c ∷ []) × (code c ≡ 48 + d) × (has_char ":" (digit d) ≡ false)
unfolding digit has_char
digit_lem =
    below_ten
      (λ d. (c : Char) × (digit d ≡ c ∷ []) × (code c ≡ 48 + d) × (has_char ":" (digit d) ≡ false))
      (
        ("0", refl, refl, refl),
        ("1", refl, refl, refl),
        ("2", refl, refl, refl),
        ("3", refl, refl, refl),
        ("4", refl, refl, refl),
        ("5", refl, refl, refl),
        ("6", refl, refl, refl),
        ("7", refl, refl, refl),
        ("8", refl, refl, refl),
        ("9", refl, refl, refl),
      )

value_from-digit : (a d : ℕ) → d < 10 → value_from a (digit d) ≡ a * 10 + d
unfolding value_from
value_from-digit a d lt =
    let (c, one, coded, _) = digit_lem d lt in ap (value_from a) one ∙ omega (arith, coded)

value_from-digits : (k n : ℕ) → n ≤ k → value_from 0 (digits k n) ≡ n
unfolding digits
value_from-digits zero n le = value_from-digit 0 n (omega (arith, le)) ∙ omega arith
value_from-digits (suc k) n le = elim (Bool-cases (ltb n 10)) [
  | inl small ↦ rw small (value_from-digit 0 n (ground arith) ∙ omega arith)
  | inr large ↦ rw large (
      value_from-append (digits k (n / 10)) (digit (n % 10)) 0
      ∙ value_from-digit _ (n % 10) (omega arith)
      ∙ ap (λ x. x * 10 + n % 10) (value_from-digits k (n / 10) (ground arith))
      ∙ omega arith)
]

digits-clear : (k n : ℕ) → n ≤ k → has_char ":" (digits k n) ≡ false
unfolding digits
digits-clear zero n le = (digit_lem n (omega (arith, le))).3
digits-clear (suc k) n le = elim (Bool-cases (ltb n 10)) [
  | inl small ↦ rw small (digit_lem n (ground arith)).3
  | inr large ↦ rw large (
      has_char-append ":" (digits k (n / 10)) (digit (n % 10))
        (digits-clear k (n / 10) (ground arith)) (digit_lem (n % 10) (omega arith)).3)
]

-- Different numbers print differently.
pub decimal-injective : (m n : ℕ) → decimal m ≡ decimal n → m ≡ n
unfolding decimal
decimal-injective m n h =
    sym (value_from-digits m m (omega arith))
    ∙ ap (value_from 0) h
    ∙ value_from-digits n n (omega arith)

pub decimal-clear : (n : ℕ) → has_char ":" (decimal n) ≡ false
unfolding decimal
decimal-clear n = digits-clear n n (omega arith)
