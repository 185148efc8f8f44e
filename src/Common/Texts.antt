-- ===== src/Common/Texts.antt =====
-- Go's strings by their characters: strings.Contains, and the text before a separator.
use Prim.Native.Char.{Char, code}
use Prim.Native.String.append
use Prim.Native.String.{String, [], ◌∷◌, ◌++◌}
use text.Mathlib.TextLemmas.{tail-eq_of_cons-eq, append_cancel_left}
use mathlib.Core.Path.{◌≡◌, refl, sym, ap, ◌∙◌, subst}
use mathlib.Core.Logic.{inl, inr}
use mathlib.Core.Bool.{Bool, true, false}
use mathlib.Core.Option.{Option, none, some}
use text.Mathlib.Text.{find?}
use environments.Common.Tests.{same_number, if◌then◌else◌, Bool-cases, Option-cases}

pub some-injective {ℓ} : {A : Type ℓ} {a b : A} → ◌≡◌ {A = Option A} (some a) (some b) → a ≡ b
some-injective h = cc

-- Go's `+` on strings
infixr 65 ◌^◌
abbrev pub ◌^◌ : String → String → String
s ^ t = s ++ t

abbrev pub is_some {ℓ} : {A : Type ℓ} → Option A → Bool
is_some none = false
is_some (some a) = true

abbrev pub contains : String → String → Bool
contains s t = is_some (find? s t)

abbrev pub same_char : Char → Char → Bool
same_char c d = same_number (code c) (code d)

unfoldable pub has_char : Char → String → Bool
has_char d [] = false
has_char d (c ∷ s) = if same_char c d then true else has_char d s

-- the text before the separator, by whether the first character is one and by the cut of the rest
abbrev first_cut : Bool → Char → Option String → Option String
first_cut true c rest = some []
first_cut false c none = none
first_cut false c (some p) = some (c ∷ p)

abbrev last_cut : Bool → Char → Option String → Option String
last_cut stop c (some p) = some (c ∷ p)
last_cut true c none = some []
last_cut false c none = none

-- s[:strings.Index(s, d)], where the index is not -1
unfoldable pub before_first : Char → String → Option String
before_first d [] = none
before_first d (c ∷ s) = first_cut (same_char c d) c (before_first d s)

-- s[:strings.LastIndex(s, d)], where the index is not -1
unfoldable pub before_last : Char → String → Option String
before_last d [] = none
before_last d (c ∷ s) = last_cut (same_char c d) c (before_last d s)

pub before_last-none : (d : Char) (s : String) → has_char d s ≡ false → before_last d s ≡ none
unfolding has_char before_last
before_last-none d [] h = refl
before_last-none d (c ∷ s) h = elim (Bool-cases (same_char c d)) [
  | inl same ↦ cc (rw same at h)
  | inr other ↦ rw (before_last-none d s (rw other at h), other) refl
]

-- The last separator is the one that no other follows.
pub before_last-append :
    (d : Char) (s t : String)
    → has_char d t ≡ false
    → same_char d d ≡ true
    → before_last d (s ++ (d ∷ t)) ≡ some s
unfolding before_last
before_last-append d [] t h same =
    ap (before_last d) (append.nil (d ∷ t))
    ∙ ap (last_cut (same_char d d) d) (before_last-none d t h)
    ∙ ap (λ b. last_cut b d none) same
before_last-append d (c ∷ s) t h same =
    ap (before_last d) (append.cons c s (d ∷ t))
    ∙ ap (last_cut (same_char c d) c) (before_last-append d s t h same)

-- What stands before the first separator has none of its own.
pub before_first-clear :
    (d : Char) (s p : String) → before_first d s ≡ some p → has_char d p ≡ false
unfolding before_first has_char
before_first-clear d [] p h = cc
before_first-clear d (c ∷ s) p h = elim (Bool-cases (same_char c d)) [
  | inl same ↦ subst (λ q. has_char d q ≡ false) (some-injective (rw same at h)) refl
  | inr other ↦ elim (Option-cases (before_first d s)) [
    | inl absent ↦ cc (rw (other, absent) at h)
    | inr (q, there) ↦
        subst (λ q. has_char d q ≡ false) (some-injective (rw (other, there) at h))
          (rw other (before_first-clear d s q there))
  ]
]

pub before_first-append :
    (d : Char) (s t : String)
    → has_char d s ≡ false
    → same_char d d ≡ true
    → before_first d (s ++ (d ∷ t)) ≡ some s
unfolding before_first has_char
before_first-append d [] t h same =
    ap (before_first d) (append.nil (d ∷ t)) ∙ ap (λ b. first_cut b d (before_first d t)) same
before_first-append d (c ∷ s) t h same = elim (Bool-cases (same_char c d)) [
  | inl stop ↦ cc (rw stop at h)
  | inr other ↦
      ap (before_first d) (append.cons c s (d ∷ t))
      ∙ ap (λ b. first_cut b c (before_first d (s ++ (d ∷ t)))) other
      ∙ ap (first_cut false c) (before_first-append d s t (rw other at h) same)
]

pub before_first-none : (d : Char) (s : String) → has_char d s ≡ false → before_first d s ≡ none
unfolding before_first has_char
before_first-none d [] h = refl
before_first-none d (c ∷ s) h = elim (Bool-cases (same_char c d)) [
  | inl same ↦ cc (rw same at h)
  | inr other ↦ rw (before_first-none d s (rw other at h), other) refl
]

pub no_first : (d : Char) (s : String) → before_first d s ≡ none → has_char d s ≡ false
unfolding has_char before_first
no_first d [] h = refl
no_first d (c ∷ s) h = elim (Bool-cases (same_char c d)) [
  | inl same ↦ cc (rw same at h)
  | inr other ↦ elim (Option-cases (before_first d s)) [
    | inl absent ↦ rw other (no_first d s absent)
    | inr (q, there) ↦ cc (rw (other, there) at h)
  ]
]

pub has_char-append :
    (d : Char) (s t : String)
    → has_char d s ≡ false
    → has_char d t ≡ false
    → has_char d (s ++ t) ≡ false
unfolding has_char
has_char-append d [] t hs ht = ap (has_char d) (append.nil t) ∙ ht
has_char-append d (c ∷ s) t hs ht = elim (Bool-cases (same_char c d)) [
  | inl same ↦ cc (rw same at hs)
  | inr other ↦
      ap (has_char d) (append.cons c s t)
      ∙ ap (λ b. if b then true else has_char d (s ++ t)) other
      ∙ has_char-append d s t (rw other at hs) ht
]

-- A text is cut in one way only at the first place of a character.
pub cut_unique :
    (d : Char) (p q s t : String)
    → has_char d p ≡ false
    → has_char d q ≡ false
    → same_char d d ≡ true
    → p ++ (d ∷ s) ≡ q ++ (d ∷ t)
    → (p ≡ q) × (s ≡ t)
cut_unique d p q s t hp hq same h =
    let front = some-injective (
      sym (before_first-append d p s hp same)
      ∙ ap (before_first d) h
      ∙ before_first-append d q t hq same) in
    (
      front,
      tail-eq_of_cons-eq
          (append_cancel_left q (d ∷ s) (d ∷ t) (subst (λ x. x ++ (d ∷ s) ≡ q ++ (d ∷ t)) front h)),
    )
