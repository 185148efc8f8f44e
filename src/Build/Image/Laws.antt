-- ===== src/Build/Image/Laws.antt =====
-- A tag or a digest that is written last is the one that counts.
use Prim.Native.Nat.{Ordering, compare}
use Prim.Native.Char.{Char, len_utf8}
use Prim.Native.String.{len, slice, fits, [], ◌∷◌}
use Prim.Native.String.append
use Prim.Native.String.slice as slice_lem
use Prim.Native.String.len as len_lem
use text.Mathlib.TextBridge.{IsPrefix}
use text.Mathlib.TextEquality.{slice-prefix}
use text.Mathlib.TextLemmas.{append-nil, append-eq-nil_iff}
use environments.Common.{
  ℕ, ◌-◌, String, ◌≡◌, ◌≢◌, refl, sym, ap, ◌∙◌, true, false, some, ◌==◌, ◌^◌, ltb, contains,
  before_first, before_last, has_char, before_last-append, before_first-append, before_first-clear,
  before_first-none, no_first, Bool-cases, Option-cases, inl, inr, arith, eq_iff, ◌≤◌, ◌<◌,
}
use environments.Build.Image.{
  without_digest, tagged, replace_image_tag, undigested, pinned, image_with_digest, short_hash,
}

colon : (tag : String) → ":" ^ tag ≡ ":" ∷ tag
colon tag = append.cons ":" [] tag ∙ ap (λ s. ":" ∷ s) (append.nil tag)

at_front : (digest : String) → "@" ^ digest ≡ "@" ∷ digest
at_front digest = append.cons "@" [] digest ∙ ap (λ s. "@" ∷ s) (append.nil digest)

last_colon : (p tag : String) → has_char ":" tag ≡ false → before_last ":" (p ^ ":" ^ tag) ≡ some p
last_colon p tag clear =
    ap (λ s. before_last ":" (p ^ s)) (colon tag) ∙ before_last-append ":" p tag clear refl

first_at :
    (p digest : String) → has_char "@" p ≡ false → before_first "@" (p ^ "@" ^ digest) ≡ some p
first_at p digest clear =
    ap (λ s. before_first "@" (p ^ s)) (at_front digest)
    ∙ before_first-append "@" p digest clear refl

retagged :
    (p a b : String)
    → has_char ":" a ≡ false
    → contains p "/" ≡ true
    → replace_image_tag (p ^ ":" ^ a) b ≡ p ^ ":" ^ b
unfolding replace_image_tag tagged
retagged p a b clear slash = rw (last_colon p a clear, slash) refl

-- In a reference with a path, of two tags the one that is written last counts: the first tag, which
-- has no colon, leaves nothing behind.
pub replace_image_tag-again :
    (image a b : String)
    → contains image "/" ≡ true
    → has_char ":" a ≡ false
    → replace_image_tag (replace_image_tag image a) b ≡ replace_image_tag image b
unfolding replace_image_tag tagged
replace_image_tag-again image a b slash clear = elim (Option-cases (before_last ":" image)) [
  | inl absent ↦ rw absent (retagged image a b clear slash)
  | inr (p, there) ↦ elim (Bool-cases (contains p "/")) [
    | inl path ↦ rw (there, path) (retagged p a b clear path)
    | inr host ↦ rw (there, host) (retagged image a b clear slash)
  ]
]

without_digest-clear : (image : String) → has_char "@" (without_digest image) ≡ false
unfolding without_digest undigested
without_digest-clear image = elim (Option-cases (before_first "@" image)) [
  | inl absent ↦ rw absent (no_first "@" image absent)
  | inr (p, there) ↦ rw there (before_first-clear "@" image p there)
]

not_empty : (s : String) → s ≢ "" → (s == "") ≡ false
not_empty s h = ground (arith, eq_iff s "")

joined_not_empty : (s t : String) → s ≢ "" → s ^ t ≢ ""
joined_not_empty s t h e = h (append-eq-nil_iff.0 e).0

with_digest_of :
    (image digest : String)
    → image ≢ ""
    → image_with_digest image digest ≡ pinned (without_digest image) digest
unfolding image_with_digest
with_digest_of image digest h = rw (not_empty image h) refl

repinned :
    (bare a b : String)
    → bare ≢ ""
    → has_char "@" bare ≡ false
    → image_with_digest (pinned bare a) b ≡ pinned bare b
unfolding pinned image_with_digest without_digest undigested
repinned bare a b h clear = elim (Bool-cases (a == "")) [
  | inl empty ↦ rw (empty, not_empty bare h, before_first-none "@" bare clear) refl
  | inr present ↦
      rw (present, not_empty _ (joined_not_empty bare ("@" ^ a) h), first_at bare a clear) refl
]

-- Of two digests that are pinned on a reference the one that is pinned last counts, whatever digest
-- the reference came with, when something stands before its digest.
pub image_with_digest-again :
    (image a b : String)
    → without_digest image ≢ ""
    → image_with_digest (image_with_digest image a) b ≡ image_with_digest image b
unfolding without_digest undigested before_first
image_with_digest-again image a b h =
    let named : image ≢ "" = λ e. h (rw e refl) in
    ap (λ s. image_with_digest s b) (with_digest_of image a named)
    ∙ repinned (without_digest image) a b h (without_digest-clear image)
    ∙ sym (with_digest_of image b named)

-- Every character is one byte, as in a hexadecimal hash.
abbrev pub IsAscii : String → Type 0
IsAscii [] = Unit
IsAscii (c ∷ s) = (len_utf8 c ≡ 1) × IsAscii s

fits-len :
    (c : Char) (s : String) (b : ℕ) (o : Ordering)
    → compare (len_utf8 c) b ≡ o
    → len_utf8 c ≡ 1
    → (1 ≤ b → len s ≡ b - len_utf8 c)
    → len (fits o c s) ≡ b
fits-len c s b Ordering.lt h one rest = rw len_lem.cons (ground (arith, h, rest))
fits-len c s b Ordering.eq h one rest = rw len_lem.cons (ground (arith, h, rest))
fits-len c s b Ordering.gt h one rest = rw len_lem.nil (ground (arith, h))

slice-len : (s : String) (b : ℕ) → IsAscii s → b ≤ len s → len (slice s 0 b) ≡ b
slice-len [] b ascii h = rw slice_lem.nil (rw len_lem.nil (omega (arith, rw len_lem.nil at h)))
slice-len (c ∷ s) b (one, ascii) h =
    let h = rw len_lem.cons at h in
    rw slice_lem.cons-zero (
      fits-len c _ b _ refl one
        λ some_byte. slice-len s (b - len_utf8 c) ascii (omega (arith, h, one)))

-- The short form of a hash of one-byte characters: the hash itself if it has at most twelve bytes,
-- else its first twelve.
pub short_hash-bounds :
    (hash : String)
    → IsAscii hash
    → (len hash ≤ 12 → short_hash hash ≡ hash)
      × (12 < len hash → len (short_hash hash) ≡ 12)
      × IsPrefix (short_hash hash) hash
unfolding short_hash
short_hash-bounds hash ascii = elim (Bool-cases (ltb 12 (len hash))) [
  | inl long ↦
      rw long (λ h. ground arith, λ h. slice-len hash 12 ascii (ground arith), slice-prefix hash 12)
  | inr short ↦ rw short (λ h. refl, λ h. ground arith, ("", append-nil hash))
]
