-- ===== src/Cache/Keys.antt =====
-- Which fields share a key, and which keys an invalidation reaches.
mod Examples
use Prim.Native.String.append
use Prim.Native.String.{◌∷◌, ◌++◌}
use text.Mathlib.TextBridge.{IsPrefix}
use text.Mathlib.TextLemmas.{append_assoc, append_cancel_left}
use environments.Common.{
  ℕ, String, ◌≡◌, ◌↔◌, refl, sym, ap, ◌∙◌, subst, false, true, ◌^◌, has_char, has_char-append,
  cut_unique, decimal, decimal-injective, decimal-clear,
}
use environments.Cache.{NamespacedName, key, object_prefix}

-- What the names of Kubernetes objects satisfy: no slash in a namespace, no colon in a name.
pub record IsName (nn : NamespacedName) : Type 0 where
  pub namespace_clear : has_char "/" nn.namespace ≡ false
  pub name_clear : has_char ":" nn.name ≡ false

-- A separator that is one character, at the front of a text.
colon : (s : String) → ":" ^ s ≡ ":" ∷ s
colon s = append.cons ":" "" s ∙ ap (λ t. ":" ∷ t) (append.nil s)

slash : (s : String) → "/" ^ s ≡ "/" ∷ s
slash s = append.cons "/" "" s ∙ ap (λ t. "/" ∷ t) (append.nil s)

cut_colon :
    (p q s t : String)
    → has_char ":" p ≡ false
    → has_char ":" q ≡ false
    → p ^ (":" ^ s) ≡ q ^ (":" ^ t)
    → (p ≡ q) × (s ≡ t)
cut_colon p q s t hp hq h =
    cut_unique ":" p q s t hp hq refl
      (ap (λ x. p ++ x) (sym (colon s)) ∙ h ∙ ap (λ x. q ++ x) (colon t))

cut_slash :
    (p q s t : String)
    → has_char "/" p ≡ false
    → has_char "/" q ≡ false
    → p ^ ("/" ^ s) ≡ q ^ ("/" ^ t)
    → (p ≡ q) × (s ≡ t)
cut_slash p q s t hp hq h =
    cut_unique "/" p q s t hp hq refl
      (ap (λ x. p ++ x) (sym (slash s)) ∙ h ∙ ap (λ x. q ++ x) (slash t))

gen_front : (s : String) → ":gen" ^ s ≡ ":" ^ ("gen" ^ s)
gen_front s = append_assoc ":" "gen" s

-- The same key is the same object, generation and field; the generation is read back from its digits.
pub record SameField (kind kind' : String) (nn mm : NamespacedName) (g h : ℕ) (f f' : String)
    : Type 0 where
  pub same_kind : kind ≡ kind'
  pub same_namespace : nn.namespace ≡ mm.namespace
  pub same_name : nn.name ≡ mm.name
  pub same_generation : g ≡ h
  pub same_field : f ≡ f'

key-injective :
    (kind kind' : String) (nn mm : NamespacedName) (g h : ℕ) (f f' : String)
    → has_char ":" kind ≡ false
    → has_char ":" kind' ≡ false
    → IsName nn
    → IsName mm
    → key kind nn g f ≡ key kind' mm h f'
    → SameField kind kind' nn mm g h f f'
unfolding key
key-injective kind kind' nn mm g h f f' k k' n m same =
    let (kinds, rest) = cut_colon kind kind' _ _ k k' same in
    let (namespaces, rest) =
      cut_slash nn.namespace mm.namespace _ _ n.namespace_clear m.namespace_clear rest in
    let (names, rest) =
      cut_colon nn.name mm.name _ _ n.name_clear m.name_clear
        (ap (λ x. nn.name ^ x) (sym (gen_front _)) ∙ rest ∙ ap (λ x. mm.name ^ x) (gen_front _)) in
    let (gens, fields) =
      cut_colon (decimal g) (decimal h) _ _ (decimal-clear g) (decimal-clear h)
        (append_cancel_left "gen" _ _ rest) in
    record {
      same_kind = kinds;
      same_namespace = namespaces;
      same_name = names;
      same_generation = decimal-injective g h gens;
      same_field = fields;
    }

pub record SameObject (kind kind' : String) (nn mm : NamespacedName) : Type 0 where
  pub same_kind : kind ≡ kind'
  pub same_namespace : nn.namespace ≡ mm.namespace
  pub same_name : nn.name ≡ mm.name

object_prefix-append :
    (kind : String) (nn : NamespacedName) (x : String)
    → object_prefix kind nn ++ x ≡ kind ^ (":" ^ (nn.namespace ^ ("/" ^ (nn.name ^ (":" ^ x)))))
unfolding object_prefix
object_prefix-append kind nn x =
    append_assoc kind _ x
    ∙ ap (λ s. kind ^ s) (append_assoc ":" _ x)
    ∙ ap (λ s. kind ^ (":" ^ s)) (append_assoc nn.namespace _ x)
    ∙ ap (λ s. kind ^ (":" ^ (nn.namespace ^ s))) (append_assoc "/" _ x)
    ∙ ap (λ s. kind ^ (":" ^ (nn.namespace ^ ("/" ^ s)))) (append_assoc nn.name ":" x)

-- a key, by what follows the prefix of its object
key_parts :
    (kind : String) (nn : NamespacedName) (g : ℕ) (f : String)
    → key kind nn g f ≡ object_prefix kind nn ++ ("gen" ^ (decimal g ^ (":" ^ f)))
unfolding key
key_parts kind nn g f =
    ap (λ s. kind ^ (":" ^ (nn.namespace ^ ("/" ^ (nn.name ^ s))))) (gen_front _)
    ∙ sym (object_prefix-append kind nn _)

object_prefix-SameObject :
    (kind kind' : String) (nn mm : NamespacedName) (x y : String)
    → has_char ":" kind ≡ false
    → has_char ":" kind' ≡ false
    → IsName nn
    → IsName mm
    → object_prefix kind nn ++ x ≡ object_prefix kind' mm ++ y
    → SameObject kind kind' nn mm × (x ≡ y)
object_prefix-SameObject kind kind' nn mm x y k k' n m same =
    let same = sym (object_prefix-append kind nn x) ∙ same ∙ object_prefix-append kind' mm y in
    let (kinds, rest) = cut_colon kind kind' _ _ k k' same in
    let (namespaces, rest) =
      cut_slash nn.namespace mm.namespace _ _ n.namespace_clear m.namespace_clear rest in
    let (names, rest) = cut_colon nn.name mm.name _ _ n.name_clear m.name_clear rest in
    (record { same_kind = kinds; same_namespace = namespaces; same_name = names }, rest)

-- Two fields share a key exactly if kind, namespace, name, generation and field are the same, and
-- the prefix that an invalidation drops stands before the keys of its own object, of every
-- generation, and before no other, when no kind holds a colon, no namespace a slash and no name a
-- colon. So what is cached for one generation is never read for another.
pub key-separates :
    (kind kind' : String) (nn mm : NamespacedName) (g h : ℕ) (f f' : String)
    → has_char ":" kind ≡ false
    → has_char ":" kind' ≡ false
    → IsName nn
    → IsName mm
    → ((key kind nn g f ≡ key kind' mm h f') ↔ SameField kind kind' nn mm g h f f')
      × (IsPrefix (object_prefix kind' mm) (key kind nn g f) ↔ SameObject kind kind' nn mm)
key-separates kind kind' nn mm g h f f' k k' n m = (
  (
    key-injective kind kind' nn mm g h f f' k k' n m,
    λ s i.
        key (s.same_kind i) (record { namespace = s.same_namespace i; name = s.same_name i })
          (s.same_generation i) (s.same_field i),
  ),
  (
    λ (x, front).
        (object_prefix-SameObject kind kind' nn mm _ x k k' n m
          (sym (key_parts kind nn g f) ∙ sym front)).0,
    λ s. (
      "gen" ^ (decimal g ^ (":" ^ f)),
      ap (λ p. p ++ ("gen" ^ (decimal g ^ (":" ^ f))))
            (λ i.
              object_prefix (sym s.same_kind i)
                (record { namespace = sym s.same_namespace i; name = sym s.same_name i }))
          ∙ sym (key_parts kind nn g f),
    ),
  ),
)
