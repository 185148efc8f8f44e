-- ===== src/Cache/Publish/Laws.antt =====
-- What a hit in the cache returns after a resolution was published.
use environments.Common.{
  ℕ, String, ◌≡◌, ◌≢◌, sym, ◌∙◌, subst, ◌⊎◌, inl, inr, false, Bool-cases, Option, none, some,
  some-injective, List, [], ◌∷◌, Any, Any-map, ◌==◌, eq_iff, Error, ok, Effect, and_then, has_char,
}
use environments.Cache.{ExternalCache, NamespacedName, key, set_field, get_field}
use environments.Cache.Keys.{IsName, SameField, key-separates}
use environments.Cache.Publish.{set_step, publish, publish_resolved}

-- What the interface promises: `holds w k` is the value last stored under `k`, expired or not. A
-- Set stores under its key only, or nothing at all, whether or not it reports an error. A hit
-- returns what is held.
pub record Backend {W V : Type 0} (external : ExternalCache W V) (holds : W → String → Option V)
    : Type 0 where
  pub set_frame :
      (k j : String) (v : V) (w : W) → k ≢ j → holds (external.set k v w).1 j ≡ holds w j
  pub set_own :
      (k : String) (v : V) (w : W)
      → (holds (external.set k v w).1 k ≡ holds w k) ⊎ (holds (external.set k v w).1 k ≡ some v)
  pub hit : (k : String) (v : V) (w : W) → (external.get k w).0 ≡ ok (some v) → holds w k ≡ some v

same_text : (a b : String) → (a ≡ b) ⊎ (a ≢ b)
same_text a b = elim (Bool-cases (a == b)) [
  | inl same ↦ inl ((eq_iff a b).0 same)
  | inr other ↦ inr (λ e. cc (other, (eq_iff a b).1 e))
]

and_then-world :
    {W : Type 0} (P : W → Type 0) (m : Option Error × W) (next : Effect W)
    → P m.1
    → P (next m.1).1
    → P (and_then m next).1
and_then-world P (none, w) next first rest = rest
and_then-world P (some e, w) next first rest = first

module _ {W V : Type 0} (external : ExternalCache W V) (holds : W → String → Option V)
    (backend : Backend external holds) (kind : String) (nn : NamespacedName) (gen : ℕ) where
  -- one of the fields has this key and this value
  abbrev Sets : List (String × V) → String → V → Type 0
  Sets fs k v = Any (λ (p : String × V). (key kind nn gen p.0 ≡ k) × (p.1 ≡ v)) fs

  abbrev Publishes : List (List (String × V)) → String → V → Type 0
  Publishes steps k v = Any (λ fs. Sets fs k v) steps

  set_field_from :
      (f : String) (u v : V) (w : W) (k : String)
      → holds (set_field external kind nn gen f u w).1 k ≡ some v
      → ((key kind nn gen f ≡ k) × (u ≡ v)) ⊎ (holds w k ≡ some v)
  unfolding set_field
  set_field_from f u v w k h = elim (same_text (key kind nn gen f) k) [
    | inl same ↦ elim (backend.set_own (key kind nn gen f) u w) [
      | inl before ↦ inr (
          subst (λ j. holds w j ≡ some v) same
            (sym before
              ∙ subst (λ j. holds (external.set (key kind nn gen f) u w).1 j ≡ some v) (sym same)
                  h))
      | inr stored ↦ inl (
        same,
        some-injective (
            sym stored
            ∙ subst (λ j. holds (external.set (key kind nn gen f) u w).1 j ≡ some v) (sym same) h),
      )
    ]
    | inr other ↦ inr (sym (backend.set_frame (key kind nn gen f) k u w other) ∙ h)
  ]

  -- What is held after a step was set by it, or was held before.
  set_step_from :
      (fs : List (String × V)) (w : W) (k : String) (v : V)
      → holds (set_step external kind nn gen fs w).1 k ≡ some v
      → Sets fs k v ⊎ (holds w k ≡ some v)
  unfolding set_step
  set_step_from [] w k v h = inr h
  set_step_from ((f, u) ∷ fs) w k v h =
      and_then-world (λ x. holds x k ≡ some v → Sets ((f, u) ∷ fs) k v ⊎ (holds w k ≡ some v))
        (set_field external kind nn gen f u w) (set_step external kind nn gen fs)
        (λ first. elim (set_field_from f u v w k first) [
          | inl here ↦ inl (inl here)
          | inr before ↦ inr before
        ])
        (λ rest. elim (set_step_from fs _ k v rest) [
          | inl later ↦ inl (inr later)
          | inr first ↦ elim (set_field_from f u v w k first) [
            | inl here ↦ inl (inl here)
            | inr before ↦ inr before
          ]
        ])
        h

  publish_from :
      (steps : List (List (String × V))) (w : W) (k : String) (v : V)
      → holds (publish external kind nn gen steps w).1 k ≡ some v
      → Publishes steps k v ⊎ (holds w k ≡ some v)
  unfolding publish
  publish_from [] w k v h = inr h
  publish_from (step ∷ steps) w k v h = elim (publish_from steps _ k v h) [
    | inl later ↦ inl (inr later)
    | inr first ↦ elim (set_step_from step w k v first) [
      | inl here ↦ inl (inl here)
      | inr before ↦ inr before
    ]
  ]

  -- one of the fields is this one of this object and generation, with this value
  abbrev pub Published :
      List (List (String × V)) → String → NamespacedName → ℕ → String → V → Type 0
  Published steps other mm h f v =
      Any (λ fs. Any (λ (p : String × V). SameField kind other nn mm gen h p.0 f × (p.1 ≡ v)) fs)
        steps

  module _ {S : Type 0} (fields : S → List (List (String × V))) (s : S) (w : W)
      (kind_clear : has_char ":" kind ≡ false) (named : IsName nn) where
    published :
        (other : String) (mm : NamespacedName) (h : ℕ) (f : String) (v : V)
        → has_char ":" other ≡ false
        → IsName mm
        → Publishes (fields s) (key other mm h f) v
        → Published (fields s) other mm h f v
    published other mm h f v clear other_named =
        Any-map
          (λ fs.
            Any-map
              (λ p (same, is_v). (
                (key-separates kind other nn mm gen h p.0 f kind_clear clear named other_named).0.0
                    same,
                is_v,
              ))
              fs)
          (fields s)

    -- After a publication of a resolved object for its generation, whether or not its writes were
    -- accepted, a hit on any field of any object of any kind returns what this publication wrote for
    -- that very object, generation and field, or what was stored before it. No kind holds a colon,
    -- no namespace a slash and no name a colon; the backend is assumed to store under the key that it
    -- is given, and to return only what is stored.
    pub publish_resolved-hit :
        (other : String) (mm : NamespacedName) (h : ℕ) (f : String) (v : V)
        → has_char ":" other ≡ false
        → IsName mm
        → (get_field external other mm h f
            (publish_resolved external kind fields nn gen (some s) w).1).0
          ≡ ok (some v)
        → Published (fields s) other mm h f v ⊎ (holds w (key other mm h f) ≡ some v)
    unfolding publish_resolved get_field
    publish_resolved-hit other mm h f v clear other_named got =
        elim (publish_from (fields s) w (key other mm h f) v (backend.hit _ v _ got)) [
          | inl wrote ↦ inl (published other mm h f v clear other_named wrote)
          | inr before ↦ inr before
        ]
