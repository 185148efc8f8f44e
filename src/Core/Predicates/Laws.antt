-- ===== src/Core/Predicates/Laws.antt =====
-- Which updates are reconciled.
use environments.Common.{◌≡◌, refl, ◌≢◌, ◌↔◌, Bool, true, not, if◌then◌else◌, arith, eq_iff, subst}
use environments.Core.Predicates.{
  CrKind, build, deployment, git_hub_event, git_repository, environment, packages, service_unit,
  route, domain, unknown, same_kind, Object, updated, retry_annotation, annotation, changed,
  meaningful_change,
}

same_kind_refl : (k : CrKind) → same_kind k k ≡ true
same_kind_refl build = refl
same_kind_refl deployment = refl
same_kind_refl git_hub_event = refl
same_kind_refl git_repository = refl
same_kind_refl environment = refl
same_kind_refl packages = refl
same_kind_refl service_unit = refl
same_kind_refl route = refl
same_kind_refl domain = refl
same_kind_refl unknown = refl

module _ {Spec : Type 0} (deep_equal : Spec → Spec → Bool)
    (deep_equal_iff : (a b : Spec) → (deep_equal a b ≡ true) ↔ (a ≡ b)) where
  -- What makes an update of two objects of one kind worth a reconciliation.
  abbrev pub Differs : CrKind → Object Spec → Object Spec → Type 0
  Differs build old new =
      annotation retry_annotation old.annotations ≢ annotation retry_annotation new.annotations
  Differs unknown old new = Unit
  Differs _ old new = old.spec ≢ new.spec

  changed_iff :
      (k : CrKind) (old new : Object Spec)
      → (changed deep_equal k old new ≡ true) ↔ Differs k old new
  unfolding changed
  changed_iff build old new = ground (
    arith,
    eq_iff (annotation retry_annotation old.annotations)
        (annotation retry_annotation new.annotations),
  )
  changed_iff unknown old new = (λ _. tt, λ _. refl)
  changed_iff _ old new = ground (arith, deep_equal_iff old.spec new.spec)

  -- Where DeepEqual is equality, an update of an object, whose kind does not change, passes for a
  -- Build exactly if the retry annotation differs, whatever else changed, for the eight other kinds
  -- exactly if the spec differs, and for an unknown kind always.
  pub meaningful_change_iff :
      (old new : Object Spec)
      → old.kind ≡ new.kind
      → (meaningful_change deep_equal (updated old new) ≡ true) ↔ Differs old.kind old new
  unfolding meaningful_change
  meaningful_change_iff old new p =
      subst
        (λ k.
          ((if not (same_kind old.kind k) then true else changed deep_equal old.kind old new)
            ≡ true)
          ↔ Differs old.kind old new)
        p (rw (same_kind_refl old.kind) (changed_iff old.kind old new))
