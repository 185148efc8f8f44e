-- ===== src/Core/Registry/Laws.antt =====
-- The registry after a registration.
use environments.Common.{
  String, ◌≡◌, refl, ◌↔◌, Bool, true, none, some, List, [], ◌∷◌, ◌==◌, if◌then◌else◌, arith, eq_iff,
}
use environments.Core.Registry.{
  Gvk, same_gvk, put, find, Registry, register_domain, get_domain, register_strategy, get_strategy,
}

pub same_gvk_iff : (a b : Gvk) → (same_gvk a b ≡ true) ↔ (a ≡ b)
same_gvk_iff a b =
    ground (arith, eq_iff a.group b.group, eq_iff a.version b.version, eq_iff a.kind b.kind)

module _ {K V : Type 0} (same : K → K → Bool)
    (same_iff : (a b : K) → (same a b ≡ true) ↔ (a ≡ b)) where
  find-put :
      (k : K) (v : V) (es : List (K × V)) (j : K)
      → find same j (put same k v es) ≡ (if same k j then some v else find same j es)
  unfolding find put
  find-put k v [] j = refl
  find-put k v ((i, u) ∷ es) j =
      ground (arith, same_iff i k, same_iff i j, same_iff k j, find-put k v es j)

  -- No key stands twice.
  abbrev pub Keyed : List (K × V) → Type 0
  Keyed [] = Unit
  Keyed ((k, v) ∷ es) = (find same k es ≡ none) × Keyed es

  put-Keyed : (k : K) (v : V) (es : List (K × V)) → Keyed es → Keyed (put same k v es)
  unfolding find put
  put-Keyed k v [] h = (refl, tt)
  put-Keyed k v ((i, u) ∷ es) h =
      ground (arith, same_iff i k, same_iff k i, find-put k v es i, put-Keyed k v es)

module _ {Domain Strategy : Type 0} where
  abbrev pub IsRegistry : Registry Domain Strategy → Type 0
  IsRegistry r = Keyed same_gvk same_gvk_iff r.domains × Keyed (◌==◌) eq_iff r.strategies

  -- After RegisterDomain the kind has the new Domain, whatever it had before; every other kind and
  -- every strategy is as it was; and no kind and no name is registered twice.
  pub register_domain_lem :
      (gvk : Gvk) (d : Domain) (r : Registry Domain Strategy) (other : Gvk) (name : String)
      → IsRegistry r
      → let after = register_domain gvk d r in
        IsRegistry after
        × (get_domain after other ≡ (if same_gvk gvk other then some d else get_domain r other))
        × (get_strategy after name ≡ get_strategy r name)
  unfolding register_domain get_domain get_strategy
  register_domain_lem gvk d r other name (ds, ss) = (
    (put-Keyed same_gvk same_gvk_iff gvk d r.domains ds, ss),
    find-put same_gvk same_gvk_iff gvk d r.domains other,
    refl,
  )

  -- After RegisterStrategy the name has the new strategy, whatever it had before; every other name
  -- and every kind is as it was; and no kind and no name is registered twice.
  pub register_strategy_lem :
      (name : String) (v : Strategy) (r : Registry Domain Strategy) (other : String) (gvk : Gvk)
      → IsRegistry r
      → let after = register_strategy name v r in
        IsRegistry after
        × (get_strategy after other ≡ (if name == other then some v else get_strategy r other))
        × (get_domain after gvk ≡ get_domain r gvk)
  unfolding register_strategy get_domain get_strategy
  register_strategy_lem name v r other gvk (ds, ss) = (
    (ds, put-Keyed (◌==◌) eq_iff name v r.strategies ss),
    find-put (◌==◌) eq_iff name v r.strategies other,
    refl,
  )
