-- ===== src/Core/Registry.antt =====
-- core/registry/registry.go. A Go map is an association list that holds a key once; the order of its
-- entries stands for the unspecified order of Go's iteration. The locks make each operation atomic.
pub mod Laws
mod Examples
use environments.Common.{
  String, Bool, ◌&&◌, Option, none, some, List, [], ◌∷◌, map, ◌==◌, if◌then◌else◌,
}

-- schema.GroupVersionKind, whose values Go compares field by field
pub record Gvk : Type 0 where
  pub group : String
  pub version : String
  pub kind : String

abbrev pub same_gvk : Gvk → Gvk → Bool
same_gvk a b = a.group == b.group && a.version == b.version && a.kind == b.kind

module _ {K V : Type 0} (same : K → K → Bool) where
  -- `m[k] = v`
  pub put : K → V → List (K × V) → List (K × V)
  put k v [] = (k, v) ∷ []
  put k v ((j, u) ∷ rest) = if same j k then (j, v) ∷ rest else (j, u) ∷ put k v rest

  -- `v, ok := m[k]`
  unfoldable pub find : K → List (K × V) → Option V
  find k [] = none
  find k ((j, u) ∷ rest) = if same j k then some u else find k rest

pub record Registry (Domain Strategy : Type 0) : Type 0 where
  pub domains : List (Gvk × Domain)
  pub strategies : List (String × Strategy)

module _ {Domain Strategy : Type 0} where
  pub new_registry : Registry Domain Strategy
  new_registry = record { domains = []; strategies = [] }

  pub register_domain : Gvk → Domain → Registry Domain Strategy → Registry Domain Strategy
  unfolding put
  register_domain gvk d r = record r { domains = put same_gvk gvk d r.domains }

  pub get_domain : Registry Domain Strategy → Gvk → Option Domain
  unfolding find
  get_domain r gvk = find same_gvk gvk r.domains

  pub register_strategy : String → Strategy → Registry Domain Strategy → Registry Domain Strategy
  unfolding put
  register_strategy name v r = record r { strategies = put (◌==◌) name v r.strategies }

  pub get_strategy : Registry Domain Strategy → String → Option Strategy
  unfolding find
  get_strategy r name = find (◌==◌) name r.strategies

  pub list_domains : Registry Domain Strategy → List Gvk
  list_domains r = map (λ e. e.0) r.domains

  pub list_strategies : Registry Domain Strategy → List String
  list_strategies r = map (λ e. e.0) r.strategies
