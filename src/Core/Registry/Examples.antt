-- ===== src/Core/Registry/Examples.antt =====
-- Registering over an entry that is there.
use environments.Common.{ℕ, String, ◌≡◌, refl, some, [], ◌∷◌, ◌==◌, if◌then◌else◌}
use environments.Core.Registry.{
  Gvk, same_gvk, find, Registry, register_domain, get_domain, register_strategy, get_strategy,
}
use environments.Core.Registry.Laws.{IsRegistry, register_domain_lem, register_strategy_lem}

abbrev gvk : String → Gvk
gvk kind = record { group = "environments.blanketops.dev"; version = "v1alpha1"; kind = kind }

abbrev registry : Registry ℕ ℕ
registry = record {
  domains = (gvk "Build", 1) ∷ (gvk "Deployment", 2) ∷ [];
  strategies = ("buildpacks-v3", 5) ∷ [];
}

registry-IsRegistry : IsRegistry registry
unfolding find
registry-IsRegistry = ((refl, (refl, tt)), (refl, tt))

domain_registered :
    let after = register_domain (gvk "Build") 7 registry in
    IsRegistry after
    × (get_domain after (gvk "Deployment") ≡ (
        if same_gvk (gvk "Build") (gvk "Deployment")
        then some 7
        else get_domain registry (gvk "Deployment")))
    × (get_strategy after "buildpacks-v3" ≡ get_strategy registry "buildpacks-v3")
domain_registered =
    register_domain_lem (gvk "Build") 7 registry (gvk "Deployment") "buildpacks-v3"
      registry-IsRegistry

strategy_registered :
    let after = register_strategy "dockerfile" 6 registry in
    IsRegistry after
    × (get_strategy after "dockerfile"
        ≡ (if "dockerfile" == "dockerfile" then some 6 else get_strategy registry "dockerfile"))
    × (get_domain after (gvk "Build") ≡ get_domain registry (gvk "Build"))
strategy_registered =
    register_strategy_lem "dockerfile" 6 registry "dockerfile" (gvk "Build") registry-IsRegistry
