-- ===== src/Deployment/Service/Teardown.antt =====
-- What a teardown of a Deployment leaves behind, by the names in its contract.
use environments.Common.{
  String, ◌≡◌, ◌∙◌, ◌⊎◌, Bool, false, none, some, List, [], ◌∷◌, map, All, Error, subst,
}
use environments.Resolution.Deployment.{ResolvedDeployment}
use environments.Intent.Laws.{PlansRepo-none}
use environments.Intent.Teardown.{build_teardown-IsTeardownOf}
use environments.Deployment.Provider.{Kind, deployment, service, Client, teardown}
use environments.Deployment.Provider.Laws.{Deletes, Reports, teardown_settles}
use environments.Deployment.Executor.{Kustomizer}
use environments.Deployment.Executor.Laws.{teardown_executed-live}
use environments.Deployment.Service.{teardown_planned, teardown_deployment}

All-map :
    {A B : Type 0} (f : A → B) (P : B → Type 0) (xs : List A)
    → All (λ x. P (f x)) xs
    → All P (map f xs)
All-map f P [] h = tt
All-map f P (x ∷ xs) (here, later) = (here, All-map f P xs later)

module _ {W Object Int32 : Type 0} (name_of namespace_of : Object → String)
    (client : Client W Int32) (text : Error → String) (kustomizer : Kustomizer W Object Int32)
    (exists : Kind → String → String → W → Bool) (deletes : Deletes client exists) where
  -- Both objects of a name are gone, or an error of the list names the object.
  abbrev pub Settled : String → List Error × W → String → Type 0
  Settled namespace (es, w) name =
      ((exists deployment name namespace w ≡ false) ⊎ Reports es "delete deployment" name)
      × ((exists service name namespace w ≡ false) ⊎ Reports es "delete service" name)

  -- With a client that deletes as documented, tearing down a Deployment without a manifests repo
  -- for the Kubernetes runtime, from its contract alone: for every unit that the contract names,
  -- its Deployment object and its Service object are gone, or the returned errors name the unit and
  -- the object.
  pub teardown_deployment-Settled :
      (zero32 : Int32) (depl : ResolvedDeployment Object) (w : W)
      → depl.spec.runtime ≡ "kubernetes.io/container-runtime"
      → depl.spec.manifests_repo ≡ none
      → All
          (Settled
            (namespace_of depl.deployment)
            (teardown_deployment name_of namespace_of client text kustomizer zero32 (some depl) w))
          depl.spec.service_units
  unfolding teardown_deployment teardown_planned
  teardown_deployment-Settled zero32 depl w runtime no_repo =
      let (t, planned, is_teardown) =
        build_teardown-IsTeardownOf name_of namespace_of zero32 depl in
      rw
        (
          planned,
          teardown_executed-live client text kustomizer depl.deployment t w
              (is_teardown.runtime ∙ runtime) (PlansRepo-none _ _ no_repo is_teardown.repo),
        )
        (subst (All (Settled (namespace_of depl.deployment) (teardown client t w)))
          is_teardown.units
          (All-map (λ u. u.name) (Settled (namespace_of depl.deployment) (teardown client t w))
            t.service_units
            (subst (λ ns. All (λ u. Settled ns (teardown client t w) u.name) t.service_units)
              is_teardown.namespace (teardown_settles client exists deletes t w))))
