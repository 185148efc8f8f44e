-- ===== src/Cache/Publish.antt =====
-- PublishResolved of cache/<kind>/<kind>.go: all Set calls are made, and the first error is
-- returned. The fields of each kind are in Cache.Fields.
pub mod Laws
mod Examples
use environments.Common.{
  and_then, ℕ, String, Bool, true, false, not, Option, none, some, List, [], ◌∷◌, ◌++◌, ◌==◌, ◌&&◌,
  if◌then◌else◌, Error, Effect,
}
use environments.Resolution.Build.{
  ResolvedSource, ResolvedStrategy, ResolvedServiceAccount, ResolvedBuildPolicy, ResolvedBuildSpec,
}
use environments.Resolution.Deployment.{ResolvedManifestsRepo, ResolvedDeploymentSpec}
use environments.Resolution.Route.{ResolvedServiceUnitRef, ResolvedRouteSpec}
use environments.Resolution.Environment.{ResolvedSecretStore, ResolvedEnvironmentSpec}
use environments.Resolution.Domain.{ResolvedDomainSpec}
use environments.Resolution.ServiceUnit.{UnitTypeEnum, ResolvedBuildRef, ResolvedServiceUnitSpec}
use environments.Resolution.Packages.{
  ResolvedPackageRepository, ResolvedStateRepository, ResolvedPackageSpec,
}
use environments.Resolution.GitHubEvent.{ResolvedSecretRef, ResolvedGitHubEventSpec}
use environments.Cache.{ExternalCache, NamespacedName, set_field}

first_error : Option Error → Option Error → Option Error
first_error none e = e
first_error (some e) f = some e

module _ {W V : Type 0} (external : ExternalCache W V) (kind : String) (nn : NamespacedName)
    (gen : ℕ) where
  -- a Set call, which returns at its first error
  set_step : List (String × V) → Effect W
  set_step [] w = (none, w)
  set_step ((f, v) ∷ fs) w = and_then (set_field external kind nn gen f v w) (set_step fs)

  -- `record(…)` of every Set call: all are made, and the first error is returned.
  unfoldable pub publish : List (List (String × V)) → Effect W
  unfolding set_step first_error
  publish [] w = (none, w)
  publish (step ∷ steps) w =
      let (e, w) = set_step step w in let (rest, w) = publish steps w in (first_error e rest, w)

-- PublishResolved of one kind, by its fields; a nil resolution publishes nothing.
unfoldable pub publish_resolved :
    {W S V : Type 0}
    → ExternalCache W V
    → String
    → (S → List (List (String × V)))
    → NamespacedName
    → ℕ
    → Option S
    → Effect W
publish_resolved external kind fields nn gen none w = (none, w)
publish_resolved external kind fields nn gen (some s) w = publish external kind nn gen (fields s) w
