-- ===== src/Package/Service.antt =====
-- pkg/apis/packages/application: service.go and backend_selector.go, with the status writer that the
-- service is made with. A nil selector and one without a provider are both `none`.
pub mod Laws
mod Examples
use environments.Common.{
  ℕ, String, Option, none, some, List, Error, errorf, Result, ok, err, Effect,
}
use environments.Status.Api.{Server, RetryOnConflict}
use environments.Resolution.Packages.{ResolvedPackage}
use environments.Package.{PackageObject, PackageId, PackageResult, PackageStatus, invalid_spec}
use environments.Package.Plan.{PackageIntent}
use environments.Package.Status.{write_package_status}

-- pkg/apis/packages/api/provider.go
pub record PackageProvider (W : Type 0) : Type 0 where
  pub execute : PackageIntent → W → (Option PackageResult × Option Error) × W
  pub teardown : PackageId → Effect W

unfoldable pub for_intent :
    {W : Type 0} → Option (PackageProvider W) → Option PackageIntent → Result (PackageProvider W)
for_intent none _ = err (errorf "kapp provider must be configured for PackageService")
for_intent (some kapp) _ = ok kapp

abbrev pub nil_package : Error
nil_package = invalid_spec (errorf "nil ResolvedPackage or PackageIntent passed to PackageService")

module _ {W : Type 0} (server : Server W) (others : W → W) (retry : RetryOnConflict server)
    (text : Error → String) (marshal : PackageStatus → Result (List ℕ)) where
  execute_with : ℕ → Result (PackageProvider W) → PackageIntent → Effect W
  execute_with now (err e) intent w = (some e, w)
  execute_with now (ok provider) intent w =
      let ((result, failure), w) = provider.execute intent w in
      write_package_status server others retry text marshal now result failure w

  unfoldable pub reconcile_package :
      ℕ
      → Option (PackageProvider W)
      → Option (ResolvedPackage PackageObject)
      → Option PackageIntent
      → Effect W
  unfolding execute_with
  reconcile_package now backend none intent w = (some nil_package, w)
  reconcile_package now backend (some resolved) none w = (some nil_package, w)
  reconcile_package now backend (some resolved) (some intent) w =
      execute_with now (for_intent backend (some intent)) intent w

unfoldable pub teardown_with : {W : Type 0} → Result (PackageProvider W) → PackageId → Effect W
teardown_with (err e) id w = (some e, w)
teardown_with (ok provider) id w = provider.teardown id w

unfoldable pub teardown_package : {W : Type 0} → Option (PackageProvider W) → PackageId → Effect W
unfolding teardown_with
teardown_package backend id = teardown_with (for_intent backend none) id
