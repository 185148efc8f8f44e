-- ===== src/Package/App/Recorded.antt =====
-- What a Package's status says after a reconciliation with one of the two providers.
use environments.Common.{
  ℕ, String, ◌≡◌, ◌≢◌, ◌↔◌, ◌⊎◌, true, false, Option, none, some, List, [], ◌∷◌, Error, Result, ok,
}
use environments.Core.Conditions.{Condition}
use environments.Status.Api.{Server, Optimistic, RetryOnConflict}
use environments.Status.Laws.{Merged}
use environments.Package.{PackageResult, PackageStatus}
use environments.Package.Plan.{PackageIntent}
use environments.Package.Service.{PackageProvider}
use environments.Package.App.{AppKinds, AppServer, package_provider, application_provider}
use environments.Package.App.Laws.{ReportsSuccess}

module _ {W : Type 0} (apps : AppServer W) (kinds : AppKinds) (text : Error → String)
    (start finish : ℕ) where
  -- One of the two implementations of Provider.
  abbrev pub IsProvider : PackageProvider W → Type 0
  IsProvider kapp =
      (kapp ≡ package_provider apps kinds text start finish)
      ⊎ (kapp ≡ application_provider apps kinds text start finish)

  abbrev Outcome : PackageIntent → W → Option PackageResult × Option Error → Type 0
  Outcome i w returned =
      (r : PackageResult) × (returned.0 ≡ some r)
      × (r.kapp.executed ≡ false)
      × (((r.success ≡ true) × (returned.1 ≡ none)) ↔ ReportsSuccess apps kinds i w)

  -- A status that says success exactly if the App does, in its contract and in its condition, and
  -- whose condition is never the one of a deploy under way.
  pub record Reports (i : PackageIntent) (w : W) (s : PackageStatus) (c : Condition) : Type 0 where
    pub kind : c.kind ≡ "Succeeded"
    pub status : (c.status ≡ "True") ↔ ReportsSuccess apps kinds i w
    pub success : (s.success ≡ true) ↔ ReportsSuccess apps kinds i w

  module _ (server : Server W) (others : W → W) (opt : Optimistic server others)
      (retry : RetryOnConflict server) (marshal : PackageStatus → Result (List ℕ))
      (filled : (s : PackageStatus) → marshal s ≢ ok []) where
    -- The status after a reconciliation: a plan, a contract and a condition, stored together.
    abbrev pub Recorded : Option PackageIntent → W → W → Type 0
    Recorded intent w end =
        (i : PackageIntent) × (s : PackageStatus) × (c : Condition) × (raw : List ℕ) × (intent
          ≡ some i)
        × (marshal s ≡ ok raw)
        × Merged server others opt retry [] (c ∷ []) raw end
        × Reports i w s c
