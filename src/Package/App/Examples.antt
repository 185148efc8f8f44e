-- ===== src/Package/App/Examples.antt =====
-- An App that reconciled, recorded beside one conflicting writer, and one that is being removed.
use environments.Common.{
  ℕ, String, ◌≡◌, refl, inr, Bool, true, false, none, some, List, [], ◌∷◌, Error, errorf, Result,
  ok, err,
}
use environments.Status.Samples.{World}
use environments.Resolution.Packages.{ResolvedPackage}
use environments.Package.{PackageObject, PackageId, PackageStatus, plain_yaml}
use environments.Package.Plan.{PackageIntent}
use environments.Package.Service.{PackageProvider, teardown_package}
use environments.Package.App.{
  AppKinds, AppServer, ObservedApp, package_provider, application_provider,
}
use environments.Package.App.Recorded.{Recorded}
use environments.Package.App.Teardown.{Finds, IsSettled, teardown_package-IsSettled}

abbrev shop : PackageId
shop = record { namespace = "prod"; name = "shop" }

abbrev intent : PackageIntent
intent = record {
  id = shop;
  owner_uid = "u-1";
  labels = [];
  source = record {
    repository_url = "https://example.org/p.git";
    credentials_secret = "";
    path = "deploy";
  };
  state_repo = record { url = ""; ref = ""; clone_secret = ""; strategy = ""; path = "" };
  diff_enabled = false;
  strategy = plain_yaml;
  resolved_ref = "main";
  resolved_commit = "";
}

abbrev resolved : ResolvedPackage PackageObject
resolved = record {
  packages = record { name = "shop"; namespace = "prod"; uid = "u-1"; labels = [] };
  spec = record {
    name = "shop";
    version = "1.2.0";
    description = "";
    diff_enabled = false;
    package_repository = record {
      url = "https://example.org/p.git";
      credentials_secret = "";
      ref = "main";
      path = "deploy";
    };
    state_repository = none;
    maintainers = [];
  };
}

abbrev kinds : AppKinds
kinds = record { reconcile_succeeded = "ReconcileSucceeded"; reconcile_failed = "ReconcileFailed" }

abbrev app : ObservedApp
app = record {
  name = "shop";
  namespace = "prod";
  conditions =
      record { kind = "ReconcileFailed"; status = "False"; message = "" }
      ∷ record { kind = "ReconcileSucceeded"; status = "True"; message = "" }
      ∷ [];
  useful_error_message = "";
  deploy = some (record { finished = true; error = "" });
}

abbrev reconciled : AppServer World
reconciled = record {
  apply = λ a w. (none, w);
  get = λ namespace name w. (ok app, w);
  delete = λ namespace name w. (none, w);
  is_not_found = λ e. true;
}

abbrev text : Error → String
text _ = "failed"

abbrev marshal : PackageStatus → Result (List ℕ)
marshal _ = ok (123 ∷ 125 ∷ [])

abbrev kapp : PackageProvider World
kapp = package_provider reconciled kinds text 5 6

-- The world is whether the App is there.
abbrev get : String → String → Bool → Result ObservedApp × Bool
get namespace name true = (ok app, true)
get namespace name false = (err (errorf "not found"), false)

abbrev removing : AppServer Bool
removing = record {
  apply = λ a w. (none, true);
  get = get;
  delete = λ namespace name w. (none, w);
  is_not_found = λ e. true;
}

abbrev present : Bool → String → String → Bool
present w namespace name = w

missing :
    (w : Bool) (namespace name : String) (e : Error)
    → (get namespace name w).0 ≡ err e
    → present (get namespace name w).1 namespace name ≡ false
missing true namespace name e h = cc
missing false namespace name e h = refl

there :
    (w : Bool) (namespace name : String) (a : ObservedApp)
    → (get namespace name w).0 ≡ ok a
    → present (get namespace name w).1 namespace name ≡ true
there true namespace name a h = refl
there false namespace name a h = cc

removing-Finds : Finds removing present
removing-Finds = record {
  missing = λ w namespace name e h found. missing w namespace name e h;
  there = there;
}

teardown_package-IsSettled_example :
    IsSettled removing present removing-Finds shop
      (teardown_package (some (application_provider removing kinds text 5 6)) shop true)
teardown_package-IsSettled_example =
    teardown_package-IsSettled removing present removing-Finds kinds text 5 6
      (application_provider removing kinds text 5 6) shop true (inr refl)
