-- ===== src/Package/Service/Examples.antt =====
-- A run whose App is still being deployed, written beside one conflicting writer.
use environments.Common.{ℕ, String, none, some, List, [], ◌∷◌, Error, Result, ok, true, false}
use environments.Status.Samples.{World}
use environments.Resolution.Packages.{ResolvedPackage}
use environments.Package.{PackageObject, PackageResult, PackageStatus, plain_yaml}
use environments.Package.Plan.{PackageIntent}
use environments.Package.Service.{PackageProvider}

abbrev object : PackageObject
object = record { name = "shop"; namespace = "prod"; uid = "u-1"; labels = [] }

abbrev resolved : ResolvedPackage PackageObject
resolved = record {
  packages = object;
  spec = record {
    name = "shop";
    version = "1.2.0";
    description = "";
    diff_enabled = false;
    package_repository = record {
      url = "https://example.org/p.git";
      credentials_secret = "";
      ref = "main";
      path = "";
    };
    state_repository = none;
    maintainers = [];
  };
}

abbrev intent : PackageIntent
intent = record {
  id = record { namespace = "prod"; name = "shop" };
  owner_uid = "u-1";
  labels = [];
  source = record {
    repository_url = "https://example.org/p.git";
    credentials_secret = "";
    path = "";
  };
  state_repo = record { url = ""; ref = ""; clone_secret = ""; strategy = ""; path = "" };
  diff_enabled = false;
  strategy = plain_yaml;
  resolved_ref = "main";
  resolved_commit = "";
}

abbrev deploying : PackageResult
deploying = record {
  success = false;
  phase = "Reconciling";
  message = "deploying";
  desired_ref = "main";
  desired_commit = "";
  kapp = record {
    name = "shop";
    namespace = "prod";
    executed = true;
    deploy_finished = false;
    action = "Apply";
    diff = "Unknown";
    output = "";
    error = "";
  };
  started_at = 5;
  finished_at = 6;
}

abbrev kapp : PackageProvider World
kapp = record { execute = λ i w. ((some deploying, none), w); teardown = λ id w. (none, w) }

abbrev text : Error → String
text _ = "failed"

abbrev marshal : PackageStatus → Result (List ℕ)
marshal _ = ok (123 ∷ 125 ∷ [])
