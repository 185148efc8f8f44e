-- ===== src/Package/App.antt =====
-- pkg/apis/packages/api (application.go, package.go): both providers. The API server, and how
-- kapp-controller spells the types of an App's conditions, are parameters. The times and the exit
-- code of a deploy are left out; `start` and `finish` are the times that a result is stamped with.
-- Of the App that is built, what differs between Packages is kept.
pub mod Laws
pub mod Recorded
pub mod Teardown
mod Examples
use environments.Common.{
  ℕ, String, Bool, true, false, ◌&&◌, not, Option, none, some, List, [], ◌∷◌, ◌==◌, if◌then◌else◌,
  ◌^◌, Error, errorf, wrap_of, Result, ok, err, Effect, Exec,
}
use environments.Build.Object.{StringMap}
use environments.Package.{PackageId, KappResult, PackageResult}
use environments.Package.Plan.{PackageIntent}
use environments.Package.Service.{PackageProvider}

pub record OwnerReference : Type 0 where
  pub kind : String
  pub name : String
  pub uid : String

pub record KappApp : Type 0 where
  pub name : String
  pub namespace : String
  pub labels : StringMap
  pub owner : Option OwnerReference
  pub service_account_name : String
  pub git_url : String
  pub git_ref : String
  pub git_secret : Option String
  pub git_sub_path : String

pub record AppCondition : Type 0 where
  pub kind : String
  pub status : String
  pub message : String

pub record AppDeployed : Type 0 where
  pub finished : Bool
  pub error : String

-- what is read of an App
pub record ObservedApp : Type 0 where
  pub name : String
  pub namespace : String
  pub conditions : List AppCondition
  pub useful_error_message : String
  pub deploy : Option AppDeployed

pub record ApplicationState : Type 0 where
  pub name : String
  pub namespace : String
  pub phase : String
  pub message : String
  pub deploy_finished : Bool

pub record AppKinds : Type 0 where
  pub reconcile_succeeded : String
  pub reconcile_failed : String

pub record AppServer (W : Type 0) : Type 0 where
  -- Patch, as a forced server-side apply
  pub apply : KappApp → Effect W
  pub get : String → String → Exec W ObservedApp
  pub delete : String → String → Effect W
  pub is_not_found : Error → Bool

package_service_account_name : PackageId → String
package_service_account_name id = id.name ^ "-package"

owner_references : PackageIntent → Option OwnerReference
owner_references intent =
    if intent.owner_uid == ""
    then none
    else some (record { kind = "Package"; name = intent.id.name; uid = intent.owner_uid })

fetch_secret_ref : String → Option String
fetch_secret_ref name = if name == "" then none else some name

unfoldable pub build_kapp_application : PackageIntent → KappApp
unfolding owner_references fetch_secret_ref package_service_account_name
build_kapp_application intent = record {
  name = intent.id.name;
  namespace = intent.id.namespace;
  labels = intent.labels;
  owner = owner_references intent;
  service_account_name = package_service_account_name intent.id;
  git_url = intent.source.repository_url;
  git_ref = intent.resolved_ref;
  git_secret = fetch_secret_ref intent.source.credentials_secret;
  git_sub_path = intent.source.path;
}

unfoldable pub read_deploy : String → Option AppDeployed → ApplicationState → ApplicationState
read_deploy useful none state = state
read_deploy useful (some d) state =
    if not (d.error == "") && useful == ""
    then record state { deploy_finished = d.finished; message = d.error }
    else record state { deploy_finished = d.finished }

module _ (kinds : AppKinds) where
  -- one round of the loop over the conditions
  unfoldable pub read_condition : String → ApplicationState → AppCondition → ApplicationState
  read_condition useful state c =
      if c.kind == kinds.reconcile_succeeded
      then (if c.status == "True"
          then record state { phase = "Ready" }
          else if c.status == "False"
          then record state { phase = "Failed"; message = c.message }
          else if c.status == "Unknown"
          then record state { phase = "Pending" }
          else state)
      else if c.kind == kinds.reconcile_failed
      then (if c.status == "True"
          then record state {
            phase = "Failed";
            message = if not (useful == "") then useful else c.message;
          }
          else state)
      else state

  unfoldable pub read_conditions : String → ApplicationState → List AppCondition → ApplicationState
  read_conditions useful state [] = state
  read_conditions useful state (c ∷ cs) = read_conditions useful (read_condition useful state c) cs

  unfoldable pub application_state_from_app : ObservedApp → ApplicationState
  application_state_from_app app = read_deploy app.useful_error_message app.deploy (
      read_conditions app.useful_error_message
        (record {
          name = app.name;
          namespace = app.namespace;
          phase = "Pending";
          message = "";
          deploy_finished = false;
        })
        app.conditions)

result_phase : String → String
result_phase phase =
    if phase == "Ready"
    then "Succeeded"
    else if phase == "Failed"
    then "Failed"
    else if phase == "Pending"
    then "Pending"
    else "Unknown"

-- a literal with the fields that are given; the rest is zero
abbrev no_kapp : KappResult
no_kapp = record {
  name = "";
  namespace = "";
  executed = false;
  deploy_finished = false;
  action = "";
  diff = "";
  output = "";
  error = "";
}

unfoldable pub package_result_from_application_state : ℕ → ℕ → ApplicationState → PackageResult
unfolding result_phase
package_result_from_application_state start finish state = record {
  success = state.phase == "Ready";
  phase = result_phase state.phase;
  message = state.message;
  desired_ref = "";
  desired_commit = "";
  kapp = record no_kapp {
    name = state.name;
    namespace = state.namespace;
    deploy_finished = state.deploy_finished;
  };
  started_at = start;
  finished_at = finish;
}

unfoldable pub failed_result : (Error → String) → ℕ → ℕ → Error → PackageResult
failed_result text start finish e = record {
  success = false;
  phase = "Failed";
  message = text e;
  desired_ref = "";
  desired_commit = "";
  kapp = no_kapp;
  started_at = start;
  finished_at = finish;
}

abbrev pub teardown_in_progress : Error
teardown_in_progress = errorf "package teardown in progress"

-- "namespace/name"
abbrev pub app_name : PackageId → String
app_name id = id.namespace ^ ("/" ^ id.name)

module _ {W : Type 0} (server : AppServer W) where
  after_get : PackageId → Result ObservedApp × W → Option Error × W
  after_get id (ok app, w) =
      (some (wrap_of "kapp app is still deleting" (app_name id) teardown_in_progress), w)
  after_get id (err e, w) =
      if server.is_not_found e
      then (none, w)
      else (some (wrap_of "get kapp app" (app_name id) e), w)

  after_delete : PackageId → Option Error × W → Option Error × W
  unfolding after_get
  after_delete id (none, w) = after_get id (server.get id.namespace id.name w)
  after_delete id (some e, w) =
      let read = after_get id (server.get id.namespace id.name w) in
      if not (server.is_not_found e)
      then (some (wrap_of "delete kapp app" (app_name id) e), w)
      else read

  unfoldable pub delete_application : PackageId → Effect W
  unfolding after_delete
  delete_application id w = after_delete id (server.delete id.namespace id.name w)

module _ {W : Type 0} (server : AppServer W) (kinds : AppKinds) (text : Error → String)
    (start finish : ℕ) where
  -- `observed` is what ObserveApplication makes of an error of Get
  finished_with :
      (PackageId → Error → Error)
      → PackageId
      → Result ObservedApp × W
      → (Option PackageResult × Option Error) × W
  finished_with observed id (err e, w) =
      let e = observed id e in ((some (failed_result text start finish e), some e), w)
  finished_with observed id (ok app, w) = (
    (
      some (
          package_result_from_application_state start finish
            (application_state_from_app kinds app)),
      none,
    ),
    w,
  )

  after_apply :
      (PackageId → Error → Error)
      → PackageIntent
      → Option Error × W
      → (Option PackageResult × Option Error) × W
  unfolding finished_with
  after_apply observed intent (some e, w) = ((some (failed_result text start finish e), some e), w)
  after_apply observed intent (none, w) =
      finished_with observed intent.id (server.get intent.id.namespace intent.id.name w)

  unfoldable pub execute_app :
      (PackageId → Error → Error) → PackageIntent → W → (Option PackageResult × Option Error) × W
  unfolding after_apply
  execute_app observed intent w =
      after_apply observed intent (server.apply (build_kapp_application intent) w)

  unfoldable pub package_provider : PackageProvider W
  package_provider = record {
    execute = execute_app λ id e. e;
    teardown = delete_application server;
  }

  unfoldable pub application_provider : PackageProvider W
  application_provider = record {
    execute = execute_app λ id e. wrap_of "failed to get kapp App" (app_name id) e;
    teardown = delete_application server;
  }
