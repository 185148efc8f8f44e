-- ===== src/Package.antt =====
-- pkg/apis/packages/domain (model.go, result.go): what a Package is to its provider. Times are
-- numbers, 0 the zero time; what an App reports of its deploys, which the writer of the status does
-- not read, is left out. An InvalidSpecError is the text that it prints.
pub mod Plan
pub mod Status
pub mod Service
pub mod App
use environments.Common.{
  ℕ, String, Bool, ◌||◌, Option, List, ◌==◌, if◌then◌else◌, Error, errorf_of, wrap, Result, ok, err,
}
use environments.Build.Object.{StringMap}

-- what is read of a Package resource
pub record PackageObject : Type 0 where
  pub name : String
  pub namespace : String
  pub uid : String
  pub labels : StringMap

pub record PackageId : Type 0 where
  pub namespace : String
  pub name : String

pub record PackageSource : Type 0 where
  pub repository_url : String
  pub credentials_secret : String
  pub path : String

pub record StateRepository : Type 0 where
  pub url : String
  pub ref : String
  pub clone_secret : String
  pub strategy : String
  pub path : String

pub record Maintainer : Type 0 where
  pub name : String
  pub email : String

pub data ApplyStrategy : Type 0 where
  kustomize : ApplyStrategy
  plain_yaml : ApplyStrategy

-- InvalidSpecError{Msg}, by its Error()
abbrev pub invalid_spec : Error → Error
invalid_spec message = wrap "invalid package spec" message

unfoldable pub parse_apply_strategy : String → Result ApplyStrategy
parse_apply_strategy strategy =
    if strategy == "kustomization" || strategy == "kustomize"
    then ok kustomize
    else if strategy == "" || strategy == "plain"
    then ok plain_yaml
    else err (invalid_spec (errorf_of "unsupported apply strategy" strategy))

pub record KappResult : Type 0 where
  pub name : String
  pub namespace : String
  pub executed : Bool
  pub deploy_finished : Bool
  pub action : String
  pub diff : String
  pub output : String
  pub error : String

pub record PackageResult : Type 0 where
  pub success : Bool
  pub phase : String
  pub message : String
  pub desired_ref : String
  pub desired_commit : String
  pub kapp : KappResult
  pub started_at : ℕ
  pub finished_at : ℕ

-- the contract of a Package's status
pub record PackageStatus : Type 0 where
  pub phase : String
  pub success : Bool
  pub message : String
  pub desired_ref : String
  pub desired_commit : String
  pub executed : Bool
  pub kapp_action : String
  pub diff : String
  pub started_at : ℕ
  pub finished_at : ℕ
