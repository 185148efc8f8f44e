-- ===== src/Build/Mapper.antt =====
-- pkg/apis/build/application/mapper.go and backend_selector.go: the spec that the providers take,
-- and which of them takes it. BuildSpec is in pkg/apis/build/domain/model.go.
pub mod Laws
mod Examples
use environments.Common.{
  String, Bool, true, false, Option, none, some, ◌==◌, if◌then◌else◌, contains, Result, ok, err,
  errorf_of, errorf, Error, wrap, wrap_of, ◌>>=◌,
}
use environments.Resolution.Build.{
  ResolvedServiceAccount, ResolvedBuildSpec, ResolvedBuild, strategy_kind_cluster,
  strategy_kind_namespaced,
}
use environments.Build.Object.{BuildObject}

-- The fields that the mapper sets; TimeoutSeconds, Params and Policy stay nil.
pub record BuildSpec : Type 0 where
  pub source_url : String
  pub context_dir : String
  pub revision : String
  pub clone_secret : String
  pub strategy_name : String
  pub strategy_kind : String
  pub image : String
  pub service_account_name : String
  pub service_account_secret : String

abbrev pub no_build : Error
no_build = wrap "no resolved build" (errorf "invalid build")

-- fmt.Errorf("%w: build %q …", domain.ErrInvalidBuild, name)
abbrev pub invalid_build : String → String → Error
invalid_build text name = wrap_of text name (errorf "invalid build")

abbrev account_name : Option ResolvedServiceAccount → String
account_name none = ""
account_name (some a) = a.name

abbrev account_secret : Option ResolvedServiceAccount → String
account_secret none = ""
account_secret (some a) = a.secret

-- the Shipwright kind for the contract's spelling
shipwright_kind : String → String → Result String
shipwright_kind name kind =
    if kind == strategy_kind_cluster
    then ok "ClusterBuildStrategy"
    else if kind == strategy_kind_namespaced
    then ok "BuildStrategy"
    else err (invalid_build "has unsupported strategy kind" name)

required : String → String → String → Result String
required text name value = if value == "" then err (invalid_build text name) else ok value

module _ {Uint32 : Type 0} where
  -- A nil argument stands for each of the three nil checks.
  unfoldable pub map_resolved_to_domain :
      Option (ResolvedBuild BuildObject Uint32) → Result BuildSpec
  unfolding shipwright_kind required
  map_resolved_to_domain none = err no_build
  map_resolved_to_domain (some rb) = do
    url ← required "has no source url" rb.build.name rb.spec.source.url
    name ← required "has no strategy name" rb.build.name rb.spec.strategy.name
    kind ← shipwright_kind rb.build.name rb.spec.strategy.strategy_kind
    ok (record {
      source_url = url;
      context_dir = rb.spec.source.context_dir;
      revision = rb.spec.source.revision;
      clone_secret = rb.spec.source.clone_secret;
      strategy_name = name;
      strategy_kind = kind;
      image = rb.spec.image;
      service_account_name = account_name rb.spec.service_account;
      service_account_secret = account_secret rb.spec.service_account;
    })

-- The zero value, which a teardown uses for a Build that cannot be mapped.
abbrev pub zero_spec : BuildSpec
zero_spec = record {
  source_url = "";
  context_dir = "";
  revision = "";
  clone_secret = "";
  strategy_name = "";
  strategy_kind = "";
  image = "";
  service_account_name = "";
  service_account_secret = "";
}

-- `BackendSelector`, of providers of any type
pub record BackendSelector (Provider : Type 0) : Type 0 where
  pub buildah : Provider
  pub kaniko : Provider
  pub buildpacks : Provider

unfoldable pub for_spec : {Provider : Type 0} → BackendSelector Provider → BuildSpec → Provider
for_spec backend spec =
    if contains spec.strategy_name "buildah"
    then backend.buildah
    else if contains spec.strategy_name "kaniko"
    then backend.kaniko
    else if contains spec.strategy_name "buildpacks"
    then backend.buildpacks
    else backend.buildah
