-- ===== src/Build/Shipwright.antt =====
-- The Shipwright objects that a provider makes: CreateBuildSpec and CreateBuildRunSpec of
-- pkg/apis/build/api/kaniko.go (buildah.go and buildpacks.go hold them again, with the same body),
-- and pkg/apis/build/api/declared.go. A pointer to a text that is always set is the text.
pub mod Laws
use environments.Common.{
  String, Option, none, some, [], ◌∷◌, ◌==◌, ◌^◌, if◌then◌else◌, Result, ok, err, errorf,
}
use environments.Resolution.Build.{ResolvedServiceAccount, ResolvedBuild}
use environments.Build.Object.{StringMap, BuildObject, annotation}
use environments.Build.Image.{replace_image_tag, short_hash}
use environments.Build.Mapper.{BuildSpec}
use environments.Build.Trigger.{trigger_sha}

-- `owner` is the controller reference, which SetControllerReference adds.
pub record ShipwrightBuild : Type 0 where
  pub name : String
  pub namespace : String
  pub labels : StringMap
  pub source_url : String
  pub context_dir : String
  pub revision : String
  pub source_credentials : Option String
  pub strategy_name : String
  pub strategy_kind : String
  pub output_image : String
  pub output_credentials : Option String
  pub owner : Option String
  pub resource_version : String

pub record ShipwrightBuildRun : Type 0 where
  pub name : String
  pub namespace : String
  pub labels : StringMap
  pub annotations : StringMap
  pub build_ref : String
  pub service_account : Option String
  pub owner : Option String

-- nil for a value that the contract does not declare
unfoldable pub secret_ref : String → Option String
secret_ref name = if name == "" then none else some name

account_of : Option ResolvedServiceAccount → Option String
account_of none = none
account_of (some a) = if a.name == "" then none else some a.name

unfoldable pub run_service_account :
    {Uint32 : Type 0} → ResolvedBuild BuildObject Uint32 → Option String
unfolding account_of
run_service_account rb = account_of rb.spec.service_account

-- the tag and the revision, which the commit of a trigger replaces
triggered : String → String → String
triggered sha declared = if sha == "" then declared else sha

tagged_image : String → String → String
tagged_image sha image = if sha == "" then image else replace_image_tag image sha

unfoldable pub build_object : BuildSpec → BuildObject → String → ShipwrightBuild
unfolding triggered tagged_image
build_object spec b sha = record {
  name = b.name;
  namespace = b.namespace;
  labels = ("build.blanketops.dev/name", b.name) ∷ ("strategy", spec.strategy_name) ∷ [];
  source_url = spec.source_url;
  context_dir = spec.context_dir;
  revision = triggered sha spec.revision;
  source_credentials = secret_ref spec.clone_secret;
  strategy_name = spec.strategy_name;
  strategy_kind = spec.strategy_kind;
  output_image = tagged_image sha spec.image;
  output_credentials = secret_ref spec.service_account_secret;
  owner = none;
  resource_version = "";
}

unfoldable pub create_build_spec : BuildSpec → BuildObject → Result ShipwrightBuild
unfolding build_object
create_build_spec spec b =
    if spec.source_url == ""
    then err (errorf "missing source URL")
    else if spec.image == ""
    then err (errorf "missing image target")
    else ok (build_object spec b (annotation b trigger_sha))

unfoldable pub run_name : String → String → String
run_name build hash = build ^ "-" ^ short_hash hash

unfoldable pub create_build_run_spec :
    {Uint32 : Type 0}
    → ResolvedBuild BuildObject Uint32
    → ShipwrightBuild
    → String
    → ShipwrightBuildRun
create_build_run_spec rb ship hash = record {
  name = run_name rb.build.name hash;
  namespace = rb.build.namespace;
  labels =
      ("build.blanketops.dev/name", rb.build.name)
      ∷ ("build-hash", short_hash hash)
      ∷ ("shipwright-build", ship.name)
      ∷ [];
  annotations = ("build.blanketops.dev/hash", hash) ∷ [];
  build_ref = ship.name;
  service_account = run_service_account rb;
  owner = none;
}
