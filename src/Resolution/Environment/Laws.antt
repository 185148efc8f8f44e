-- ===== src/Resolution/Environment/Laws.antt =====
-- What a resolved Environment says of its contract.
use environments.Common.{some}
use environments.Json.{Fields}
use environments.Json.Laws.{Holds, Reads}
use environments.Resolution.Environment.{ResolvedEnvironmentSpec, ResolvedEnvironment}
use environments.Resolution.Environment.Sections.{MatchesReference, ListsUnits, IsStoreOf}

module _ {Float64 : Type 0} where
  pub record IsEnvironmentOf (m : Fields Float64) (s : ResolvedEnvironmentSpec) : Type 0 where
    pub application_name : Holds m "applicationName" s.application_name
    pub branch : Holds m "branch" s.branch
    pub git_owner : Holds m "gitOwner" s.git_owner
    pub environment_type : Holds m "environmentType" s.environment_type
    pub version : Holds m "version" s.version
    pub description : Reads m "description" s.description
    pub build : MatchesReference m "build" s.build
    pub git_repository : MatchesReference m "gitRepository" s.git_repository
    pub git_hub_event : MatchesReference m "gitHubEvent" s.git_hub_event
    pub deployment : MatchesReference m "deployment" s.deployment
    pub route : MatchesReference m "route" s.route
    pub domain : MatchesReference m "domain" s.domain
    pub packages : MatchesReference m "package" s.packages
    pub service_units : ListsUnits m s.service_units
    pub secret_store : IsStoreOf m s.contract.secret_store

abbrev paired : {Object : Type 0} → Object → ResolvedEnvironmentSpec → ResolvedEnvironment Object
paired o s = record { environment = some o; spec = some s }
