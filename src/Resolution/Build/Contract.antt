-- ===== src/Resolution/Build/Contract.antt =====
-- resolution/build/contract/contract_adapter.go: the part of a resolved Build that is hashed and
-- audited. The generated enum of trigger types is a parameter.
pub mod Laws
mod Examples
use environments.Common.{
  ℕ, String, Bool, true, false, ◌||◌, Option, none, some, List, [], ◌∷◌, ◌==◌, if◌then◌else◌, map,
  is_some,
}
use environments.Resolution.Build.{
  ResolvedSource, ResolvedServiceAccount, ResolvedRetryPolicy, ResolvedBuildPolicy,
  ResolvedBuildSpec,
}

pub record TriggerEnum (Enum : Type 0) : Type 0 where
  pub commit : Enum
  pub pull_request : Enum
  pub manual : Enum
  pub unspecified : Enum

pub record PolicyContract (Enum Uint32 : Type 0) : Type 0 where
  pub allowed_triggers : List Enum
  pub retry : Option (ResolvedRetryPolicy Uint32)

-- contractv1.BuildSpec; of its messages GitSource, ServiceAccount and RetryPolicy the fields that are
-- set are those of the resolved ones, and of BuildStrategy only the name is.
pub record BuildContract (Enum Uint32 : Type 0) : Type 0 where
  pub image : String
  pub github_event : String
  pub source : Option ResolvedSource
  pub strategy_name : Option String
  pub service_account : Option ResolvedServiceAccount
  pub policy : Option (PolicyContract Enum Uint32)

abbrev has_any : List String → Bool
has_any [] = false
has_any (t ∷ ts) = true

source_contract : ResolvedSource → Option ResolvedSource
source_contract source = if source.url == "" then none else some source

strategy_contract : String → Option String
strategy_contract name = if name == "" then none else some name

module _ {Enum : Type 0} (enum : TriggerEnum Enum) where
  pub trigger_type_to_proto : String → Enum
  trigger_type_to_proto t =
      if t == "push"
      then enum.commit
      else if t == "pull_request"
      then enum.pull_request
      else if t == "manual"
      then enum.manual
      else enum.unspecified

module _ {Enum Uint32 : Type 0} (enum : TriggerEnum Enum) where
  policy_contract :
      List String → Option (ResolvedRetryPolicy Uint32) → Option (PolicyContract Enum Uint32)
  policy_contract triggers retry =
      if has_any triggers || is_some retry
      then some
          (record { allowed_triggers = map (trigger_type_to_proto enum) triggers; retry = retry })
      else none

  -- A nil spec has no contract. The policy that resolution returns is never nil.
  unfoldable pub to_build_contract :
      Option (ResolvedBuildSpec Uint32) → Option (BuildContract Enum Uint32)
  unfolding source_contract strategy_contract policy_contract
  to_build_contract none = none
  to_build_contract (some s) = some (record {
    image = s.image;
    github_event = s.githubevent;
    source = source_contract s.source;
    strategy_name = strategy_contract s.strategy.name;
    service_account = s.service_account;
    policy = policy_contract s.policy.triggers s.policy.retry;
  })
