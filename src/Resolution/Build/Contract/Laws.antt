-- ===== src/Resolution/Build/Contract/Laws.antt =====
-- What the contract of a Build, and so its execution hash, tells apart.
use environments.Common.{
  String, ◌≡◌, ◌≢◌, refl, sym, ap, ◌∙◌, ◌↔◌, Option, none, some, List, [], ◌∷◌, map, ◌==◌,
  some-injective, Bool-cases, inl, inr, eq_iff,
}
use environments.Resolution.Build.{ResolvedSource, ResolvedRetryPolicy, ResolvedBuildSpec}
use environments.Resolution.Build.Contract.{
  TriggerEnum, PolicyContract, source_contract, strategy_contract, policy_contract,
  to_build_contract, trigger_type_to_proto,
}

source_contract-some : (a : ResolvedSource) → a.url ≢ "" → source_contract a ≡ some a
unfolding source_contract
source_contract-some a h = elim (Bool-cases (a.url == "")) [
  | inl empty ↦ absurd (h ((eq_iff a.url "").0 empty))
  | inr present ↦ rw present refl
]

strategy_contract-some : (a : String) → a ≢ "" → strategy_contract a ≡ some a
unfolding strategy_contract
strategy_contract-some a h = elim (Bool-cases (a == "")) [
  | inl empty ↦ absurd (h ((eq_iff a "").0 empty))
  | inr present ↦ rw present refl
]

module _ {Enum Uint32 : Type 0} (enum : TriggerEnum Enum) where
  retry_in : Option (PolicyContract Enum Uint32) → Option (ResolvedRetryPolicy Uint32)
  retry_in none = none
  retry_in (some p) = p.retry

  triggers_in : Option (PolicyContract Enum Uint32) → List Enum
  triggers_in none = []
  triggers_in (some p) = p.allowed_triggers

  retry_in-policy_contract :
      (ts : List String) (r : Option (ResolvedRetryPolicy Uint32))
      → retry_in (policy_contract enum ts r) ≡ r
  unfolding retry_in policy_contract
  retry_in-policy_contract [] none = refl
  retry_in-policy_contract [] (some r) = refl
  retry_in-policy_contract (t ∷ ts) r = refl

  triggers_in-policy_contract :
      (ts : List String) (r : Option (ResolvedRetryPolicy Uint32))
      → triggers_in (policy_contract enum ts r) ≡ map (trigger_type_to_proto enum) ts
  unfolding triggers_in policy_contract
  triggers_in-policy_contract [] none = refl
  triggers_in-policy_contract [] (some r) = refl
  triggers_in-policy_contract (t ∷ ts) r = refl

  policy_contract-same :
      (ts us : List String) (r q : Option (ResolvedRetryPolicy Uint32))
      → map (trigger_type_to_proto enum) ts ≡ map (trigger_type_to_proto enum) us
      → r ≡ q
      → policy_contract enum ts r ≡ policy_contract enum us q
  unfolding policy_contract
  policy_contract-same [] [] r q ts h = ap (policy_contract enum []) h
  policy_contract-same [] (u ∷ us) r q ts h = cc
  policy_contract-same (t ∷ ts) [] r q same h = cc
  policy_contract-same (t ∷ ts) (u ∷ us) r q same h =
      λ i. some (record { allowed_triggers = same i; retry = h i })

  -- Two resolved Builds agree on all that an execution depends on, but for the strategy's kind and
  -- for triggers that the enum does not tell apart.
  pub record SameExecution (a b : ResolvedBuildSpec Uint32) : Type 0 where
    pub same_image : a.image ≡ b.image
    pub same_event : a.githubevent ≡ b.githubevent
    pub same_source : a.source ≡ b.source
    pub same_strategy : a.strategy.name ≡ b.strategy.name
    pub same_account : a.service_account ≡ b.service_account
    pub same_retry : a.policy.retry ≡ b.policy.retry
    pub same_triggers :
        map (trigger_type_to_proto enum) a.policy.triggers
        ≡ map (trigger_type_to_proto enum) b.policy.triggers

  -- Two Builds that have a source URL and a strategy name project to the same contract exactly when
  -- they agree on image, event, source, strategy name, service account, retry policy and the enum
  -- values of their triggers; so the hash input reflects each of these, and nothing of the
  -- strategy's kind.
  pub to_build_contract-SameExecution :
      (a b : ResolvedBuildSpec Uint32)
      → a.source.url ≢ ""
      → b.source.url ≢ ""
      → a.strategy.name ≢ ""
      → b.strategy.name ≢ ""
      → (to_build_contract enum (some a) ≡ to_build_contract enum (some b)) ↔ SameExecution a b
  unfolding to_build_contract
  to_build_contract-SameExecution a b a_url b_url a_name b_name = (
    λ same.
        let contracts = some-injective same in
        let policies = ap (λ c. c.policy) contracts in
        record {
          same_image = ap (λ c. c.image) contracts;
          same_event = ap (λ c. c.github_event) contracts;
          same_source = some-injective (
              sym (source_contract-some a.source a_url)
              ∙ ap (λ c. c.source) contracts
              ∙ source_contract-some b.source b_url);
          same_strategy = some-injective (
              sym (strategy_contract-some _ a_name)
              ∙ ap (λ c. c.strategy_name) contracts
              ∙ strategy_contract-some _ b_name);
          same_account = ap (λ c. c.service_account) contracts;
          same_retry =
              sym (retry_in-policy_contract _ _)
              ∙ ap retry_in policies
              ∙ retry_in-policy_contract _ _;
          same_triggers =
              sym (triggers_in-policy_contract _ _)
              ∙ ap triggers_in policies
              ∙ triggers_in-policy_contract _ _;
        },
    λ same. λ i. some (record {
      image = same.same_image i;
      github_event = same.same_event i;
      source = source_contract (same.same_source i);
      strategy_name = strategy_contract (same.same_strategy i);
      service_account = same.same_account i;
      policy = policy_contract-same _ _ _ _ same.same_triggers same.same_retry i;
    }),
  )
