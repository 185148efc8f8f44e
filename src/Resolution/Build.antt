-- ===== src/Resolution/Build.antt =====
-- resolution/build/resolve/resolve.go. Go's uint32 and its conversion from float64 are parameters;
-- encoding/json makes no `int`, so that case of optionalUint32 never applies.
mod Policy
pub mod Contract
pub mod Laws
mod Examples
use environments.Common.{
  ℕ, String, ◌≡◌, ◌↔◌, Bool, true, false, ◌&&◌, ◌||◌, Option, none, some, List, [], ◌∷◌, ◌==◌,
  if◌then◌else◌, Result, ok, err, errorf, errorf_of, labelled, ◌>>=◌,
}
use environments.Json.{
  Json, num, obj, Fields, lookup, as_string, as_map, as_list, is_declared, must_string,
  optional_string, optional_bool,
}
use environments.Resolution.Contract.{decode_contract}

pub record Uint32Of (Float64 Uint32 : Type 0) : Type 0 where
  pub zero32 : Uint32
  pub of_float64 : Float64 → Uint32
  pub is_zero : Uint32 → Bool
  pub is_zero_iff : (n : Uint32) → (is_zero n ≡ true) ↔ (n ≡ zero32)

pub record ResolvedSource : Type 0 where
  pub url : String
  pub revision : String
  pub context_dir : String
  pub clone_secret : String

abbrev pub strategy_kind_cluster : String
strategy_kind_cluster = "ClusterBuildStrategy"

abbrev pub strategy_kind_namespaced : String
strategy_kind_namespaced = "NamespacedBuildStrategy"

pub record ResolvedStrategy : Type 0 where
  pub name : String
  pub strategy_kind : String

pub record ResolvedServiceAccount : Type 0 where
  pub name : String
  pub secret : String

pub record ResolvedRetryPolicy (Uint32 : Type 0) : Type 0 where
  pub on_failure : Bool
  pub max_attempts : Uint32

pub record ResolvedBuildPolicy (Uint32 : Type 0) : Type 0 where
  -- the type of each trigger
  pub triggers : List String
  pub retry : Option (ResolvedRetryPolicy Uint32)

pub record ResolvedBuildSpec (Uint32 : Type 0) : Type 0 where
  pub image : String
  pub source : ResolvedSource
  pub githubevent : String
  pub strategy : ResolvedStrategy
  pub service_account : Option ResolvedServiceAccount
  pub policy : ResolvedBuildPolicy Uint32

pub record ResolvedBuild (Object Uint32 : Type 0) : Type 0 where
  pub build : Object
  pub spec : ResolvedBuildSpec Uint32

-- a map that must be there
demand_map : {A : Type 0} → String → Option A → Result A
demand_map text none = err (errorf text)
demand_map text (some m) = ok m

check_strategy_kind : String → Result String
check_strategy_kind kind =
    if kind == strategy_kind_cluster || kind == strategy_kind_namespaced
    then ok kind
    else err (errorf_of "unsupported strategy.kind" kind)

with_trigger : Option String → List String → List String
with_trigger none ts = ts
with_trigger (some t) ts = t ∷ ts

module _ {Float64 : Type 0} where
  -- a secret that is declared and reads as empty is refused
  check_clone_secret : Fields Float64 → ResolvedSource → Result ResolvedSource
  check_clone_secret r source =
      if is_declared (lookup "cloneSecret" r) && source.clone_secret == ""
      then err (errorf "source.cloneSecret declared but resolved empty")
      else ok source

  unfoldable pub resolve_build_source : Fields Float64 → Result ResolvedSource
  unfolding check_clone_secret
  resolve_build_source r = do
    url ← labelled "source.url" (must_string r "url")
    check_clone_secret r (record {
      url = url;
      revision = optional_string r "revision";
      context_dir = optional_string r "contextDir";
      clone_secret = optional_string r "cloneSecret";
    })

  unfoldable pub resolve_build_strategy : Fields Float64 → Result ResolvedStrategy
  unfolding check_strategy_kind
  resolve_build_strategy r = do
    name ← labelled "strategy.name" (must_string r "name")
    kind ← labelled "strategy.kind" (must_string r "kind")
    kind ← check_strategy_kind kind
    ok (record { name = name; strategy_kind = kind })

  account_of : Option (Fields Float64) → Option ResolvedServiceAccount
  account_of none = none
  account_of (some r) =
      some (record { name = optional_string r "name"; secret = optional_string r "secret" })

  -- an entry that is no object, or has no text as its type, is passed over
  trigger_of : Json Float64 → Option String
  trigger_of (obj t) = as_string (lookup "type" t)
  trigger_of _ = none

  -- the loop over `triggersRaw`
  unfoldable pub triggers_of : List (Json Float64) → List String
  unfolding trigger_of with_trigger
  triggers_of [] = []
  triggers_of (v ∷ vs) = with_trigger (trigger_of v) (triggers_of vs)

  listed_triggers : Option (List (Json Float64)) → List String
  listed_triggers none = []
  listed_triggers (some vs) = triggers_of vs

module _ {Float64 Uint32 : Type 0} (ints : Uint32Of Float64 Uint32) where
  uint32_value : Option (Json Float64) → Uint32
  uint32_value (some (num v)) = ints.of_float64 v
  uint32_value _ = ints.zero32

  unfoldable pub optional_uint32 : Fields Float64 → String → Uint32
  unfolding uint32_value
  optional_uint32 m key = uint32_value (lookup key m)

  check_retry : ResolvedRetryPolicy Uint32 → Result (ResolvedRetryPolicy Uint32)
  check_retry retry =
      if retry.on_failure && ints.is_zero retry.max_attempts
      then err (errorf "policy.retry.maxAttempts must be > 0 when onFailure=true")
      else ok retry

  retry_of : Option (Fields Float64) → Result (Option (ResolvedRetryPolicy Uint32))
  unfolding check_retry
  retry_of none = ok none
  retry_of (some r) = do
    retry ← check_retry (record {
      on_failure = optional_bool r "onFailure" false;
      max_attempts = optional_uint32 r "maxAttempts";
    })
    ok (some retry)

  unfoldable pub resolve_policy : Option (Fields Float64) → Result (ResolvedBuildPolicy Uint32)
  unfolding listed_triggers retry_of
  resolve_policy none = ok (record { triggers = []; retry = none })
  resolve_policy (some p) = do
    retry ← retry_of (as_map (lookup "retry" p))
    ok (record { triggers = listed_triggers (as_list (lookup "allowedTriggers" p)); retry = retry })

  unfoldable pub resolve_build_spec : Fields Float64 → Result (ResolvedBuildSpec Uint32)
  unfolding demand_map account_of
  resolve_build_spec m = do
    src ← demand_map "source is required" (as_map (lookup "source" m))
    source ← resolve_build_source src
    image ← labelled "image" (must_string m "image")
    strat ← demand_map "strategy is required" (as_map (lookup "strategy" m))
    strategy ← resolve_build_strategy strat
    policy ← resolve_policy (as_map (lookup "policy" m))
    ok (record {
      image = image;
      source = source;
      githubevent = optional_string m "githubevent";
      strategy = strategy;
      service_account = account_of (as_map (lookup "serviceAccount" m));
      policy = policy;
    })

  module _ {Object : Type 0} (raw : Object → List ℕ)
      (unmarshal : List ℕ → Result (Fields Float64)) where
    unfoldable pub resolve_build : Option Object → Result (ResolvedBuild Object Uint32)
    resolve_build o = do
      (b, m) ← decode_contract raw unmarshal "build is nil" "failed to decode raw contract" o
      spec ← resolve_build_spec m
      ok (record { build = b; spec = spec })
