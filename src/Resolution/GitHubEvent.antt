-- ===== src/Resolution/GitHubEvent.antt =====
-- resolution/githubevent: the resolver, and the part of an event that is compared and audited. The
-- generated enum of event types is a parameter.
pub mod Laws
use environments.Common.{
  ℕ, String, Bool, true, false, Option, none, some, List, ◌==◌, if◌then◌else◌, Result, ok, err,
  errorf, labelled, ◌>>=◌,
}
use environments.Json.{Json, obj, Fields, lookup, must_string, optional_string}
use environments.Resolution.Contract.{decode_contract}

pub record ResolvedSecretRef : Type 0 where
  pub name : String
  pub key : String

pub record ResolvedGitHubEventSpec : Type 0 where
  pub repository : String
  pub event_type : String
  pub event_id : String
  pub ref : String
  pub commit_sha : String
  pub actor : String
  -- webhook.secretRef
  pub webhook : ResolvedSecretRef

pub record ResolvedGitHubEvent (Object : Type 0) : Type 0 where
  pub event : Object
  pub spec : ResolvedGitHubEventSpec

-- Go's zero value
abbrev pub no_secret : ResolvedSecretRef
no_secret = record { name = ""; key = "" }

module _ {Float64 : Type 0} where
  present_secret : Option (Json Float64) → Result ResolvedSecretRef
  present_secret none = ok no_secret
  present_secret (some (obj m)) = do
    name ← labelled "webhook.secretRef.name" (must_string m "name")
    key ← labelled "webhook.secretRef.key" (must_string m "key")
    ok (record { name = name; key = key })
  present_secret _ = err (errorf "field \"webhook.secretRef\" must be an object")

  present_webhook : Option (Json Float64) → Result ResolvedSecretRef
  unfolding present_secret
  present_webhook none = ok no_secret
  present_webhook (some (obj m)) = present_secret (lookup "secretRef" m)
  present_webhook _ = err (errorf "field \"webhook\" must be an object")

  pub resolve_webhook : Fields Float64 → Result ResolvedSecretRef
  unfolding present_webhook
  resolve_webhook m = present_webhook (lookup "webhook" m)

  unfoldable pub resolve_github_event_spec : Fields Float64 → Result ResolvedGitHubEventSpec
  unfolding resolve_webhook
  resolve_github_event_spec m = do
    repo ← must_string m "repository"
    event_type ← must_string m "eventType"
    webhook ← resolve_webhook m
    ok (record {
      repository = repo;
      event_type = event_type;
      event_id = optional_string m "eventId";
      ref = optional_string m "ref";
      commit_sha = optional_string m "commitSHA";
      actor = optional_string m "actor";
      webhook = webhook;
    })

module _ {Object Float64 : Type 0} (raw : Object → List ℕ)
    (unmarshal : List ℕ → Result (Fields Float64)) where
  unfoldable pub resolve_github_event : Option Object → Result (ResolvedGitHubEvent Object)
  resolve_github_event o = do
    (ev, m) ← decode_contract raw unmarshal "GitHubEvent is nil" "failed to decode raw contract" o
    spec ← resolve_github_event_spec m
    ok (record { event = ev; spec = spec })

-- The generated message GitHubEventType holds one enum value.
pub record EventEnum (Enum : Type 0) : Type 0 where
  pub push : Enum
  pub pull_request : Enum
  pub release : Enum
  pub manual : Enum
  pub unspecified : Enum

pub record GitHubEventContract (Enum : Type 0) : Type 0 where
  pub repository : String
  pub event_type : Enum
  pub ref : String
  pub commit_sha : String
  pub actor : String
  pub event_id : String

module _ {Enum : Type 0} (enum : EventEnum Enum) where
  unfoldable pub normalize_event_type : String → Enum
  normalize_event_type t =
      if t == "push"
      then enum.push
      else if t == "pull_request"
      then enum.pull_request
      else if t == "release"
      then enum.release
      else if t == "manual"
      then enum.manual
      else enum.unspecified

  -- The spec of a resolved event is never nil.
  unfoldable pub to_github_event_contract : ResolvedGitHubEventSpec → GitHubEventContract Enum
  to_github_event_contract s = record {
    repository = s.repository;
    event_type = normalize_event_type s.event_type;
    ref = s.ref;
    commit_sha = s.commit_sha;
    actor = s.actor;
    event_id = s.event_id;
  }
