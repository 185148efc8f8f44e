-- ===== src/Build/Trigger.antt =====
-- The identity of an execution: pkg/apis/build/api/trigger_context.go,
-- PatchBuildTriggerFromGitHubEvent of pkg/apis/build/api/kaniko.go, ComputeExecutionHash of
-- pkg/utils/util.go. Parameters: what the generated enum prints, encoding/json with SHA-256 in
-- hexadecimal, and the cluster's calls.
pub mod Laws
mod Examples
use environments.Common.{
  ℕ, String, Bool, true, false, not, ◌&&◌, Option, none, some, List, [], ◌∷◌, ◌==◌, ltb,
  if◌then◌else◌, Error, Result, ok, err, errorf, wrap, labelled, Exec, with_value, labelled_call,
}
use environments.Json.{Fields}
use environments.Resolution.GitHubEvent.{
  ResolvedGitHubEvent, ResolvedGitHubEventSpec, resolve_github_event, EventEnum,
  GitHubEventContract, to_github_event_contract,
}
use environments.Resolution.Build.{ResolvedBuildSpec}
use environments.Resolution.Build.Contract.{TriggerEnum, BuildContract, to_build_contract}
use environments.Build.Object.{StringMap, value_at, put, made, BuildObject, annotation}

abbrev pub trigger_type : String
trigger_type = "build.blanketops.dev/trigger-type"

abbrev pub trigger_ref : String
trigger_ref = "build.blanketops.dev/trigger-ref"

abbrev pub trigger_sha : String
trigger_sha = "build.blanketops.dev/trigger-sha"

abbrev pub trigger_source : String
trigger_source = "build.blanketops.dev/trigger-source"

abbrev pub app_name_label : String
app_name_label = "environments.blanketops.dev/name"

pub record TriggerContext : Type 0 where
  pub kind : String
  pub ref : String
  pub sha : String
  pub retry_attempt : String

-- A retry attempt that is absent is "", which is what the field holds before it is set.
context_of : Option StringMap → TriggerContext
context_of none = record { kind = "manual"; ref = ""; sha = ""; retry_attempt = "" }
context_of (some ann) = record {
  kind = if value_at ann trigger_type == "" then "manual" else value_at ann trigger_type;
  ref = value_at ann trigger_ref;
  sha = value_at ann trigger_sha;
  retry_attempt = value_at ann "build.blanketops.dev/retry-attempt";
}

unfoldable pub extract_trigger_context : BuildObject → TriggerContext
unfolding context_of
extract_trigger_context b = context_of b.annotations

-- json.Marshal of the hash input, and hex.EncodeToString of its SHA-256
pub record Digest (Contract : Type 0) : Type 0 where
  pub marshal : Contract → TriggerContext → Result (List ℕ)
  pub hex_sha256 : List ℕ → String

module _ {Contract : Type 0} (digest : Digest Contract) where
  hashed : Result (List ℕ) → Result String
  hashed (ok raw) = ok (digest.hex_sha256 raw)
  hashed (err e) = err e

  unfoldable pub compute_execution_hash : Option Contract → TriggerContext → Result String
  unfolding hashed
  compute_execution_hash none trigger = err (errorf "build spec is nil")
  compute_execution_hash (some spec) trigger =
      hashed (labelled "failed to marshal hash input" (digest.marshal spec trigger))

-- `text` is String() of the generated message, `rune` is string() of its enum value.
pub record EventText (Enum : Type 0) : Type 0 where
  pub text : Enum → String
  pub rune : Enum → String

-- An event as it is listed; `created` is its CreationTimestamp and After is the order on it.
pub record EventObject : Type 0 where
  pub created : ℕ
  pub contract : List ℕ

module _ {Enum : Type 0} (texts : EventText Enum) where
  is_push : GitHubEventContract Enum → Bool
  is_push c = not (c.event_id == "") && (texts.text c.event_type == "push")

module _ {Enum : Type 0} (enum : EventEnum Enum) (texts : EventText Enum) where
  push_of : Result (ResolvedGitHubEvent EventObject) → Option (ResolvedGitHubEvent EventObject)
  unfolding is_push
  push_of (err e) = none
  push_of (ok r) = if is_push texts (to_github_event_contract enum r.spec) then some r else none

later :
    Option (ResolvedGitHubEvent EventObject)
    → Option (ResolvedGitHubEvent EventObject)
    → Option (ResolvedGitHubEvent EventObject)
later best none = best
later none (some r) = some r
later (some b) (some r) = if ltb b.event.created r.event.created then some r else some b

module _ {Float64 Enum : Type 0} (unmarshal : List ℕ → Result (Fields Float64))
    (enum : EventEnum Enum) (texts : EventText Enum) where
  -- an event that the loop does not pass over
  unfoldable pub candidate : EventObject → Option (ResolvedGitHubEvent EventObject)
  unfolding push_of
  candidate ev =
      push_of enum texts
        (resolve_github_event (λ (e : EventObject). e.contract) unmarshal (some ev))

  -- the loop over `events.Items`, from the latest event so far
  unfoldable pub latest_push :
      Option (ResolvedGitHubEvent EventObject)
      → List EventObject
      → Option (ResolvedGitHubEvent EventObject)
  unfolding later
  latest_push best [] = best
  latest_push best (ev ∷ evs) = latest_push (later best (candidate ev)) evs

module _ {Enum : Type 0} (texts : EventText Enum) where
  unfoldable pub annotated : BuildObject → GitHubEventContract Enum → BuildObject
  annotated b c = record b {
    annotations = some (
        put
          (put
            (put (put (made b.annotations) trigger_type (texts.rune c.event_type)) trigger_ref
              c.ref)
            trigger_sha c.commit_sha)
          trigger_source "github");
  }

-- List of the events with the label, and Patch from the second object to the first, which returns
-- the object as the server has it.
pub record EventClient (W : Type 0) : Type 0 where
  pub list_events : String → Exec W (List EventObject)
  pub patch_build : BuildObject → BuildObject → Exec W BuildObject

module _ {W Float64 Enum : Type 0} (unmarshal : List ℕ → Result (Fields Float64))
    (enum : EventEnum Enum) (texts : EventText Enum) (client : EventClient W) where
  patch_latest : BuildObject → Option (ResolvedGitHubEvent EventObject) → Exec W BuildObject
  patch_latest b none w = (ok b, w)
  patch_latest b (some r) w =
      labelled_call "patch build trigger annotations"
        (client.patch_build (annotated texts b (to_github_event_contract enum r.spec)) b w)

  -- The Build's annotations after the call are those of the object that it returns.
  unfoldable pub patch_build_trigger_from_github_event : BuildObject → Exec W BuildObject
  unfolding patch_latest
  patch_build_trigger_from_github_event b w =
      let app_name = value_at b.labels app_name_label in
      if app_name == ""
      then (ok b, w)
      else with_value (labelled_call "list githubevents" (client.list_events app_name w))
          λ evs. patch_latest b (latest_push unmarshal enum texts none evs)
