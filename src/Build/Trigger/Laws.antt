-- ===== src/Build/Trigger/Laws.antt =====
-- The event that a Build is triggered by.
use environments.Common.{
  ℕ, ◌≤◌, String, ◌≡◌, ◌≢◌, refl, ◌∙◌, ◌⊎◌, inl, inr, Option, none, some, Option-cases, Bool-cases,
  List, All, Any, ◌==◌, Result, Result-cases, ok,
}
use environments.Json.{Fields}
use environments.Resolution.GitHubEvent.{
  ResolvedGitHubEvent, resolve_github_event, EventEnum, normalize_event_type,
}
use environments.Build.Trigger.{
  EventObject, EventText, candidate, latest_push, EventClient, patch_latest,
  patch_build_trigger_from_github_event, app_name_label,
}
use environments.Build.Object.{BuildObject, value_at}

abbrev pub Found : Type 0
Found = ResolvedGitHubEvent EventObject

abbrev pub NotAfter : Option Found → Found → Type 0
NotAfter o r = (b : Found) → o ≡ some b → b.event.created ≤ r.event.created

module _ {Float64 Enum : Type 0} (unmarshal : List ℕ → Result (Fields Float64))
    (enum : EventEnum Enum) (texts : EventText Enum) where
  -- The event `ev` resolves to `r`, which has an id and is printed as a push.
  pub record IsPushOf (r : Found) (ev : EventObject) : Type 0 where
    pub resolved : resolve_github_event (λ (e : EventObject). e.contract) unmarshal (some ev) ≡ ok r
    pub identified : r.spec.event_id ≢ ""
    pub push : texts.text (normalize_event_type enum r.spec.event_type) ≡ "push"

  -- Of the events that the loop does not pass over, none is newer than `r`.
  abbrev pub NoneAfter : Found → List EventObject → Type 0
  NoneAfter r evs = All (λ ev. NotAfter (candidate unmarshal enum texts ev) r) evs

  -- what the loop returns from the event `best` so far
  abbrev Kept : Option Found → List EventObject → Option Found → Type 0
  Kept best evs none = (best ≡ none) × All (λ ev. candidate unmarshal enum texts ev ≡ none) evs
  Kept best evs (some r) =
      ((best ≡ some r) ⊎ Any (IsPushOf r) evs) × NotAfter best r × NoneAfter r evs

  -- The events of the list that are pushes: none, or a newest one.
  abbrev pub IsLatest : List EventObject → Option Found → Type 0
  IsLatest evs none = All (λ ev. (q : Found) → IsPushOf q ev → ⊥) evs
  IsLatest evs (some r) =
      Any (IsPushOf r) evs
      × All (λ ev. (q : Found) → IsPushOf q ev → q.event.created ≤ r.event.created) evs

-- What the List of events and the Patch of the Build leave alone, looking for a trigger does too.
pub patch_build_trigger_keeps :
    {W Float64 Enum S : Type 0} (unmarshal : List ℕ → Result (Fields Float64))
    (enum : EventEnum Enum) (texts : EventText Enum) (client : EventClient W) (view : W → S)
    → ((app : String) (w : W) → view (client.list_events app w).1 ≡ view w)
    → ((b o : BuildObject) (w : W) → view (client.patch_build b o w).1 ≡ view w)
    → (b : BuildObject) (w : W)
    → view (patch_build_trigger_from_github_event unmarshal enum texts client b w).1 ≡ view w
unfolding patch_build_trigger_from_github_event patch_latest
patch_build_trigger_keeps unmarshal enum texts client view listed patched b w =
    let app = value_at b.labels app_name_label in
    elim (Bool-cases (app == "")) [
      | inl unlabelled ↦ rw unlabelled refl
      | inr named ↦ elim (Result-cases (client.list_events app w).0) [
        | inl (evs, found) ↦ elim (Option-cases (latest_push unmarshal enum texts none evs)) [
          | inl no_push ↦ rw (named, found, no_push) (listed app w)
          | inr (r, push) ↦ rw (named, found, push) (patched _ b _ ∙ listed app w)
        ]
        | inr (e, failed) ↦ rw (named, failed) (listed app w)
      ]
    ]
