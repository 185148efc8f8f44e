-- ===== src/Build/Trigger/Examples.antt =====
-- The latest push of three events.
use environments.Common.{
  ℕ, String, ◌≡◌, refl, none, some, List, [], ◌∷◌, Result, ok, err, errorf, same_number,
  if◌then◌else◌,
}
use environments.Json.{Fields, str, end, field, lookup, must_string, optional_string}
use environments.Resolution.Contract.{decode_contract}
use environments.Resolution.GitHubEvent.{
  ResolvedGitHubEvent, EventEnum, resolve_github_event, resolve_github_event_spec,
  normalize_event_type, to_github_event_contract,
}
use environments.Build.Trigger.{
  EventObject, EventText, candidate, latest_push, extract_trigger_context,
}
use environments.Build.Samples.{object}

abbrev enum : EventEnum String
enum = record {
  push = "push";
  pull_request = "pull_request";
  release = "release";
  manual = "manual";
  unspecified = "unspecified";
}

-- here the message prints as the name of its event
abbrev texts : EventText String
texts = record { text = λ t. t; rune = λ t. t }

abbrev contract : String → String → Fields ℕ
contract kind sha =
    field "repository" (str "acme/app")
      (field "eventType" (str kind) (field "eventId" (str "1") (field "commitSHA" (str sha) end)))

-- a contract is one byte that says which it is
abbrev unmarshal : List ℕ → Result (Fields ℕ)
unmarshal [] = err (errorf "no contract")
unmarshal (b ∷ bs) =
    if same_number b 1
    then ok (contract "push" "abc")
    else if same_number b 2
    then ok (contract "release" "def")
    else err (errorf "no such contract")

abbrev older : EventObject
older = record { created = 5; contract = 1 ∷ [] }

abbrev released : EventObject
released = record { created = 9; contract = 2 ∷ [] }

abbrev broken : EventObject
broken = record { created = 8; contract = 3 ∷ [] }

abbrev newer : EventObject
newer = record { created = 7; contract = 1 ∷ [] }

abbrev events : List EventObject
events = older ∷ released ∷ broken ∷ newer ∷ []

abbrev pushed : ResolvedGitHubEvent EventObject
pushed = record {
  event = newer;
  spec = record {
    repository = "acme/app";
    event_type = "push";
    event_id = "1";
    ref = "";
    commit_sha = "abc";
    actor = "";
    webhook = record { name = ""; key = "" };
  };
}

latest_push_test : latest_push unmarshal enum texts none events ≡ some pushed
unfolding latest_push candidate resolve_github_event resolve_github_event_spec decode_contract
    must_string optional_string lookup to_github_event_contract normalize_event_type
latest_push_test = refl

-- A Build without annotations, and one with the commit of an event, which is of no kind.
manual_test :
    extract_trigger_context object
    ≡ record { kind = "manual"; ref = ""; sha = ""; retry_attempt = "" }
unfolding extract_trigger_context
manual_test = refl
