-- ===== src/Resolution/GitHubEvent/Laws.antt =====
-- What a resolved GitHubEvent says of its contract.
use environments.Common.{
  ℕ, ◌≡◌, refl, ◌⊎◌, inl, inr, Option, none, some, List, Result, ok, labelled, labelled-ok, bind-ok,
  ok-injective, subst,
}
use environments.Json.{Fields, Json, lookup, obj, must_string, optional_string}
use environments.Json.Laws.{Holds, must_string-Holds}
use environments.Resolution.Contract.Laws.{ComesFrom, decode_then-ok}
use environments.Resolution.GitHubEvent.{
  ResolvedSecretRef, ResolvedGitHubEventSpec, ResolvedGitHubEvent, no_secret, present_secret,
  present_webhook, resolve_webhook, resolve_github_event_spec, resolve_github_event,
}

module _ {Float64 : Type 0} where
  -- The secret of the webhook is the one that the contract names in full, or it names none.
  abbrev pub SecretOf : Option (Json Float64) → ResolvedSecretRef → Type 0
  SecretOf o s =
      (s ≡ no_secret)
      ⊎ ((w : Fields Float64) × (r : Fields Float64) × (o ≡ some (obj w))
          × (lookup "secretRef" w ≡ some (obj r))
          × Holds r "name" s.name
          × Holds r "key" s.key)

  pub record IsGitHubEventOf (m : Fields Float64) (s : ResolvedGitHubEventSpec) : Type 0 where
    pub repository : Holds m "repository" s.repository
    pub event_type : Holds m "eventType" s.event_type
    pub event_id : s.event_id ≡ optional_string m "eventId"
    pub ref : s.ref ≡ optional_string m "ref"
    pub commit_sha : s.commit_sha ≡ optional_string m "commitSHA"
    pub actor : s.actor ≡ optional_string m "actor"
    pub webhook : SecretOf (lookup "webhook" m) s.webhook

  present_secret_lem :
      (o : Option (Json Float64)) (s : ResolvedSecretRef)
      → present_secret o ≡ ok s
      → (s ≡ no_secret)
        ⊎ ((r : Fields Float64) × (o ≡ some (obj r)) × Holds r "name" s.name × Holds r "key" s.key)
  unfolding present_secret
  present_secret_lem none s h = inl (cc h)
  present_secret_lem (some (obj r)) s h =
      let (name, name_ok, h) =
        bind-ok (labelled "webhook.secretRef.name" (must_string r "name")) _ h in
      let (key, key_ok, h) = bind-ok (labelled "webhook.secretRef.key" (must_string r "key")) _ h in
      subst
        (λ (s : ResolvedSecretRef).
          (s ≡ no_secret)
          ⊎ ((q : Fields Float64) × (◌≡◌ {A = Option (Json Float64)} (some (obj r)) (some (obj q)))
              × Holds q "name" s.name
              × Holds q "key" s.key))
        (ok-injective h)
        (inr (
          r,
          refl,
          must_string-Holds r "name" (labelled-ok _ _ name_ok),
          must_string-Holds r "key" (labelled-ok _ _ key_ok),
        ))
  present_secret_lem _ s h = cc

  present_webhook_lem :
      (o : Option (Json Float64)) (s : ResolvedSecretRef) → present_webhook o ≡ ok s → SecretOf o s
  unfolding present_webhook
  present_webhook_lem none s h = inl (cc h)
  present_webhook_lem (some (obj w)) s h = elim (present_secret_lem (lookup "secretRef" w) s h) [
    | inl none_named ↦ inl none_named
    | inr (r, there, name, key) ↦ inr (w, r, refl, there, name, key)
  ]
  present_webhook_lem _ s h = cc

  pub resolve_github_event_spec-IsGitHubEventOf :
      (m : Fields Float64) (s : ResolvedGitHubEventSpec)
      → resolve_github_event_spec m ≡ ok s
      → IsGitHubEventOf m s
  unfolding resolve_github_event_spec resolve_webhook
  resolve_github_event_spec-IsGitHubEventOf m s h =
      let (repo, repo_ok, h) = bind-ok (must_string m "repository") _ h in
      let (kind, kind_ok, h) = bind-ok (must_string m "eventType") _ h in
      let (webhook, webhook_ok, h) = bind-ok (resolve_webhook m) _ h in
      subst (IsGitHubEventOf m) (ok-injective h) (record {
        repository = must_string-Holds m "repository" repo_ok;
        event_type = must_string-Holds m "eventType" kind_ok;
        event_id = refl;
        ref = refl;
        commit_sha = refl;
        actor = refl;
        webhook = present_webhook_lem (lookup "webhook" m) webhook webhook_ok;
      })

abbrev paired : {Object : Type 0} → Object → ResolvedGitHubEventSpec → ResolvedGitHubEvent Object
paired o s = record { event = o; spec = s }

module _ {Object Float64 : Type 0} (raw : Object → List ℕ)
    (unmarshal : List ℕ → Result (Fields Float64)) where
  -- A resolved GitHubEvent keeps the object that was given, whose contract is not empty and decodes
  -- to fields that hold its repository and its event type; its other facts are the optional texts,
  -- and its webhook's secret is named in full or not at all.
  pub resolve_github_event-IsGitHubEventOf :
      (o : Option Object) (r : ResolvedGitHubEvent Object)
      → resolve_github_event raw unmarshal o ≡ ok r
      → ComesFrom raw unmarshal o r.event (λ m. IsGitHubEventOf m r.spec)
  unfolding resolve_github_event
  resolve_github_event-IsGitHubEventOf o r h =
      let (p, m, s, given, carries, spec_ok, same) =
        decode_then-ok raw unmarshal _ _ o resolve_github_event_spec paired h in
      subst
        (λ (r : ResolvedGitHubEvent Object).
          ComesFrom raw unmarshal o r.event (λ m. IsGitHubEventOf m r.spec))
        same (given, (m, carries, resolve_github_event_spec-IsGitHubEventOf m s spec_ok))
