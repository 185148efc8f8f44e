-- ===== src/Resolution/Build/Policy.antt =====
-- The triggers and the retry policy of a Build's contract.
use environments.Common.{
  String, ◌≡◌, refl, ◌≢◌, ◌↔◌, ◌⊎◌, inl, inr, true, false, Option, none, some, Option-cases, List,
  [], ◌∷◌, ok, bind-ok, ok-injective, arith, subst, ap, ◌∙◌,
}
use environments.Json.{Json, num, str, obj, bool, Fields, lookup, as_string, as_map, as_list}
use environments.Json.Laws.{as_map-obj, optional_bool-true_iff, ReadsNumber}
use environments.Resolution.Build.{
  Uint32Of, uint32_value, optional_uint32, ResolvedRetryPolicy, ResolvedBuildPolicy, trigger_of,
  with_trigger, triggers_of, listed_triggers, check_retry, retry_of, resolve_policy,
}

module _ {Float64 : Type 0} where
  -- The entry is an object with this text as its type.
  abbrev pub Declares : Json Float64 → String → Type 0
  Declares v t = (r : Fields Float64) × (v ≡ obj r) × (lookup "type" r ≡ some (str t))

  -- The triggers of the entries that declare one, in order.
  abbrev pub AreTriggers : List (Json Float64) → List String → Type 0
  AreTriggers [] ts = ts ≡ []
  AreTriggers (v ∷ vs) ts =
      ((t : String) × (us : List String) × Declares v t × (ts ≡ t ∷ us) × AreTriggers vs us)
      ⊎ (((t : String) → Declares v t → ⊥) × AreTriggers vs ts)

  as_string-str : (o : Option (Json Float64)) {t : String} → as_string o ≡ some t → o ≡ some (str t)
  as_string-str (some (str s)) h = ground arith
  as_string-str _ h = cc

  trigger_of-some : (v : Json Float64) (t : String) → trigger_of v ≡ some t → Declares v t
  unfolding trigger_of
  trigger_of-some (obj r) t h = (r, refl, as_string-str (lookup "type" r) h)
  trigger_of-some _ t h = cc

  Declares-trigger_of : (v : Json Float64) (t : String) → Declares v t → trigger_of v ≡ some t
  unfolding trigger_of
  Declares-trigger_of v t (r, same, found) = rw (same, found) refl

  triggers_of-AreTriggers : (vs : List (Json Float64)) → AreTriggers vs (triggers_of vs)
  unfolding triggers_of with_trigger
  triggers_of-AreTriggers [] = refl
  triggers_of-AreTriggers (v ∷ vs) = elim (Option-cases (trigger_of v)) [
    | inl absent ↦
        rw absent (inr (λ t d. cc (Declares-trigger_of v t d), triggers_of-AreTriggers vs))
    | inr (t, there) ↦
        rw there
          (inl (t, triggers_of vs, trigger_of-some v t there, refl, triggers_of-AreTriggers vs))
  ]

module _ {Float64 Uint32 : Type 0} (ints : Uint32Of Float64 Uint32) where
  -- No retry without an object that asks for it, and attempts left if a failure is retried.
  abbrev pub MatchesRetry : Fields Float64 → Option (ResolvedRetryPolicy Uint32) → Type 0
  MatchesRetry p none = as_map (lookup "retry" p) ≡ none
  MatchesRetry p (some retry) =
      (r : Fields Float64) × (lookup "retry" p ≡ some (obj r))
      × ((retry.on_failure ≡ true) ↔ (lookup "onFailure" r ≡ some (bool true)))
      × ReadsNumber ints.of_float64 ints.zero32 r "maxAttempts" retry.max_attempts
      × ((retry.on_failure ≡ false) ⊎ (retry.max_attempts ≢ ints.zero32))

  abbrev pub ListsTriggers : Fields Float64 → List String → Type 0
  ListsTriggers p ts =
      ((as_list (lookup "allowedTriggers" p) ≡ none) × (ts ≡ []))
      ⊎ ((vs : List (Json Float64)) × (as_list (lookup "allowedTriggers" p) ≡ some vs)
          × AreTriggers vs ts)

  -- An empty policy without an object, else the one of the object.
  abbrev pub MatchesPolicy : Fields Float64 → ResolvedBuildPolicy Uint32 → Type 0
  MatchesPolicy m policy =
      ((as_map (lookup "policy" m) ≡ none) × (policy.triggers ≡ []) × (policy.retry ≡ none))
      ⊎ ((p : Fields Float64) × (lookup "policy" m ≡ some (obj p))
          × ListsTriggers p policy.triggers
          × MatchesRetry p policy.retry)

  uint32_cases :
      (o : Option (Json Float64))
      → ((v : Float64) × (o ≡ some (num v)) × (uint32_value ints o ≡ ints.of_float64 v))
        ⊎ ((uint32_value ints o ≡ ints.zero32) × ((v : Float64) → o ≢ some (num v)))
  unfolding uint32_value
  uint32_cases (some (num v)) = inl (v, refl, refl)
  uint32_cases none = inr (refl, λ v h. cc)
  uint32_cases _ = inr (refl, λ v h. cc)

  optional_uint32-ReadsNumber :
      (m : Fields Float64) (key : String)
      → ReadsNumber ints.of_float64 ints.zero32 m key (optional_uint32 ints m key)
  unfolding optional_uint32
  optional_uint32-ReadsNumber m key = uint32_cases (lookup key m)

  check_retry_lem :
      (s t : ResolvedRetryPolicy Uint32)
      → check_retry ints s ≡ ok t
      → (s ≡ t) × ((s.on_failure ≡ false) ⊎ (s.max_attempts ≢ ints.zero32))
  unfolding check_retry
  check_retry_lem s t h = ground (arith, ints.is_zero_iff s.max_attempts)

  retry_of-MatchesRetry :
      (p : Fields Float64) (retry : Option (ResolvedRetryPolicy Uint32))
      → retry_of ints (as_map (lookup "retry" p)) ≡ ok retry
      → MatchesRetry p retry
  unfolding retry_of
  retry_of-MatchesRetry p retry h = elim (Option-cases (as_map (lookup "retry" p))) [
    | inl absent ↦ subst (MatchesRetry p) (ok-injective (rw (absent, retry_of) at h)) absent
    | inr (r, there) ↦
        let (policy, policy_ok, h) = bind-ok (check_retry ints _) _ (rw (there, retry_of) at h) in
        let (same, left) = check_retry_lem _ policy policy_ok in
        subst (MatchesRetry p) (ap some same ∙ ok-injective h) (
          r,
          as_map-obj (lookup "retry" p) there,
          optional_bool-true_iff r "onFailure",
          optional_uint32-ReadsNumber r "maxAttempts",
          left,
        )
  ]

  listed_triggers-ListsTriggers :
      (p : Fields Float64)
      → ListsTriggers p (listed_triggers (as_list (lookup "allowedTriggers" p)))
  unfolding listed_triggers
  listed_triggers-ListsTriggers p = elim (Option-cases (as_list (lookup "allowedTriggers" p))) [
    | inl absent ↦ rw absent (inl (refl, refl))
    | inr (vs, there) ↦ rw there (inr (vs, refl, triggers_of-AreTriggers vs))
  ]

  pub resolve_policy-MatchesPolicy :
      (m : Fields Float64) (policy : ResolvedBuildPolicy Uint32)
      → resolve_policy ints (as_map (lookup "policy" m)) ≡ ok policy
      → MatchesPolicy m policy
  unfolding resolve_policy
  resolve_policy-MatchesPolicy m policy h = elim (Option-cases (as_map (lookup "policy" m))) [
    | inl absent ↦
        subst (MatchesPolicy m) (ok-injective (rw (absent, resolve_policy) at h))
          (inl (absent, refl, refl))
    | inr (p, there) ↦
        let (retry, retry_ok, h) =
          bind-ok (retry_of ints (as_map (lookup "retry" p))) _ (rw (there, resolve_policy) at h) in
        subst (MatchesPolicy m) (ok-injective h) (
          inr (
            p,
            as_map-obj (lookup "policy" m) there,
            listed_triggers-ListsTriggers p,
            retry_of-MatchesRetry p retry retry_ok,
          ))
  ]
