-- ===== src/Package/Status/Laws.antt =====
-- What the written contract and the written condition say of one outcome, and that the write is the
-- common status write of the one condition.
use environments.Common.{
  ℕ, String, ◌≡◌, refl, sym, ap, ◌≢◌, ◌↔◌, ◌⊎◌, inl, inr, true, false, Bool-cases, ◌&&◌, not, ◌||◌,
  some-injective, Option, none, some, List, [], ◌∷◌, ◌==◌, Error, Result, ok, err, subst, arith,
  eq_iff,
}
use environments.Core.Conditions.{Condition}
use environments.Status.{
  merged_object, update_fetched, write_once, write_replacing, merge_conditions, remove_superseded,
}
use environments.Status.Api.{StoredObject, Server, Optimistic, RetryOnConflict}
use environments.Status.Laws.{Merged, write_replacing-Merged}
use environments.Package.{PackageResult, PackageStatus}
use environments.Package.Status.{
  contract_status, condition, settled_condition, package_condition, result_or_unknown,
  update_package, write_package_once, write_raw, write_package_status,
}

-- An App that was deployed and whose deploy has not finished.
abbrev pub Deploying : PackageResult → Type 0
Deploying r = (r.kapp.executed ≡ true) × (r.kapp.deploy_finished ≡ false)

-- What a contract status and a condition say of a run that returned this result and error.
pub record IsHonest (text : Error → String) (r : PackageResult) (error : Option Error)
    (s : PackageStatus) (c : Condition) : Type 0 where
  pub running : (c.kind ≡ "Running") ↔ Deploying r
  pub kinds : (c.kind ≡ "Running") ⊎ (c.kind ≡ "Succeeded")
  pub succeeded :
      ((c.kind ≡ "Succeeded") × (c.status ≡ "True"))
      ↔ ((s.success ≡ true) × ((c.kind ≡ "Running") → ⊥))
  pub success : (s.success ≡ true) ↔ ((r.success ≡ true) × (error ≡ none))
  pub failed : c.status ≡ "False" → (s.success ≡ false) × (c.message ≡ s.message)
  pub error_recorded :
      (e : Error)
      → error ≡ some e
      → (s.success ≡ false) × (s.phase ≡ "Failed") × (s.message ≡ text e)

succeeded_running : ◌≢◌ {A = String} "Succeeded" "Running"
succeeded_running h = ground (arith, eq_iff "Succeeded" "Running")

true_false : ◌≢◌ {A = String} "True" "False"
true_false h = ground (arith, eq_iff "True" "False")

unknown_false : ◌≢◌ {A = String} "Unknown" "False"
unknown_false h = ground (arith, eq_iff "Unknown" "False")

unknown_true : ◌≢◌ {A = String} "Unknown" "True"
unknown_true h = ground (arith, eq_iff "Unknown" "True")

module _ (text : Error → String) (now : ℕ) (r : PackageResult) where
  contract_status-failed :
      (error : Option Error) (e : Error)
      → error ≡ some e
      → let s = contract_status text r error in
        (s.success ≡ false) × (s.phase ≡ "Failed") × (s.message ≡ text e)
  unfolding contract_status
  contract_status-failed none e h = cc
  contract_status-failed (some f) e h = (refl, refl, ap text (sym (some-injective (sym h))))

  contract_status-success :
      (error : Option Error)
      → ((contract_status text r error).success ≡ true) ↔ ((r.success ≡ true) × (error ≡ none))
  unfolding contract_status
  contract_status-success none = (λ h. (h, refl), λ h. h.0)
  contract_status-success (some e) = (λ h. cc, λ h. cc)

  -- a condition on an outcome, by what it says
  abbrev Honest : Option Error → Condition → Type 0
  Honest error c = IsHonest text r error (contract_status text r error) c

  Deploying-IsHonest :
      (error : Option Error) (reason message : String)
      → Deploying r
      → Honest error (condition "Running" "True" reason message now)
  Deploying-IsHonest error reason message deploying = record {
    running = (λ h. deploying, λ h. refl);
    kinds = inl refl;
    succeeded = (λ h. absurd (succeeded_running (sym h.0)), λ h. absurd (h.1 refl));
    failed = λ h. absurd (true_false h);
    success = contract_status-success error;
    error_recorded = contract_status-failed error;
  }

  settled-IsHonest :
      (error : Option Error) (status reason message : String)
      → ¬ Deploying r
      → ((status ≡ "True") ↔ ((contract_status text r error).success ≡ true))
      → (status ≡ "False"
          → ((contract_status text r error).success ≡ false)
            × (message ≡ (contract_status text r error).message))
      → Honest error (condition "Succeeded" status reason message now)
  settled-IsHonest error status reason message finished succeeded failed = record {
    running = (λ h. absurd (succeeded_running h), λ h. absurd (finished h));
    kinds = inr refl;
    succeeded = (λ h. (succeeded.0 h.1, succeeded_running), λ h. (refl, succeeded.1 h.0));
    failed = failed;
    success = contract_status-success error;
    error_recorded = contract_status-failed error;
  }

  settled_condition-IsHonest :
      (error : Option Error) → ¬ Deploying r → Honest error (settled_condition text now r error)
  unfolding settled_condition contract_status
  settled_condition-IsHonest (some e) finished =
      settled-IsHonest (some e) "False" "PackageFailed" (text e) finished
        (λ h. absurd (true_false (sym h)), λ h. cc) λ h. (refl, refl)
  settled_condition-IsHonest none finished = elim (Bool-cases r.success) [
    | inl success ↦ subst (Honest none) (simp success refl) (
        settled-IsHonest none "True" "PackageApplied" r.message finished (λ h. success, λ h. refl)
          λ h. absurd (true_false h))
    | inr failure ↦ elim (Bool-cases (r.phase == "Pending" || r.phase == "Unknown")) [
      | inl pending ↦ subst (Honest none) (simp (failure, pending) refl) (
          settled-IsHonest none "Unknown" "PackagePending" "Package is being applied" finished
            (λ h. absurd (unknown_true h), λ h. cc) λ h. absurd (unknown_false h))
      | inr known ↦ subst (Honest none) (simp (failure, known) refl) (
          settled-IsHonest none "False" "PackageFailed" r.message finished
            (λ h. absurd (true_false (sym h)), λ h. cc) λ h. (failure, refl))
    ]
  ]

  package_condition-IsHonest :
      (error : Option Error) → Honest error (package_condition text now r error)
  unfolding package_condition
  package_condition-IsHonest error =
      elim (Bool-cases (r.kapp.executed && not r.kapp.deploy_finished)) [
        | inl deploying ↦ simp deploying (
            Deploying-IsHonest error "PackageDeploying" "Package deployment in progress"
              (ground arith, ground arith))
        | inr settled ↦ simp settled (settled_condition-IsHonest error λ h. ground arith)
      ]

module _ {W : Type 0} (server : Server W) (others : W → W) where
  update_package_lem :
      (c : Condition) (raw : List ℕ) (r : Result StoredObject) (w : W)
      → raw ≢ []
      → update_package server others c raw r w
        ≡ update_fetched server others (merged_object [] (c ∷ []) raw) r w
  unfolding update_package update_fetched merged_object merge_conditions remove_superseded
  update_package_lem c raw (err e) w filled = refl
  update_package_lem c [] (ok latest) w filled = absurd (filled refl)
  update_package_lem c (b ∷ raw) (ok latest) w filled = refl

  write_package_once_lem :
      (c : Condition) (raw : List ℕ) (w : W)
      → raw ≢ []
      → write_package_once server others c raw w ≡ write_once server others [] (c ∷ []) raw w
  unfolding write_package_once write_once
  write_package_once_lem c raw w = update_package_lem c raw (server.fetch w).0 (server.fetch w).1

module _ {W : Type 0} (server : Server W) (others : W → W) (opt : Optimistic server others)
    (retry : RetryOnConflict server) where
  replaced :
      (c : Condition) (raw : List ℕ) (w : W)
      → (retry.run (write_once server others [] (c ∷ []) raw) w).0 ≡ none
      → Merged server others opt retry []
          (c ∷ [])
          raw
          (retry.run (write_once server others [] (c ∷ []) raw) w).1
  unfolding write_replacing
  replaced c raw w = write_replacing-Merged server others opt retry [] (c ∷ []) raw w

  write_raw-Merged :
      (c : Condition) (r : Result (List ℕ)) (w : W)
      → r ≢ ok []
      → (write_raw server others retry c r w).0 ≡ none
      → (raw : List ℕ) × (r ≡ ok raw)
        × Merged server others opt retry [] (c ∷ []) raw (write_raw server others retry c r w).1
  unfolding write_raw
  write_raw-Merged c (err e) w filled h = cc
  write_raw-Merged c (ok raw) w filled h = (
    raw,
    refl,
    subst
        (λ fn.
          (retry.run fn w).0 ≡ none
          → Merged server others opt retry [] (c ∷ []) raw (retry.run fn w).1)
        (λ i u. sym (write_package_once_lem server others c raw u λ e. filled (ap ok e)) i)
        (replaced c raw w) h,
  )

  -- The object after the write, and the contract and the condition in it.
  abbrev pub Written :
      (Error → String)
      → (PackageStatus → Result (List ℕ))
      → Option PackageResult
      → Option Error
      → W
      → Type 0
  Written text marshal result error end =
      let r = result_or_unknown result in
      (s : PackageStatus) × (c : Condition) × (raw : List ℕ) × IsHonest text r error s c
      × (marshal s ≡ ok raw)
      × Merged server others opt retry [] (c ∷ []) raw end

  pub write_package_status-Written :
      (text : Error → String) (marshal : PackageStatus → Result (List ℕ)) (now : ℕ)
      (result : Option PackageResult) (error : Option Error) (w : W)
      → ((s : PackageStatus) → marshal s ≢ ok [])
      → (write_package_status server others retry text marshal now result error w).0 ≡ none
      → Written text marshal result error
          (write_package_status server others retry text marshal now result error w).1
  unfolding write_package_status
  write_package_status-Written text marshal now result error w filled h =
      let r = result_or_unknown result in
      let s = contract_status text r error in
      let c = package_condition text now r error in
      let (raw, marshalled, merged) = write_raw-Merged c (marshal s) w (filled s) h in
      (s, c, raw, package_condition-IsHonest text now r error, marshalled, merged)
