-- ===== src/Package/App/Laws.antt =====
-- When a run succeeds, what is recorded of it, and what a teardown leaves.
use environments.Common.{
  ℕ, String, ◌≡◌, refl, sym, ◌∙◌, ◌≢◌, ◌↔◌, ◌⊎◌, inl, inr, true, false, Option, none, some, List,
  [], ◌∷◌, All, Error, Result, ok, err, ok-injective, subst, arith, eq_iff,
}
use environments.Package.{PackageId, PackageResult}
use environments.Package.Plan.{PackageIntent}
use environments.Package.App.{
  AppCondition, AppDeployed, ObservedApp, ApplicationState, AppKinds, AppServer,
  build_kapp_application, read_condition, read_conditions, read_deploy, application_state_from_app,
  package_result_from_application_state, failed_result, finished_with, after_apply, execute_app,
}

failed_ready : ◌≢◌ {A = String} "Failed" "Ready"
failed_ready h = ground (arith, eq_iff "Failed" "Ready")

pending_ready : ◌≢◌ {A = String} "Pending" "Ready"
pending_ready h = ground (arith, eq_iff "Pending" "Ready")

module _ (kinds : AppKinds) where
  abbrev pub SaysSuccess : AppCondition → Type 0
  SaysSuccess c = (c.kind ≡ kinds.reconcile_succeeded) × (c.status ≡ "True")

  -- A condition that decides nothing: not one of the two types, or with a status that is not read.
  abbrev pub Silent : AppCondition → Type 0
  Silent c =
      (c.kind ≡ kinds.reconcile_succeeded
        → (c.status ≢ "True") × (c.status ≢ "False") × (c.status ≢ "Unknown"))
      × (c.kind ≡ kinds.reconcile_failed → c.status ≢ "True")

  -- The last condition that decides anything says success.
  abbrev pub LastSaysSuccess : List AppCondition → Type 0
  LastSaysSuccess [] = ⊥
  LastSaysSuccess (c ∷ cs) = LastSaysSuccess cs ⊎ (SaysSuccess c × All Silent cs)

  read_condition-Silent :
      (useful : String) (state : ApplicationState) (c : AppCondition)
      → Silent c
      → (read_condition kinds useful state c).phase ≡ state.phase
  unfolding read_condition
  read_condition-Silent useful state c (quiet, unfailed) = ground (
    arith,
    eq_iff c.kind kinds.reconcile_succeeded,
    eq_iff c.kind kinds.reconcile_failed,
    eq_iff c.status "True",
    eq_iff c.status "False",
    eq_iff c.status "Unknown",
    quiet,
    unfailed,
  )

  read_condition-SaysSuccess :
      (useful : String) (state : ApplicationState) (c : AppCondition)
      → SaysSuccess c
      → (read_condition kinds useful state c).phase ≡ "Ready"
  unfolding read_condition
  read_condition-SaysSuccess useful state c (kind, status) =
      ground (arith, eq_iff c.kind kinds.reconcile_succeeded, eq_iff c.status "True")

  -- What a condition that leaves the phase ready is.
  read_condition-Ready :
      (useful : String) (state : ApplicationState) (c : AppCondition)
      → (read_condition kinds useful state c).phase ≡ "Ready"
      → SaysSuccess c ⊎ (Silent c × (state.phase ≡ "Ready"))
  unfolding read_condition
  read_condition-Ready useful state c ready = ground (
    arith,
    eq_iff c.kind kinds.reconcile_succeeded,
    eq_iff c.kind kinds.reconcile_failed,
    eq_iff c.status "True",
    eq_iff c.status "False",
    eq_iff c.status "Unknown",
    failed_ready,
    pending_ready,
  )

  read_conditions-Ready :
      (useful : String) (state : ApplicationState) (cs : List AppCondition)
      → (read_conditions kinds useful state cs).phase ≡ "Ready"
      → LastSaysSuccess cs ⊎ (All Silent cs × (state.phase ≡ "Ready"))
  unfolding read_conditions
  read_conditions-Ready useful state [] ready = inr (tt, ready)
  read_conditions-Ready useful state (c ∷ cs) ready =
      elim (read_conditions-Ready useful (read_condition kinds useful state c) cs ready) [
        | inl later ↦ inl (inl later)
        | inr (silent, here) ↦ elim (read_condition-Ready useful state c here) [
          | inl says ↦ inl (inr (says, silent))
          | inr (quiet, before) ↦ inr ((quiet, silent), before)
        ]
      ]

  read_conditions-Silent :
      (useful : String) (state : ApplicationState) (cs : List AppCondition)
      → All Silent cs
      → (read_conditions kinds useful state cs).phase ≡ state.phase
  unfolding read_conditions
  read_conditions-Silent useful state [] silent = refl
  read_conditions-Silent useful state (c ∷ cs) (quiet, silent) =
      read_conditions-Silent useful (read_condition kinds useful state c) cs silent
      ∙ read_condition-Silent useful state c quiet

  read_conditions-LastSaysSuccess :
      (useful : String) (state : ApplicationState) (cs : List AppCondition)
      → LastSaysSuccess cs
      → (read_conditions kinds useful state cs).phase ≡ "Ready"
  unfolding read_conditions
  read_conditions-LastSaysSuccess useful state [] says = absurd says
  read_conditions-LastSaysSuccess useful state (c ∷ cs) (inl later) =
      read_conditions-LastSaysSuccess useful (read_condition kinds useful state c) cs later
  read_conditions-LastSaysSuccess useful state (c ∷ cs) (inr (says, silent)) =
      read_conditions-Silent useful (read_condition kinds useful state c) cs silent
      ∙ read_condition-SaysSuccess useful state c says

  read_deploy_phase :
      (useful : String) (d : Option AppDeployed) (state : ApplicationState)
      → (read_deploy useful d state).phase ≡ state.phase
  unfolding read_deploy
  read_deploy_phase useful none state = refl
  read_deploy_phase useful (some d) state = ground arith

  -- An App is ready exactly if the last condition that decides anything says success.
  application_state_from_app-ready_iff :
      (app : ObservedApp)
      → ((application_state_from_app kinds app).phase ≡ "Ready") ↔ LastSaysSuccess app.conditions
  unfolding application_state_from_app
  application_state_from_app-ready_iff app =
      let same = read_deploy_phase app.useful_error_message app.deploy _ in
      (
        λ ready. elim (read_conditions-Ready _ _ app.conditions (sym same ∙ ready)) [
          | inl says ↦ says
          | inr (_, pending) ↦ absurd (pending_ready pending)
        ],
        λ says. same ∙ read_conditions-LastSaysSuccess _ _ app.conditions says,
      )

module _ {W : Type 0} (server : AppServer W) (kinds : AppKinds) where
  -- The App of the plan was applied, and read back right after it reported success.
  abbrev pub ReportsSuccess : PackageIntent → W → Type 0
  ReportsSuccess i w =
      let applied = server.apply (build_kapp_application i) w in
      (applied.0 ≡ none)
      × ((app : ObservedApp) × ((server.get i.id.namespace i.id.name applied.1).0 ≡ ok app)
          × LastSaysSuccess kinds app.conditions)

  module _ (text : Error → String) (start finish : ℕ) (observed : PackageId → Error → Error) where
    -- What a run returns: a result, an error exactly in a failure of a call, and never a sign that
    -- the App is being deployed.
    abbrev pub IsOutcome : Option PackageResult × Option Error → Type 0 → Type 0
    IsOutcome (result, error) Success =
        (r : PackageResult) × (result ≡ some r)
        × (r.kapp.executed ≡ false)
        × (((r.success ≡ true) × (error ≡ none)) ↔ Success)

    finished_with-IsOutcome :
        (id : PackageId) (r : Result ObservedApp) (w : W)
        → IsOutcome
            (finished_with server kinds text start finish observed id (r, w)).0
            ((app : ObservedApp) × (r ≡ ok app) × LastSaysSuccess kinds app.conditions)
    unfolding finished_with failed_result package_result_from_application_state
    finished_with-IsOutcome id (err e) w = (_, refl, refl, (λ h. cc, λ h. cc))
    finished_with-IsOutcome id (ok app) w = (
      _,
      refl,
      refl,
      (
        λ h. (
          app,
          refl,
          (application_state_from_app-ready_iff kinds app).0 ((eq_iff _ "Ready").0 h.0),
        ),
        λ (found, same, says). (
          (eq_iff _ "Ready").1 (
              (application_state_from_app-ready_iff kinds app).1
                (subst (λ a. LastSaysSuccess kinds a.conditions) (sym (ok-injective same)) says)),
          refl,
        ),
      ),
    )

    after_apply-IsOutcome :
        (i : PackageIntent) (applied : Option Error) (w : W)
        → IsOutcome (after_apply server kinds text start finish observed i (applied, w)).0 (
            (applied ≡ none)
            × ((app : ObservedApp) × ((server.get i.id.namespace i.id.name w).0 ≡ ok app)
                × LastSaysSuccess kinds app.conditions))
    unfolding after_apply failed_result
    after_apply-IsOutcome i (some e) w = (_, refl, refl, (λ h. cc, λ h. cc))
    after_apply-IsOutcome i none w =
        let (gotten, end) = server.get i.id.namespace i.id.name w in
        let (r, there, idle, success) = finished_with-IsOutcome i.id gotten end in
        (r, there, idle, (λ h. (refl, success.0 h), λ h. success.1 h.1))

    pub execute_app-IsOutcome :
        (i : PackageIntent) (w : W)
        → IsOutcome (execute_app server kinds text start finish observed i w).0 (ReportsSuccess i w)
    unfolding execute_app
    execute_app-IsOutcome i w =
        let (applied, w) = server.apply (build_kapp_application i) w in
        after_apply-IsOutcome i applied w
