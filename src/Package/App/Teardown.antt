-- ===== src/Package/App/Teardown.antt =====
-- The teardown of a Package is done only when its App is gone.
use environments.Common.{
  ℕ, String, ◌≡◌, refl, sym, ◌⊎◌, inl, inr, Bool, true, false, Bool-cases, Option, none, some,
  Error, Result, ok, err, wrap_of, subst,
}
use environments.Package.{PackageId}
use environments.Package.Service.{PackageProvider, teardown_package, teardown_with, for_intent}
use environments.Package.App.{
  AppKinds, AppServer, ObservedApp, teardown_in_progress, app_name, after_get, after_delete,
  delete_application, package_provider, application_provider,
}
use environments.Package.App.Recorded.{IsProvider}

-- What the API server documents of Get: an object that it does not find is not there, one that it
-- returns is.
pub record Finds {W : Type 0} (server : AppServer W) (present : W → String → String → Bool)
    : Type 0 where
  pub missing :
      (w : W) (namespace name : String) (e : Error)
      → (server.get namespace name w).0 ≡ err e
      → server.is_not_found e ≡ true
      → present (server.get namespace name w).1 namespace name ≡ false
  pub there :
      (w : W) (namespace name : String) (app : ObservedApp)
      → (server.get namespace name w).0 ≡ ok app
      → present (server.get namespace name w).1 namespace name ≡ true

module _ {W : Type 0} (server : AppServer W) (present : W → String → String → Bool)
    (finds : Finds server present) where
  -- The outcome of a teardown: the App is gone, it is being removed, or a call failed.
  abbrev pub IsSettled : PackageId → Option Error × W → Type 0
  IsSettled id settled =
      ((settled.0 ≡ none) × (present settled.1 id.namespace id.name ≡ false))
      ⊎ ((settled.0
            ≡ some (wrap_of "kapp app is still deleting" (app_name id) teardown_in_progress))
          × (present settled.1 id.namespace id.name ≡ true))
      ⊎ ((e : Error) × (server.is_not_found e ≡ false)
          × ((settled.0 ≡ some (wrap_of "delete kapp app" (app_name id) e))
              ⊎ (settled.0 ≡ some (wrap_of "get kapp app" (app_name id) e))))

  after_get-IsSettled :
      (id : PackageId) (r : Result ObservedApp) (w : W)
      → ((e : Error)
          → r ≡ err e
          → server.is_not_found e ≡ true
          → present w id.namespace id.name ≡ false)
      → ((app : ObservedApp) → r ≡ ok app → present w id.namespace id.name ≡ true)
      → IsSettled id (after_get server id (r, w))
  unfolding after_get
  after_get-IsSettled id (ok app) w missing there = inr (inl (refl, there app refl))
  after_get-IsSettled id (err e) w missing there = elim (Bool-cases (server.is_not_found e)) [
    | inl absent ↦ simp absent (inl (refl, missing e refl absent))
    | inr failed ↦ simp failed (inr (inr (e, failed, inr refl)))
  ]

  read-IsSettled :
      (id : PackageId) (w : W)
      → IsSettled id (after_get server id (server.get id.namespace id.name w))
  read-IsSettled id w =
      after_get-IsSettled id (server.get id.namespace id.name w).0
        (server.get id.namespace id.name w).1 (λ e. finds.missing w id.namespace id.name e)
        λ app. finds.there w id.namespace id.name app

  after_delete-IsSettled :
      (id : PackageId) (deleted : Option Error) (w : W)
      → IsSettled id (after_delete server id (deleted, w))
  unfolding after_delete
  after_delete-IsSettled id none w = read-IsSettled id w
  after_delete-IsSettled id (some e) w = elim (Bool-cases (server.is_not_found e)) [
    | inl absent ↦ simp absent (read-IsSettled id w)
    | inr failed ↦ simp failed (inr (inr (e, failed, inl refl)))
  ]

  delete_application-IsSettled :
      (id : PackageId) (w : W) → IsSettled id (delete_application server id w)
  unfolding delete_application
  delete_application-IsSettled id w =
      after_delete-IsSettled id (server.delete id.namespace id.name w).0
        (server.delete id.namespace id.name w).1

  -- With either provider, on a server whose Get is right about what is there, a Package's teardown
  -- from its identity alone ends in one of three ways: without an error and the App is gone; with
  -- ErrTeardownInProgress, wrapped, and the App is still there; or with the error of Delete or of
  -- Get, which is not that of a missing App.
  pub teardown_package-IsSettled :
      (kinds : AppKinds) (text : Error → String) (start finish : ℕ) (kapp : PackageProvider W)
      (id : PackageId) (w : W)
      → IsProvider server kinds text start finish kapp
      → IsSettled id (teardown_package (some kapp) id w)
  unfolding teardown_package teardown_with for_intent package_provider application_provider
  teardown_package-IsSettled kinds text start finish kapp id w (inl same) =
      subst (λ (p : PackageProvider W). IsSettled id (p.teardown id w)) (sym same)
        (delete_application-IsSettled id w)
  teardown_package-IsSettled kinds text start finish kapp id w (inr same) =
      subst (λ (p : PackageProvider W). IsSettled id (p.teardown id w)) (sym same)
        (delete_application-IsSettled id w)
