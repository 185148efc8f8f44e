-- ===== src/Deployment/Provider/Laws.antt =====
-- What is applied fits together, and what a teardown leaves behind.
use environments.Common.{
  String, ◌≡◌, refl, ◌⊎◌, inl, inr, Bool, true, false, Bool-cases, Option, none, some, List, [],
  ◌∷◌, ◌++◌, All, Error, wrap_of,
}
use environments.Intent.{ServiceUnitIntent, DeploymentIntent}
use environments.Deployment.Provider.{
  Kind, deployment, service, Client, failure_of, teardown_unit, teardown_units, teardown,
}

-- One of the errors is about deleting this object.
abbrev pub Reports : List Error → String → String → Type 0
Reports [] text name = ⊥
Reports (e ∷ es) text name = ((x : Error) × (e ≡ wrap_of text name x)) ⊎ Reports es text name

Reports-append_left :
    (es fs : List Error) (text name : String) → Reports es text name → Reports (es ++ fs) text name
Reports-append_left (e ∷ es) fs text name (inl h) = inl h
Reports-append_left (e ∷ es) fs text name (inr h) = inr (Reports-append_left es fs text name h)
Reports-append_left [] fs text name h = absurd h

Reports-append_right :
    (es fs : List Error) (text name : String) → Reports fs text name → Reports (es ++ fs) text name
Reports-append_right [] fs text name h = h
Reports-append_right (e ∷ es) fs text name h = inr (Reports-append_right es fs text name h)

-- Documented behaviour of the client's Delete: an object is gone after a call that returned nil or
-- NotFound, and no call brings an object into being.
abbrev pub Accepted : {W Int32 : Type 0} → Client W Int32 → Option Error → Type 0
Accepted client none = Unit
Accepted client (some e) = client.is_not_found e ≡ true

pub record Deletes {W Int32 : Type 0} (client : Client W Int32)
    (exists : Kind → String → String → W → Bool) : Type 0 where
  pub gone :
      (k : Kind) (n ns : String) (w : W)
      → Accepted client (client.delete k n ns w).0
      → exists k n ns (client.delete k n ns w).1 ≡ false
  pub stays_gone :
      (k : Kind) (n ns : String) (j : Kind) (m ms : String) (w : W)
      → exists j m ms w ≡ false
      → exists j m ms (client.delete k n ns w).1 ≡ false

failure_of-cases :
    {W Int32 : Type 0} (client : Client W Int32) (text name : String) (e : Option Error)
    → Accepted client e ⊎ Reports (failure_of client.is_not_found text name e) text name
unfolding failure_of
failure_of-cases client text name none = inl tt
failure_of-cases client text name (some e) = elim (Bool-cases (client.is_not_found e)) [
  | inl absent ↦ inl absent
  | inr failed ↦ inr (rw failed (inl (e, refl)))
]

module _ {W Int32 : Type 0} (client : Client W Int32) (exists : Kind → String → String → W → Bool)
    (deletes : Deletes client exists) where
  -- After the errors `es` and in the world `w`, each object of the unit is gone or an error names
  -- it.
  abbrev pub UnitSettled :
      DeploymentIntent Int32 → List Error → W → ServiceUnitIntent Int32 → Type 0
  UnitSettled intent es w su =
      ((exists deployment su.name intent.namespace w ≡ false)
        ⊎ Reports es "delete deployment" su.name)
      × ((exists service su.name intent.namespace w ≡ false) ⊎ Reports es "delete service" su.name)

  teardown_unit_keeps :
      (intent : DeploymentIntent Int32) (su : ServiceUnitIntent Int32) (w : W) (j : Kind)
      (m ms : String)
      → exists j m ms w ≡ false
      → exists j m ms (teardown_unit client intent su w).1 ≡ false
  unfolding teardown_unit
  teardown_unit_keeps intent su w j m ms h =
      deletes.stays_gone _ _ _ j m ms _ (deletes.stays_gone _ _ _ j m ms w h)

  teardown_units_keeps :
      (intent : DeploymentIntent Int32) (sus : List (ServiceUnitIntent Int32)) (w : W) (j : Kind)
      (m ms : String)
      → exists j m ms w ≡ false
      → exists j m ms (teardown_units client intent sus w).1 ≡ false
  unfolding teardown_units
  teardown_units_keeps intent [] w j m ms h = h
  teardown_units_keeps intent (su ∷ sus) w j m ms h =
      teardown_units_keeps intent sus _ j m ms (teardown_unit_keeps intent su w j m ms h)

  teardown_unit_settles :
      (intent : DeploymentIntent Int32) (su : ServiceUnitIntent Int32) (w : W)
      → UnitSettled intent
          (teardown_unit client intent su w).0
          (teardown_unit client intent su w).1
          su
  unfolding teardown_unit
  teardown_unit_settles intent su w =
      let (e, w') = client.delete deployment su.name intent.namespace w in
      let e' = (client.delete service su.name intent.namespace w').0 in
      (
        elim (failure_of-cases client "delete deployment" su.name e) [
          | inl accepted ↦ inl (
              deletes.stays_gone _ _ _ _ _ _ _
                (deletes.gone deployment su.name intent.namespace w accepted))
          | inr failed ↦ inr (Reports-append_left _ _ _ _ failed)
        ],
        elim (failure_of-cases client "delete service" su.name e') [
          | inl accepted ↦ inl (deletes.gone service su.name intent.namespace w' accepted)
          | inr failed ↦ inr (
              Reports-append_right (failure_of client.is_not_found "delete deployment" su.name e) _
                _ _ failed)
        ],
      )

  settled_later :
      (intent : DeploymentIntent Int32) (su : ServiceUnitIntent Int32) (es fs : List Error) (w : W)
      (rest : List (ServiceUnitIntent Int32))
      → UnitSettled intent es w su
      → UnitSettled intent (es ++ fs) (teardown_units client intent rest w).1 su
  settled_later intent su es fs w rest (d, s) = (
    elim d [
      | inl gone ↦ inl (teardown_units_keeps intent rest w _ _ _ gone)
      | inr named ↦ inr (Reports-append_left es fs _ _ named)
    ],
    elim s [
      | inl gone ↦ inl (teardown_units_keeps intent rest w _ _ _ gone)
      | inr named ↦ inr (Reports-append_left es fs _ _ named)
    ],
  )

  settled_append :
      (intent : DeploymentIntent Int32) (es fs : List Error) (w : W)
      (sus : List (ServiceUnitIntent Int32))
      → All (UnitSettled intent fs w) sus
      → All (UnitSettled intent (es ++ fs) w) sus
  settled_append intent es fs w [] h = tt
  settled_append intent es fs w (su ∷ sus) ((d, s), h) = (
    (
      elim d [ inl gone ↦ inl gone | inr named ↦ inr (Reports-append_right es fs _ _ named) ],
      elim s [ inl gone ↦ inl gone | inr named ↦ inr (Reports-append_right es fs _ _ named) ],
    ),
    settled_append intent es fs w sus h,
  )

  teardown_units_settles :
      (intent : DeploymentIntent Int32) (sus : List (ServiceUnitIntent Int32)) (w : W)
      → All
          (UnitSettled intent
            (teardown_units client intent sus w).0
            (teardown_units client intent sus w).1)
          sus
  unfolding teardown_units
  teardown_units_settles intent [] w = tt
  teardown_units_settles intent (su ∷ sus) w =
      let (errs, w') = teardown_unit client intent su w in
      let (later, w'') = teardown_units client intent sus w' in
      (
        settled_later intent su errs later w' sus (teardown_unit_settles intent su w),
        settled_append intent errs later w'' sus (teardown_units_settles intent sus w'),
      )

  -- With a client that deletes as documented, after a teardown, whatever single deletions failed,
  -- the Deployment object and the Service object of every unit of the plan are gone, or the
  -- returned errors name the unit and the object.
  pub teardown_settles :
      (intent : DeploymentIntent Int32) (w : W)
      → All
          (UnitSettled intent (teardown client intent w).0 (teardown client intent w).1)
          intent.service_units
  unfolding teardown
  teardown_settles intent w = teardown_units_settles intent intent.service_units w
