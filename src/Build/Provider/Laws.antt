-- ===== src/Build/Provider/Laws.antt =====
-- What the cluster holds, how its calls change it, and what one stage of Run does.
use environments.Common.{
  String, ◌≡◌, ◌⊎◌, refl, sym, ap, ◌∙◌, subst, inl, inr, Bool, true, ◌&&◌, ◌||◌, Option, none, some,
  ◌==◌, Error, Result, ok, err, bind-ok, ◌>>=◌, ok-injective, arith, eq_iff, Bool-cases,
  Result-cases, Exec, with_value, if◌then◌else◌,
}
use environments.Build.Object.{BuildObject}
use environments.Build.Mapper.{BuildSpec}
use environments.Build.Shipwright.{
  ShipwrightBuild, ShipwrightBuildRun, create_build_spec, build_object,
}
use environments.Build.Provider.{
  Cluster, settled, place_build, upsert_build, place_run, ensure_run, stage_build,
}

-- A set of keys, each a namespace and a name.
abbrev pub Keys : Type 0
Keys = String → String → Bool

abbrev pub with_key : String → String → Keys → Keys
with_key ns name keys ms m = ((ms == ns) && (m == name)) || keys ms m

-- The Builds, by namespace and name, without their versions.
abbrev pub Builds : Type 0
Builds = String → String → Option ShipwrightBuild

abbrev pub with_build : String → String → ShipwrightBuild → Builds → Builds
with_build ns name b builds ms m = if (ms == ns) && (m == name) then some b else builds ms m

abbrev pub unversioned : ShipwrightBuild → ShipwrightBuild
unversioned s = record s { resource_version = "" }

-- The abstract view of the cluster: the Builds that there are, and the keys of the BuildRuns.
pub record Store : Type 0 where
  pub builds : Builds
  pub runs : Keys

with_key_at :
    (ns name : String) (keys : Keys) (ms m : String)
    → keys ns name ≡ true
    → with_key ns name keys ms m ≡ keys ms m
with_key_at ns name keys ms m h = elim (Bool-cases ((ms == ns) && (m == name))) [
  | inl same ↦ ground (arith, eq_iff ms ns, eq_iff m name)
  | inr other ↦ rw other refl
]

-- Adding a key that is there changes nothing.
pub with_key-again :
    (ns name : String) (keys : Keys) → keys ns name ≡ true → with_key ns name keys ≡ keys
with_key-again ns name keys h = λ i ms m. with_key_at ns name keys ms m h i

-- Documented behaviour of the API server, for the view: reads change nothing, an accepted create
-- and an accepted update of a Build store it; a create of a BuildRun that is refused may have been
-- stored or not. SetControllerReference changes the owner of an object and nothing else.
pub record Serves {W : Type 0} (cluster : Cluster W) (view : W → Store) : Type 0 where
  pub get_build_keeps : (ns n : String) (w : W) → view (cluster.get_build ns n w).1 ≡ view w
  pub get_run_keeps : (ns n : String) (w : W) → view (cluster.get_run ns n w).1 ≡ view w
  pub run_found :
      (ns n : String) (w : W) (r : ShipwrightBuildRun)
      → (cluster.get_run ns n w).0 ≡ ok r
      → (view w).runs ns n ≡ true
  pub build_created :
      (s : ShipwrightBuild) (w : W)
      → (cluster.create_build s w).0 ≡ none
      → (view (cluster.create_build s w).1).builds
        ≡ with_build s.namespace s.name (unversioned s) (view w).builds
  pub build_updated :
      (s : ShipwrightBuild) (w : W)
      → (cluster.update_build s w).0 ≡ none
      → (view (cluster.update_build s w).1).builds
        ≡ with_build s.namespace s.name (unversioned s) (view w).builds
  pub create_build_runs :
      (s : ShipwrightBuild) (w : W) → (view (cluster.create_build s w).1).runs ≡ (view w).runs
  pub update_build_runs :
      (s : ShipwrightBuild) (w : W) → (view (cluster.update_build s w).1).runs ≡ (view w).runs
  pub run_created :
      (r : ShipwrightBuildRun) (w : W)
      → (cluster.create_run r w).0 ≡ none
      → view (cluster.create_run r w).1
        ≡ record (view w) { runs = with_key r.namespace r.name (view w).runs }
  pub run_refused :
      (r : ShipwrightBuildRun) (w : W)
      → ((view (cluster.create_run r w).1).runs ≡ (view w).runs)
        ⊎ ((view (cluster.create_run r w).1).runs ≡ with_key r.namespace r.name (view w).runs)
  pub own_build_keeps :
      (b : BuildObject) (s t : ShipwrightBuild)
      → cluster.own_build b s ≡ ok t
      → t ≡ record s { owner = t.owner }
  pub own_run_keeps :
      (b : BuildObject) (r t : ShipwrightBuildRun)
      → cluster.own_run b r ≡ ok t
      → t ≡ record r { owner = t.owner }

-- A sequence that succeeds: its first call did, and the world is the one the rest left.
pub with_value-ok :
    {W A B : Type 0} (m : Result B × W) (next : B → Exec W A) {a : A}
    → (with_value m next).0 ≡ ok a
    → (b : B) × (m.0 ≡ ok b) × ((next b m.1).0 ≡ ok a) × (with_value m next ≡ next b m.1)
with_value-ok (ok b, w) next h = (b, refl, h, refl)
with_value-ok (err e, w) next h = cc

-- A sequence that fails: its first call did, or the rest.
pub with_value-err :
    {W A B : Type 0} (m : Result B × W) (next : B → Exec W A) {e : Error}
    → (with_value m next).0 ≡ err e
    → (with_value m next ≡ (err e, m.1))
      ⊎ ((b : B) × (m.0 ≡ ok b) × ((next b m.1).0 ≡ err e) × (with_value m next ≡ next b m.1))
with_value-err (ok b, w) next h = inr (b, refl, h, refl)
with_value-err (err x, w) next h = inl (λ i. (h i, w))

settled-ok :
    {W A : Type 0} (a : A) (m : Option Error × W) {b : A}
    → (settled a m).0 ≡ ok b
    → (m.0 ≡ none) × (a ≡ b)
settled-ok a (none, w) h = (refl, ok-injective h)
settled-ok a (some e, w) h = cc

settled-world : {W A : Type 0} (a : A) (m : Option Error × W) → (settled a m).1 ≡ m.1
settled-world a (none, w) = refl
settled-world a (some e, w) = refl

create_build_spec-key :
    (spec : BuildSpec) (b : BuildObject) (s : ShipwrightBuild)
    → create_build_spec spec b ≡ ok s
    → (s.name ≡ b.name) × (s.namespace ≡ b.namespace)
unfolding create_build_spec build_object
create_build_spec-key spec b s h = elim (Bool-cases (spec.source_url == "")) [
  | inl empty ↦ cc (rw empty at h)
  | inr url ↦ elim (Bool-cases (spec.image == "")) [
    | inl empty ↦ cc (rw (url, empty) at h)
    | inr image ↦
        let made = ok-injective (rw (url, image) at h) in
        (sym (ap (λ m. m.name) made), sym (ap (λ m. m.namespace) made))
  ]
]

module _ {W : Type 0} (cluster : Cluster W) (view : W → Store) (serves : Serves cluster view) where
  place_build-store :
      (s : ShipwrightBuild) (r : Result ShipwrightBuild) (w : W)
      → (place_build cluster s r w).0 ≡ none
      → (view (place_build cluster s r w).1).builds
        ≡ with_build s.namespace s.name (unversioned s) (view w).builds
  unfolding place_build
  place_build-store s (ok found) w h = serves.build_updated _ w h
  place_build-store s (err e) w h = elim (Bool-cases (cluster.is_not_found e)) [
    | inl absent ↦ rw absent (serves.build_created s w (rw absent at h))
    | inr failed ↦ cc (rw failed at h)
  ]

  place_build-runs :
      (s : ShipwrightBuild) (r : Result ShipwrightBuild) (w : W)
      → (view (place_build cluster s r w).1).runs ≡ (view w).runs
  unfolding place_build
  place_build-runs s (ok found) w = serves.update_build_runs _ w
  place_build-runs s (err e) w = elim (Bool-cases (cluster.is_not_found e)) [
    | inl absent ↦ rw absent (serves.create_build_runs s w)
    | inr failed ↦ rw failed refl
  ]

  upsert_build-store :
      (s : ShipwrightBuild) (w : W) {t : ShipwrightBuild}
      → (upsert_build cluster s w).0 ≡ ok t
      → (view (upsert_build cluster s w).1).builds
        ≡ with_build s.namespace s.name (unversioned s) (view w).builds
  unfolding upsert_build
  upsert_build-store s w h =
      let got = cluster.get_build s.namespace s.name w in
      let (accepted, _) = settled-ok s (place_build cluster s got.0 got.1) h in
      ap (λ v. (view v).builds) (settled-world s _)
      ∙ place_build-store s got.0 got.1 accepted
      ∙ ap (λ (v : Store). with_build s.namespace s.name (unversioned s) v.builds)
          (serves.get_build_keeps s.namespace s.name w)

  upsert_build-runs :
      (s : ShipwrightBuild) (w : W) → (view (upsert_build cluster s w).1).runs ≡ (view w).runs
  unfolding upsert_build
  upsert_build-runs s w =
      let got = cluster.get_build s.namespace s.name w in
      ap (λ v. (view v).runs) (settled-world s _)
      ∙ place_build-runs s got.0 got.1
      ∙ ap (λ (v : Store). v.runs) (serves.get_build_keeps s.namespace s.name w)

  -- A stage 1 that succeeds: the Build that was made of the spec is in the cluster, and no run
  -- changed.
  pub stage_build-ok :
      (spec : BuildSpec) (b : BuildObject) (w : W) {ship : ShipwrightBuild}
      → (stage_build cluster spec b w).0 ≡ ok ship
      → (made : ShipwrightBuild) × (placed : ShipwrightBuild) × (create_build_spec spec b ≡ ok made)
        × (placed ≡ record made { owner = placed.owner })
        × ((view (stage_build cluster spec b w).1).builds
            ≡ with_build b.namespace b.name (unversioned placed) (view w).builds)
  unfolding stage_build
  stage_build-ok spec b w h =
      let r = create_build_spec spec b >>= λ ship. cluster.own_build b ship in
      let (ship, owned, placed, same) = with_value-ok (r, w) (upsert_build cluster) h in
      let (made, made_ok, own_ok) = bind-ok (create_build_spec spec b) _ owned in
      let owner = serves.own_build_keeps b made ship own_ok in
      let (made_name, made_namespace) = create_build_spec-key spec b made made_ok in
      (
        made,
        ship,
        made_ok,
        owner,
        ap (λ (m : Result ShipwrightBuild × W). (view m.1).builds) same
            ∙ upsert_build-store ship w placed
            ∙ (λ i.
                with_build ((ap (λ s. s.namespace) owner ∙ made_namespace) i)
                  ((ap (λ s. s.name) owner ∙ made_name) i) (unversioned ship) (view w).builds),
      )

  pub stage_build-runs :
      (spec : BuildSpec) (b : BuildObject) (w : W)
      → (view (stage_build cluster spec b w).1).runs ≡ (view w).runs
  unfolding stage_build
  stage_build-runs spec b w =
      elim (Result-cases (create_build_spec spec b >>= λ ship. cluster.own_build b ship)) [
        | inl (ship, owned) ↦ rw owned (upsert_build-runs ship w)
        | inr (e, refused) ↦ rw refused refl
      ]

  place_run-store :
      (run : ShipwrightBuildRun) (r : Result ShipwrightBuildRun) (w : W)
      → ((found : ShipwrightBuildRun) → r ≡ ok found → (view w).runs run.namespace run.name ≡ true)
      → (place_run cluster run r w).0 ≡ none
      → view (place_run cluster run r w).1
        ≡ record (view w) { runs = with_key run.namespace run.name (view w).runs }
  unfolding place_run
  place_run-store run (ok found) w there h =
      let again = sym (with_key-again run.namespace run.name (view w).runs (there found refl)) in
      λ i. record (view w) { runs = again i }
  place_run-store run (err e) w there h = elim (Bool-cases (cluster.is_not_found e)) [
    | inl absent ↦ rw absent (serves.run_created run w (rw absent at h))
    | inr failed ↦ cc (rw failed at h)
  ]

  pub ensure_run-store :
      (run : ShipwrightBuildRun) (w : W) {r : ShipwrightBuildRun}
      → (ensure_run cluster run w).0 ≡ ok r
      → (run ≡ r)
        × (view (ensure_run cluster run w).1
            ≡ record (view w) { runs = with_key run.namespace run.name (view w).runs })
  unfolding ensure_run
  ensure_run-store run w h =
      let got = cluster.get_run run.namespace run.name w in
      let kept = serves.get_run_keeps run.namespace run.name w in
      let (accepted, same) = settled-ok run (place_run cluster run got.0 got.1) h in
      (
        same,
        ap view (settled-world run _)
            ∙ place_run-store run got.0 got.1
                (λ found there.
                  ap (λ (v : Store). v.runs run.namespace run.name) kept
                  ∙ serves.run_found _ _ w found there)
                accepted
            ∙ ap (λ (v : Store). record v { runs = with_key run.namespace run.name v.runs }) kept,
      )

  -- A call that may have created the run, and did nothing else to the runs.
  abbrev pub AtMost : ShipwrightBuildRun → W → W → Type 0
  AtMost run w u =
      ((view u).runs ≡ (view w).runs)
      ⊎ ((view u).runs ≡ with_key run.namespace run.name (view w).runs)

  place_run-AtMost :
      (run : ShipwrightBuildRun) (r : Result ShipwrightBuildRun) (w : W)
      → AtMost run w (place_run cluster run r w).1
  unfolding place_run
  place_run-AtMost run (ok found) w = inl refl
  place_run-AtMost run (err e) w = elim (Bool-cases (cluster.is_not_found e)) [
    | inl absent ↦ rw absent (serves.run_refused run w)
    | inr failed ↦ rw failed (inl refl)
  ]

  pub ensure_run-AtMost :
      (run : ShipwrightBuildRun) (w : W) → AtMost run w (ensure_run cluster run w).1
  unfolding ensure_run
  ensure_run-AtMost run w =
      let got = cluster.get_run run.namespace run.name w in
      let kept = serves.get_run_keeps run.namespace run.name w in
      subst (λ v. AtMost run w v) (sym (settled-world run _))
        (subst
          (λ (v : Store).
            ((view (place_run cluster run got.0 got.1).1).runs ≡ v.runs)
            ⊎ ((view (place_run cluster run got.0 got.1).1).runs
                ≡ with_key run.namespace run.name v.runs))
          kept (place_run-AtMost run got.0 got.1))
