-- ===== src/Build/Samples.antt =====
-- A Build, and clusters that serve it, for the examples.
use environments.Common.{
  ℕ, String, ◌≡◌, refl, sym, subst, ap, inl, inr, Bool, true, false, not, ◌&&◌, none, some, List,
  [], ◌∷◌, ◌==◌, if◌then◌else◌, errorf, ok, err, arith, eq_iff, Any, ok-injective, Exec, Option,
  Error, Result,
}
use environments.Resolution.Build.{ResolvedBuild, ResolvedBuildSpec}
use environments.Resolution.Build.Contract.{TriggerEnum, BuildContract}
use environments.Build.Object.{BuildObject}
use environments.Build.Mapper.{BuildSpec}
use environments.Build.Trigger.{Digest}
use environments.Build.Shipwright.{ShipwrightBuild, ShipwrightBuildRun}
use environments.Build.Provider.{Cluster}
use environments.Build.Provider.Laws.{with_key, with_build, unversioned, Store, Serves}
use environments.Build.Provider.Teardown.{Deletes}

abbrev pub object : BuildObject
object = record { name = "app"; namespace = "apps"; uid = "1"; labels = []; annotations = none }

abbrev pub spec : ResolvedBuildSpec ℕ
spec = record {
  image = "ghcr.io/acme/app:v1";
  source = record {
    url = "https://github.com/acme/app";
    revision = "main";
    context_dir = "";
    clone_secret = "";
  };
  githubevent = "";
  strategy = record { name = "kaniko"; strategy_kind = "ClusterBuildStrategy" };
  service_account = none;
  policy = record { triggers = "push" ∷ []; retry = none };
}

abbrev pub resolved_build : ResolvedBuild BuildObject ℕ
resolved_build = record { build = object; spec = spec }

abbrev pub mapped : BuildSpec
mapped = record {
  source_url = "https://github.com/acme/app";
  context_dir = "";
  revision = "main";
  clone_secret = "";
  strategy_name = "kaniko";
  strategy_kind = "ClusterBuildStrategy";
  image = "ghcr.io/acme/app:v1";
  service_account_name = "";
  service_account_secret = "";
}

abbrev pub enum : TriggerEnum ℕ
enum = record { commit = 1; pull_request = 2; manual = 3; unspecified = 0 }

-- every execution has the same hash
abbrev pub digest : Digest (BuildContract ℕ ℕ)
digest = record { marshal = λ c t. ok []; hex_sha256 = λ bytes. "0123456789abcdef" }

abbrev pub untouched : BuildObject → Exec Store BuildObject
untouched b w = (ok b, w)

pub untouched_same_key :
    (b o : BuildObject) (w : Store)
    → (untouched b w).0 ≡ ok o
    → (o.name ≡ b.name) × (o.namespace ≡ b.namespace)
untouched_same_key b o w h =
    let same = ok-injective h in (ap (λ x. x.name) (sym same), ap (λ x. x.namespace) (sym same))

abbrev stored_build : ShipwrightBuild
stored_build = record {
  name = "app";
  namespace = "apps";
  labels = [];
  source_url = "";
  context_dir = "";
  revision = "";
  source_credentials = none;
  strategy_name = "";
  strategy_kind = "";
  output_image = "";
  output_credentials = none;
  owner = none;
  resource_version = "7";
}

abbrev stored_run : ShipwrightBuildRun
stored_run = record {
  name = "app-1";
  namespace = "apps";
  labels = [];
  annotations = [];
  build_ref = "app";
  service_account = none;
  owner = none;
}

abbrev found_build : Option ShipwrightBuild → Result ShipwrightBuild
found_build none = err (errorf "not found")
found_build (some b) = ok (record b { resource_version = "7" })

abbrev stored : ShipwrightBuild → Store → Store
stored s w = record w { builds = with_build s.namespace s.name (unversioned s) w.builds }

abbrev updated : ShipwrightBuild → Store → Option ShipwrightBuild → Option Error × Store
updated s w none = (some (errorf "not found"), w)
updated s w (some b) = (none, stored s w)

-- A cluster whose world is its view; the lookup of a run returns a fixed one where there is one.
abbrev pub cluster : Cluster Store
cluster = record {
  get_build = λ ns n w. (found_build (w.builds ns n), w);
  create_build = λ s w. (none, stored s w);
  update_build = λ s w. updated s w (w.builds s.namespace s.name);
  delete_build = λ ns n w. (none, w);
  get_run = λ ns n w. (if w.runs ns n then ok stored_run else err (errorf "not found"), w);
  create_run = λ r w. (none, record w { runs = with_key r.namespace r.name w.runs });
  list_runs = λ ns b w. (ok [], w);
  delete_run = λ ns n w. (none, w);
  is_not_found = λ e. true;
  own_build = λ b s. ok (record s { owner = some b.uid });
  own_run = λ b r. ok (record r { owner = some b.uid });
}

found_run :
    (b : Bool) (r : ShipwrightBuildRun)
    → (if b then ok stored_run else err (errorf "not found")) ≡ ok r
    → b ≡ true
found_run true r h = refl
found_run false r h = cc

updated-ok :
    (s : ShipwrightBuild) (w : Store) (o : Option ShipwrightBuild)
    → (updated s w o).0 ≡ none
    → (updated s w o).1.builds ≡ with_build s.namespace s.name (unversioned s) w.builds
updated-ok s w none h = cc
updated-ok s w (some b) h = refl

updated-runs :
    (s : ShipwrightBuild) (w : Store) (o : Option ShipwrightBuild) → (updated s w o).1.runs ≡ w.runs
updated-runs s w none = refl
updated-runs s w (some b) = refl

pub serves : Serves cluster (λ w. w)
serves = record {
  get_build_keeps = λ ns n w. refl;
  get_run_keeps = λ ns n w. refl;
  run_found = λ ns n w r h. found_run (w.runs ns n) r h;
  build_created = λ s w h. refl;
  build_updated = λ s w h. updated-ok s w (w.builds s.namespace s.name) h;
  create_build_runs = λ s w. refl;
  update_build_runs = λ s w. updated-runs s w (w.builds s.namespace s.name);
  run_created = λ r w h. refl;
  run_refused = λ r w. inr refl;
  own_build_keeps = λ b s t h.
      subst (λ (t : ShipwrightBuild). t ≡ record s { owner = t.owner }) (ok-injective h) refl;
  own_run_keeps = λ b r t h.
      subst (λ (t : ShipwrightBuildRun). t ≡ record r { owner = t.owner }) (ok-injective h) refl;
}

abbrev pub empty : Store
empty = record { builds = λ ns n. none; runs = λ ns n. false }

-- A cluster with at most one Build and its run "app-1": the world is whether each is there.
abbrev pub Pair : Type 0
Pair = Bool × Bool

abbrev is_stored : String → String → Bool
is_stored ns n = (ns == "apps") && (n == "app-1")

abbrev pub labelled : Pair → String → String → String → Bool
labelled w ns b n = w.1 && is_stored ns n

abbrev pub has_build : Pair → String → String → Bool
has_build w ns n = w.0

abbrev pub small_cluster : Cluster Pair
small_cluster = record {
  get_build = λ ns n w. (ok stored_build, w);
  create_build = λ s w. (none, w);
  update_build = λ s w. (none, w);
  delete_build = λ ns n w. (none, (false, w.1));
  get_run = λ ns n w. (ok stored_run, w);
  create_run = λ r w. (none, w);
  list_runs = λ ns b w. (ok (if w.1 then stored_run ∷ [] else []), w);
  delete_run = λ ns n w. (none, (w.0, w.1 && not (is_stored ns n)));
  is_not_found = λ e. false;
  own_build = λ b s. ok s;
  own_run = λ b r. ok r;
}

is_stored_lem :
    (ns n : String)
    → is_stored ns n ≡ true
    → (◌≡◌ {A = String} "apps" ns) × (◌≡◌ {A = String} "app-1" n)
is_stored_lem ns n h = ground (arith, eq_iff ns "apps", eq_iff n "app-1")

listed_lem :
    (r : Bool) (ns n : String) (runs : List ShipwrightBuildRun)
    → ok (if r then stored_run ∷ [] else []) ≡ ok runs
    → r && is_stored ns n ≡ true
    → Any (λ (x : ShipwrightBuildRun). (x.namespace ≡ ns) × (x.name ≡ n)) runs
listed_lem false ns n runs h there = cc
listed_lem true ns n runs h there =
    subst (Any (λ (x : ShipwrightBuildRun). (x.namespace ≡ ns) × (x.name ≡ n))) (ok-injective h)
      (inl (is_stored_lem ns n there))

deleted_lem : (r : Bool) (b : Bool) → (r && not b) && b ≡ false
deleted_lem true true = refl
deleted_lem true false = refl
deleted_lem false b = refl

kept_lem : (r b c : Bool) → r && c ≡ false → (r && b) && c ≡ false
kept_lem true true c h = h
kept_lem true false c h = refl
kept_lem false b c h = refl

pub deletes : Deletes small_cluster labelled has_build
deletes = record {
  listed = λ ns b w runs n h there. listed_lem w.1 ns n runs h there;
  run_gone = λ ns b n w h. deleted_lem w.1 (is_stored ns n);
  run_stays_gone = λ ms m ns b n w h. kept_lem w.1 (not (is_stored ms m)) (is_stored ns n) h;
  build_gone = λ ns n w h. refl;
  build_keeps = λ ms m ns b n w h. h;
}
