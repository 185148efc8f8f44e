-- ===== src/Build/Provider/Teardown.antt =====
-- What a Teardown that reports no error leaves behind.
use environments.Common.{
  and_then, String, ◌≡◌, refl, sym, ◌∙◌, subst, inl, inr, Bool, true, false, Option, none, some,
  List, [], ◌∷◌, Any, Error, ok, Result-cases, Bool-cases, Effect,
}
use environments.Build.Object.{BuildObject}
use environments.Build.Shipwright.{ShipwrightBuildRun}
use environments.Build.Provider.{Cluster, deleted, delete_runs, delete_listed, teardown_build}

abbrev pub Accepted : {W : Type 0} → Cluster W → Option Error → Type 0
Accepted cluster none = Unit
Accepted cluster (some e) = cluster.is_not_found e ≡ true

-- Documented behaviour of List and Delete. `labelled w ns build run` is whether that run is there
-- with the name label of the Build. A list holds every such run of the namespace; an object is gone
-- after a Delete that returned nil or NotFound, and no Delete brings one into being.
pub record Deletes {W : Type 0} (cluster : Cluster W)
    (labelled : W → String → String → String → Bool) (builds : W → String → String → Bool)
    : Type 0 where
  pub listed :
      (ns b : String) (w : W) (runs : List ShipwrightBuildRun) (n : String)
      → (cluster.list_runs ns b w).0 ≡ ok runs
      → labelled (cluster.list_runs ns b w).1 ns b n ≡ true
      → Any (λ (r : ShipwrightBuildRun). (r.namespace ≡ ns) × (r.name ≡ n)) runs
  pub run_gone :
      (ns b n : String) (w : W)
      → Accepted cluster (cluster.delete_run ns n w).0
      → labelled (cluster.delete_run ns n w).1 ns b n ≡ false
  pub run_stays_gone :
      (ms m ns b n : String) (w : W)
      → labelled w ns b n ≡ false
      → labelled (cluster.delete_run ms m w).1 ns b n ≡ false
  pub build_gone :
      (ns n : String) (w : W)
      → Accepted cluster (cluster.delete_build ns n w).0
      → builds (cluster.delete_build ns n w).1 ns n ≡ false
  pub build_keeps :
      (ms m ns b n : String) (w : W)
      → labelled w ns b n ≡ false
      → labelled (cluster.delete_build ms m w).1 ns b n ≡ false

and_then-none :
    {W : Type 0} (m : Option Error × W) (next : Effect W)
    → (and_then m next).0 ≡ none
    → (m.0 ≡ none) × ((next m.1).0 ≡ none) × ((and_then m next).1 ≡ (next m.1).1)
and_then-none (none, w) next h = (refl, h, refl)
and_then-none (some e, w) next h = cc

module _ {W : Type 0} (cluster : Cluster W) where
  deleted-Accepted :
      (label name : String) (m : Option Error × W)
      → (deleted cluster label name m).0 ≡ none
      → Accepted cluster m.0
  unfolding deleted
  deleted-Accepted label name (none, w) h = tt
  deleted-Accepted label name (some e, w) h = elim (Bool-cases (cluster.is_not_found e)) [
    | inl absent ↦ absent
    | inr failed ↦ cc (rw failed at h)
  ]

  deleted-world :
      (label name : String) (m : Option Error × W) → (deleted cluster label name m).1 ≡ m.1
  unfolding deleted
  deleted-world label name (none, w) = refl
  deleted-world label name (some e, w) = elim (Bool-cases (cluster.is_not_found e)) [
    | inl absent ↦ rw absent refl
    | inr failed ↦ rw failed refl
  ]

  module _ (labelled : W → String → String → String → Bool) (builds : W → String → String → Bool)
      (deletes : Deletes cluster labelled builds) where
    delete_runs-keeps :
        (runs : List ShipwrightBuildRun) (w : W) (ns b n : String)
        → labelled w ns b n ≡ false
        → (delete_runs cluster runs w).0 ≡ none
        → labelled (delete_runs cluster runs w).1 ns b n ≡ false
    unfolding delete_runs
    delete_runs-keeps [] w ns b n gone h = gone
    delete_runs-keeps (r ∷ runs) w ns b n gone h =
        let m =
          deleted cluster "delete buildrun" r.name (cluster.delete_run r.namespace r.name w) in
        let (first, rest, same) = and_then-none m (delete_runs cluster runs) h in
        subst (λ v. labelled v ns b n ≡ false) (sym same)
          (delete_runs-keeps runs m.1 ns b n
            (subst (λ v. labelled v ns b n ≡ false) (sym (deleted-world "delete buildrun" r.name _))
              (deletes.run_stays_gone _ _ ns b n w gone))
            rest)

    delete_runs-gone :
        (runs : List ShipwrightBuildRun) (w : W) (ns b n : String)
        → Any (λ (r : ShipwrightBuildRun). (r.namespace ≡ ns) × (r.name ≡ n)) runs
        → (delete_runs cluster runs w).0 ≡ none
        → labelled (delete_runs cluster runs w).1 ns b n ≡ false
    unfolding delete_runs
    delete_runs-gone [] w ns b n there h = absurd there
    delete_runs-gone (r ∷ runs) w ns b n there h =
        let call = cluster.delete_run r.namespace r.name w in
        let m = deleted cluster "delete buildrun" r.name call in
        let (first, rest, same) = and_then-none m (delete_runs cluster runs) h in
        subst (λ v. labelled v ns b n ≡ false) (sym same)
          (elim there [
            | inl (in_ns, named) ↦
                delete_runs-keeps runs m.1 ns b n
                  (subst (λ v. labelled v ns b n ≡ false)
                    (sym (deleted-world "delete buildrun" r.name _))
                    (subst (λ (k : String × String). labelled call.1 k.0 b k.1 ≡ false)
                      (λ i. (in_ns i, named i))
                      (deletes.run_gone r.namespace b r.name w
                        (deleted-Accepted "delete buildrun" r.name call first))))
                  rest
            | inr later ↦ delete_runs-gone runs m.1 ns b n later rest
          ])

    -- A Teardown that reports no error leaves neither the Shipwright Build nor any BuildRun with
    -- the Build's label in its namespace, however many runs there were and whichever were gone
    -- before; List and Delete are assumed to behave as documented.
    pub teardown_build-clears :
        (b : BuildObject) (w : W)
        → (teardown_build cluster (some b) w).0 ≡ none
        → ((n : String)
            → labelled (teardown_build cluster (some b) w).1 b.namespace b.name n ≡ false)
          × (builds (teardown_build cluster (some b) w).1 b.namespace b.name ≡ false)
    unfolding teardown_build delete_listed
    teardown_build-clears b w h =
        let list = cluster.list_runs b.namespace b.name w in
        elim (Result-cases list.0) [
          | inl (runs, listed) ↦
              let h = rw listed at h in
              let (runs_ok, build_ok, same) = and_then-none (delete_runs cluster runs list.1) _ h in
              let u = (delete_runs cluster runs list.1).1 in
              let call = cluster.delete_build b.namespace b.name u in
              let world = same ∙ deleted-world "delete build" b.name call in
              rw listed (
                λ n.
                    subst (λ v. labelled v b.namespace b.name n ≡ false) (sym world)
                      (deletes.build_keeps _ _ b.namespace b.name n u
                        (elim (Bool-cases (labelled list.1 b.namespace b.name n)) [
                          | inl there ↦
                              delete_runs-gone runs list.1 b.namespace b.name n
                                (deletes.listed _ _ w runs n listed there) runs_ok
                          | inr gone ↦
                              delete_runs-keeps runs list.1 b.namespace b.name n gone runs_ok
                        ])),
                subst (λ v. builds v b.namespace b.name ≡ false) (sym world)
                    (deletes.build_gone b.namespace b.name u
                      (deleted-Accepted "delete build" b.name call build_ok)),
              )
          | inr (e, failed) ↦ cc (rw failed at h)
        ]
