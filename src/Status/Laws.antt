-- ===== src/Status/Laws.antt =====
-- What a status write that returns no error leaves behind, whoever else was writing.
use environments.Common.{
  ℕ, String, ◌≡◌, refl, sym, ◌∙◌, subst, Bool, false, not, Option, none, some, List, [], ◌∷◌, ◌==◌,
  if◌then◌else◌, arith, Error, Result, ok, err, ◌||◌,
}
use environments.Core.Conditions.{Condition, get_condition, merge_condition, remove_condition}
use environments.Core.Conditions.Laws.{
  Unique, get-merge_condition, get-remove_condition, merge_condition-Unique,
  remove_condition-Unique, remove_condition-same,
}
use environments.Status.{
  pruned, remove_superseded, merge_conditions, merged_object, update_fetched, write_once,
  write_replacing, is_empty,
}
use environments.Status.Api.{
  StoredObject, Server, Optimistic, Attempts, last, again, RetryOnConflict,
}

-- The last condition of a type among those that a caller writes.
abbrev pub last_of : List Condition → String → Option Condition → Option Condition
last_of [] k otherwise = otherwise
last_of (c ∷ cs) k otherwise = last_of cs k (if c.kind == k then some c else otherwise)

abbrev pub listed : List String → String → Bool
listed [] k = false
listed (x ∷ xs) k = x == k || listed xs k

-- The test on the lengths changes nothing.
pruned_lem : (cs : List Condition) (kind : String) → pruned cs kind ≡ remove_condition cs kind
unfolding pruned
pruned_lem cs kind = ground (arith, remove_condition-same cs kind)

get-remove_superseded :
    (cs : List Condition) (kinds : List String) (k : String)
    → get_condition (remove_superseded cs kinds) k
      ≡ (if listed kinds k then none else get_condition cs k)
unfolding remove_superseded
get-remove_superseded cs [] k = refl
get-remove_superseded cs (kind ∷ kinds) k =
    rw
      (
        get-remove_superseded (pruned cs kind) kinds k,
        pruned_lem cs kind,
        get-remove_condition cs kind k,
      )
      (ground arith)

get-merge_conditions :
    (cs news : List Condition) (k : String)
    → get_condition (merge_conditions cs news) k ≡ last_of news k (get_condition cs k)
unfolding merge_conditions
get-merge_conditions cs [] k = refl
get-merge_conditions cs (new ∷ news) k =
    rw (get-merge_conditions (merge_condition cs new) news k, get-merge_condition cs new k) refl

remove_superseded-Unique :
    (cs : List Condition) (kinds : List String) → Unique cs → Unique (remove_superseded cs kinds)
unfolding remove_superseded
remove_superseded-Unique cs [] u = u
remove_superseded-Unique cs (kind ∷ kinds) u =
    remove_superseded-Unique (pruned cs kind) kinds
      (subst Unique (sym (pruned_lem cs kind)) (remove_condition-Unique cs kind u))

merge_conditions-Unique : (cs news : List Condition) → Unique cs → Unique (merge_conditions cs news)
unfolding merge_conditions
merge_conditions-Unique cs [] u = u
merge_conditions-Unique cs (new ∷ news) u =
    merge_conditions-Unique (merge_condition cs new) news (merge_condition-Unique cs new u)

module _ {W : Type 0} (server : Server W) (others : W → W) (opt : Optimistic server others)
    (retry : RetryOnConflict server) where
  -- What the update made of the object that it found.
  pub record IsMerged (superseded : List String) (conditions : List Condition) (given : List ℕ)
      (before after : StoredObject) : Type 0 where
    pub reads :
        (k : String)
        → get_condition after.conditions k
          ≡ last_of conditions k
              (if listed superseded k then none else get_condition before.conditions k)
    pub unique : Unique before.conditions → Unique after.conditions
    pub contract : after.contract ≡ (if not (is_empty given) then given else before.contract)

  -- From the world `u` one accepted update led to the world `end`, and the object that was stored in
  -- `u` was merged into the one that is stored in `end`.
  abbrev pub MergedFrom : W → List String → List Condition → List ℕ → W → Type 0
  MergedFrom u superseded conditions contract end =
      (sent : StoredObject) × (before : StoredObject) × (after : StoredObject) × (server.update sent
          u
        ≡ (none, end))
      × (opt.stored u ≡ some before)
      × (opt.stored end ≡ some after)
      × IsMerged superseded conditions contract before after

  -- The last call that the write made is an update, from the world that the other writers left after
  -- a fetch, and it merged the object that was stored there.
  abbrev pub Merged : List String → List Condition → List ℕ → W → Type 0
  Merged superseded conditions contract end =
      (v : W) × MergedFrom (others (server.fetch v).1) superseded conditions contract end

  update_fetched-Merged :
      (superseded : List String) (conditions : List Condition) (contract : List ℕ) (w : W)
      (r : Result StoredObject)
      → ((latest before : StoredObject)
          → r ≡ ok latest
          → opt.stored (others w) ≡ some before
          → before.version ≡ latest.version
          → before ≡ latest)
      → (update_fetched server others (merged_object superseded conditions contract) r w).0 ≡ none
      → MergedFrom
          (others w)
          superseded
          conditions
          contract
          (update_fetched server others (merged_object superseded conditions contract) r w).1
  unfolding update_fetched merged_object
  update_fetched-Merged superseded conditions contract w (err e) named h = cc
  update_fetched-Merged superseded conditions contract w (ok latest) named h =
      let change = merged_object superseded conditions contract in
      let (before, stored, same_version) = opt.current (others w) (change latest) h in
      let (after, stored_after, conds, contr) = opt.accepted (others w) (change latest) h in
      let same = named latest before refl stored same_version in
      (
        change latest,
        before,
        after,
        λ i. (h i, (server.update (change latest) (others w)).1),
        stored,
        stored_after,
        subst (λ b. IsMerged superseded conditions contract b after) (sym same)
            (record {
              reads = λ k.
                  rw
                    (
                      conds,
                      get-merge_conditions (remove_superseded latest.conditions superseded)
                          conditions k,
                      get-remove_superseded latest.conditions superseded k,
                    )
                    refl;
              unique = λ u. subst Unique (sym conds) (
                  merge_conditions-Unique _ conditions
                    (remove_superseded-Unique latest.conditions superseded u));
              contract = contr;
            }),
      )

  write_once-Merged :
      (superseded : List String) (conditions : List Condition) (contract : List ℕ) (w : W)
      → (write_once server others superseded conditions contract w).0 ≡ none
      → Merged superseded conditions contract
          (write_once server others superseded conditions contract w).1
  unfolding write_once
  write_once-Merged superseded conditions contract w h = (
    w,
    update_fetched-Merged superseded conditions contract (server.fetch w).1 (server.fetch w).0
        (λ latest before. opt.kept w latest before) h,
  )

  Attempts-Merged :
      (superseded : List String) (conditions : List Condition) (contract : List ℕ) {end : W}
      {r : Option Error}
      → r ≡ none
      → {w : W}
      → Attempts server.is_conflict
          (write_once server others superseded conditions contract)
          r
          end
          w
      → Merged superseded conditions contract end
  Attempts-Merged superseded conditions contract h (last w done left) =
      subst (Merged superseded conditions contract) left
        (write_once-Merged superseded conditions contract w (done ∙ h))
  Attempts-Merged superseded conditions contract h (again w e u failed conflict rest) =
      Attempts-Merged superseded conditions contract h rest

  -- On a server with optimistic concurrency, a status write that returns no error, after any number
  -- of conflicts and beside any other writers, ended with an accepted update, which merged into the
  -- object that was stored right before it: of the types that the caller names each reads as the
  -- last one given, the superseded ones are gone, every other type reads as it stood then, no type
  -- stands twice that did not, and the contract is the caller's if it has one.
  pub write_replacing-Merged :
      (superseded : List String) (conditions : List Condition) (contract : List ℕ) (w : W)
      → (write_replacing server others retry superseded conditions contract w).0 ≡ none
      → Merged superseded conditions contract
          (write_replacing server others retry superseded conditions contract w).1
  unfolding write_replacing
  write_replacing-Merged superseded conditions contract w h =
      Attempts-Merged superseded conditions contract h
        (retry.attempts (write_once server others superseded conditions contract) w)
