-- ===== src/Status.antt =====
-- pkg/apis/build/application/status.go: writing conditions beside another writer. The API server and
-- client-go's RetryOnConflict are parameters; `others` is what other writers do between the fetch and
-- the update of one attempt.
pub mod Api
pub mod Laws
pub mod Samples
mod Examples
use environments.Common.{
  ℕ, String, Bool, true, false, Option, none, some, List, [], ◌∷◌, not, if◌then◌else◌, same_number,
  length, Error, Result, ok, err, Effect,
}
use environments.Core.Conditions.{Condition, merge_condition, remove_condition}
use environments.Status.Api.{StoredObject, Server, RetryOnConflict}

abbrev is_empty : List ℕ → Bool
is_empty [] = true
is_empty (b ∷ bs) = false

-- One round of the loop over `superseded`.
pub pruned : List Condition → String → List Condition
pruned cs kind =
    let removed = remove_condition cs kind in
    if not (same_number (length removed) (length cs)) then removed else cs

unfoldable pub remove_superseded : List Condition → List String → List Condition
remove_superseded cs [] = cs
remove_superseded cs (kind ∷ kinds) = remove_superseded (pruned cs kind) kinds

-- the loop over `conditions`
unfoldable pub merge_conditions : List Condition → List Condition → List Condition
merge_conditions cs [] = cs
merge_conditions cs (new ∷ news) = merge_conditions (merge_condition cs new) news

-- The object that an attempt sends; the caller's contract replaces the stored one if it has one.
unfoldable pub merged_object : List String → List Condition → List ℕ → StoredObject → StoredObject
merged_object superseded conditions contract latest = record latest {
  conditions = merge_conditions (remove_superseded latest.conditions superseded) conditions;
  contract = if not (is_empty contract) then contract else latest.contract;
}

module _ {W : Type 0} (server : Server W) (others : W → W) where
  unfoldable pub update_fetched : (StoredObject → StoredObject) → Result StoredObject → Effect W
  update_fetched change (err e) w = (some e, w)
  update_fetched change (ok latest) w = server.update (change latest) (others w)

  unfoldable pub write_once : List String → List Condition → List ℕ → Effect W
  unfolding update_fetched
  write_once superseded conditions contract w =
      let (latest, w) = server.fetch w in
      update_fetched (merged_object superseded conditions contract) latest w

  unfoldable pub write_replacing :
      RetryOnConflict server → List String → List Condition → List ℕ → Effect W
  write_replacing retry superseded conditions contract =
      retry.run (write_once superseded conditions contract)

  pub write : RetryOnConflict server → List Condition → List ℕ → Effect W
  write retry conditions contract = write_replacing retry [] conditions contract
