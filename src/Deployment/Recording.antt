-- ===== src/Deployment/Recording.antt =====
-- pkg/apis/deployment/application/status.go: the condition of an outcome, and its write. `text` is an
-- error's Error(), `now` the time, and `marshal` is json.Marshal of a result.
pub mod Laws
pub mod Writes
mod Examples
use environments.Common.{
  ℕ, String, Option, none, some, List, [], ◌∷◌, ◌==◌, if◌then◌else◌, Error, Result, ok, err, Effect,
}
use environments.Core.Conditions.{Condition, condition_true, condition_false, merge_condition}
use environments.Status.Api.{StoredObject, Server, RetryOnConflict}
use environments.Deployment.Strategy.{DeploymentResult}
use environments.Deployment.Service.{ExecError}

abbrev condition : String → String → String → String → ℕ → Condition
condition kind status reason message now = record {
  kind = kind;
  status = status;
  observed_generation = 0;
  last_transition_time = now;
  reason = reason;
  message = message;
}

module _ (text : ExecError → String) (now : ℕ) where
  pub derive_condition : Option DeploymentResult → Option ExecError → Option Condition
  derive_condition result (some e) =
      some (condition "Ready" condition_false "DeploymentFailed" (text e) now)
  derive_condition (some r) none =
      if r.phase == "Ready"
      then some (condition "Ready" condition_true "DeploymentReady" r.message now)
      else some (condition "Reconciling" condition_true "DeploymentReconciling" r.message now)
  derive_condition none none = none

-- the bytes that replace the stored contract, if there is a result
replaced : Option (List ℕ) → List ℕ → List ℕ
replaced none stored = stored
replaced (some bytes) stored = bytes

some_bytes : Result (List ℕ) → Result (Option (List ℕ))
some_bytes (err e) = err e
some_bytes (ok bytes) = ok (some bytes)

-- nothing is marshalled without a result
pub marshalled :
    (DeploymentResult → Result (List ℕ)) → Option DeploymentResult → Result (Option (List ℕ))
unfolding some_bytes
marshalled marshal none = ok none
marshalled marshal (some r) = some_bytes (marshal r)

module _ {W : Type 0} (server : Server W) (others : W → W) where
  update_latest : Condition → Option (List ℕ) → Result StoredObject → Effect W
  unfolding replaced
  update_latest c bytes (err e) w = (some e, w)
  update_latest c bytes (ok latest) w =
      server.update
        (record latest {
          contract = replaced bytes latest.contract;
          conditions = merge_condition latest.conditions c;
        })
        (others w)

  -- one attempt; `others` is what other writers do between the fetch and the update
  pub record_once : Condition → Option (List ℕ) → Effect W
  unfolding update_latest
  record_once c bytes w = let (latest, w) = server.fetch w in update_latest c bytes latest w

  write_bytes : RetryOnConflict server → Condition → Result (Option (List ℕ)) → Effect W
  write_bytes retry c (err e) w = (some e, w)
  write_bytes retry c (ok bytes) w = retry.run (record_once c bytes) w

  write_condition : RetryOnConflict server → Option Condition → Result (Option (List ℕ)) → Effect W
  unfolding write_bytes
  write_condition retry none bytes w = (none, w)
  write_condition retry (some c) bytes w = write_bytes retry c bytes w

  pub write_deployment_result :
      RetryOnConflict server
      → (ExecError → String)
      → (DeploymentResult → Result (List ℕ))
      → ℕ
      → Option DeploymentResult
      → Option ExecError
      → Effect W
  unfolding write_condition marshalled
  write_deployment_result retry text marshal now result error =
      write_condition retry (derive_condition text now result error) (marshalled marshal result)
