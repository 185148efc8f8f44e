-- ===== src/Package/Status.antt =====
-- pkg/apis/packages/application/status.go. `text` is an error's Error(), `now` the time, and
-- `marshal` is json.Marshal of a contract status. The copy of the Package that the caller holds,
-- which the write marks too, is left out.
pub mod Laws
use environments.Common.{
  ℕ, String, Bool, true, false, not, ◌&&◌, ◌||◌, Option, none, some, List, ◌==◌, if◌then◌else◌,
  Error, Result, ok, err, Effect,
}
use environments.Core.Conditions.{
  Condition, condition_true, condition_false, condition_unknown, merge_condition,
}
use environments.Status.Api.{StoredObject, Server, RetryOnConflict}
use environments.Package.{KappResult, PackageResult, PackageStatus}

-- &domain.PackageResult{Phase: domain.PackagePhaseUnknown}
abbrev pub unknown_result : PackageResult
unknown_result = record {
  success = false;
  phase = "Unknown";
  message = "";
  desired_ref = "";
  desired_commit = "";
  kapp = record {
    name = "";
    namespace = "";
    executed = false;
    deploy_finished = false;
    action = "";
    diff = "";
    output = "";
    error = "";
  };
  started_at = 0;
  finished_at = 0;
}

abbrev pub result_or_unknown : Option PackageResult → PackageResult
result_or_unknown none = unknown_result
result_or_unknown (some r) = r

abbrev pub condition : String → String → String → String → ℕ → Condition
condition kind status reason message now = record {
  kind = kind;
  status = status;
  observed_generation = 0;
  last_transition_time = now;
  reason = reason;
  message = message;
}

abbrev reported_status : PackageResult → PackageStatus
reported_status result = record {
  phase = result.phase;
  success = result.success;
  message = result.message;
  desired_ref = result.desired_ref;
  desired_commit = result.desired_commit;
  executed = result.kapp.executed;
  kapp_action = result.kapp.action;
  diff = result.kapp.diff;
  started_at = result.started_at;
  finished_at = result.finished_at;
}

module _ (text : Error → String) where
  unfoldable pub contract_status : PackageResult → Option Error → PackageStatus
  contract_status result none = reported_status result
  contract_status result (some e) = record (reported_status result) {
    phase = "Failed";
    success = false;
    message = text e;
  }

  -- the cases of the switch after the first
  unfoldable pub settled_condition : ℕ → PackageResult → Option Error → Condition
  settled_condition now result (some e) =
      condition "Succeeded" condition_false "PackageFailed" (text e) now
  settled_condition now result none =
      if result.success
      then condition "Succeeded" condition_true "PackageApplied" result.message now
      else if result.phase == "Pending" || result.phase == "Unknown"
      then condition "Succeeded" condition_unknown "PackagePending" "Package is being applied" now
      else condition "Succeeded" condition_false "PackageFailed" result.message now

  unfoldable pub package_condition : ℕ → PackageResult → Option Error → Condition
  package_condition now result error =
      if result.kapp.executed && not result.kapp.deploy_finished
      then condition "Running" condition_true "PackageDeploying" "Package deployment in progress"
          now
      else settled_condition now result error

module _ {W : Type 0} (server : Server W) (others : W → W) where
  update_package : Condition → List ℕ → Result StoredObject → Effect W
  update_package c raw (err e) w = (some e, w)
  update_package c raw (ok latest) w =
      server.update
        (record latest { contract = raw; conditions = merge_condition latest.conditions c })
        (others w)

  -- one attempt; `others` is what other writers do between the fetch and the update
  unfoldable pub write_package_once : Condition → List ℕ → Effect W
  unfolding update_package
  write_package_once c raw w = let (latest, w) = server.fetch w in update_package c raw latest w

  write_raw : RetryOnConflict server → Condition → Result (List ℕ) → Effect W
  write_raw retry c (err e) w = (some e, w)
  write_raw retry c (ok raw) w = retry.run (write_package_once c raw) w

  unfoldable pub write_package_status :
      RetryOnConflict server
      → (Error → String)
      → (PackageStatus → Result (List ℕ))
      → ℕ
      → Option PackageResult
      → Option Error
      → Effect W
  unfolding write_raw
  write_package_status retry text marshal now result error w =
      let result = result_or_unknown result in
      write_raw retry (package_condition text now result error)
        (marshal (contract_status text result error)) w
