-- ===== src/Coordinator/Service.antt =====
-- coordinator_start/service.py. Each call of a repository is one step of the session.
use factory_ops.Common.{String, Option, none, some, not, if◌then◌else◌, ◌=s◌, pos, is_start_request}
use factory_ops.Session.{
  Result, ok, err, integrity_error, value_error, run_missing, run_not_startable, raise, lift,
  attempt, begin, connect, pure, ◌>>=◌,
}
use factory_ops.Session.Lookup.{found_or}
use factory_ops.Database.{Action}
use factory_ops.Run.Model.{
  Instant, RunRow, RunTransition, OperationOutcome, concurrency_conflict, applied, pending, running,
  system,
}
use factory_ops.Run.Contract.{RunContract}
use factory_ops.Run.Contract as Runs
use factory_ops.Run.Repository.{find_run}
use factory_ops.Run.Service.Calls.{ClockReading, duplicate_outcome, get_run}
use factory_ops.Execution.Model.{ExecutionRow, ExecutionTransition}
use factory_ops.Execution.Model as E
use factory_ops.Execution.Contract.{
  Libraries, ExecutionContract, compute_execution_key, to_contract,
}
use factory_ops.Execution.Repository.{find_by_key}
use factory_ops.Execution.Service.Calls.{now, get_execution}
use factory_ops.Coordinator.Model.{StartCoordinatorCommand, StartPayload, StartReceipt}
use factory_ops.Coordinator.Repository.{find_receipt, started_run, start}

-- The values of `_clock`, `_execution_id`, the two of `_transition_id` and `_id("ERQ-")` in one call.
pub record StartInputs : Type 0 where
  pub clock : ClockReading
  pub execution_id : String
  pub execution_transition_id : String
  pub run_transition_id : String
  pub execution_request_id : String

pub record StartResult : Type 0 where
  pub outcome : OperationOutcome
  pub run : Option RunContract
  pub execution : Option ExecutionContract

abbrev pub payload_of : StartCoordinatorCommand → StartPayload
payload_of command = record {
  command_version = command.command_version;
  run_id = command.run_id;
  prompt_version = command.prompt_version;
  context_snapshot_id = command.context_snapshot_id;
  evidence_refs = command.evidence_refs;
}

-- `execution_history`
unfoldable pub execution_history : StartInputs → Instant → ExecutionTransition
execution_history inputs at = record {
  transition_id = inputs.execution_transition_id;
  transition_request_id = inputs.execution_request_id;
  execution_id = inputs.execution_id;
  from_status = none;
  to_status = E.pending;
  from_revision = none;
  to_revision = 0;
  actor_kind = "SYSTEM";
  actor_id = "coordinator-start";
  reason_code = "EXECUTION_CREATED";
  reason_message = none;
  result_json = none;
  failure_json = none;
  occurred_at = at;
}

-- `run_history`
unfoldable pub run_history : StartInputs → StartCoordinatorCommand → Instant → RunTransition
run_history inputs command at = record {
  transition_id = inputs.run_transition_id;
  transition_request_id = command.start_request_id;
  run_id = command.run_id;
  from_status = some pending;
  to_status = running;
  from_revision = some 0;
  to_revision = 1;
  actor_kind = system;
  actor_id = "coordinator-start";
  reason_code = "COORDINATOR_STARTED";
  reason_message = some "Coordinator execution started";
  checkpoint_id = none;
  occurred_at = at;
}

-- `_digest` is `digest` of the payload: SHA-256 of what json.dumps prints.
module _ (x : Libraries) (digest : StartPayload → String) where
  unfoldable pub execution_row : StartCoordinatorCommand → RunRow → String → Instant → ExecutionRow
  execution_row command run execution_id at = record {
    execution_id = execution_id;
    execution_key = compute_execution_key x command.run_id "coordinator" none (pos 1);
    contract_version = "1.0.0";
    run_id = command.run_id;
    agent_role = "coordinator";
    attempt = pos 1;
    task_id = none;
    runtime_version = run.provenance.runtime_version;
    prompt_version = command.prompt_version;
    model_policy_version = run.provenance.model_policy_version;
    tool_policy_version = run.provenance.tool_policy_version;
    context_policy_version = run.provenance.context_policy_version;
    code_revision = run.provenance.code_revision;
    context_snapshot_id = command.context_snapshot_id;
    input_evidence_refs = command.evidence_refs;
    status = E.pending;
    revision = 0;
    created_at = at;
    updated_at = at;
    started_at = none;
    ended_at = none;
    status_reason_code = none;
    status_reason_message = none;
    output_artifact_refs = none;
    decision_id = none;
    result_evidence_refs = none;
    failure_code = none;
    failure_message = none;
    failure_recoverability = none;
    failed_dependency_ref = none;
  }

  unfoldable pub receipt_of : StartInputs → StartCoordinatorCommand → Instant → StartReceipt
  receipt_of inputs command at = record {
    start_request_id = command.start_request_id;
    run_id = command.run_id;
    execution_id = inputs.execution_id;
    payload_sha256 = digest (payload_of command);
    created_at = at;
  }

  -- `execution_id`, or the coordinator of the rendered Run.
  abbrev pub coordinator_of : Option String → Option RunContract → Option String
  coordinator_of none (some run) = run.coordinator_execution_id
  coordinator_of id _ = id

  -- `self._executions.get_execution(execution_id) if execution_id else None`
  abbrev pub maybe_execution : Option String → Action (Option ExecutionContract)
  maybe_execution none = pure none
  maybe_execution (some id) = if id =s "" then pure none else get_execution x id

  -- `_result`
  unfoldable pub result : OperationOutcome → String → Option String → Action StartResult
  result o run_id execution_id = do
    run ← get_run x.matches run_id
    execution ← maybe_execution (coordinator_of execution_id run)
    lift (ok (record { outcome = o; run = run; execution = execution }))

  -- `_from_receipt`
  unfoldable pub from_receipt : StartCoordinatorCommand → StartReceipt → Action StartResult
  from_receipt command receipt =
      result (duplicate_outcome (receipt.payload_sha256 =s digest (payload_of command)))
        receipt.run_id (some receipt.execution_id)

  -- `find_receipt`, and what is made of what it finds.
  unfoldable pub receipt_or : StartCoordinatorCommand → Action StartResult → Action StartResult
  receipt_or command otherwise = do
    existing ← connect (find_receipt command.start_request_id)
    found_or existing (from_receipt command) otherwise

  -- `competing`
  abbrev pub conflict_with : StartCoordinatorCommand → ExecutionRow → Action StartResult
  conflict_with command competing =
      result concurrency_conflict command.run_id (some competing.execution_id)

  unfoldable pub after_competing : StartCoordinatorCommand → Action StartResult
  after_competing command = do
    competing ←
        connect (find_by_key (compute_execution_key x command.run_id "coordinator" none (pos 1)))
    found_or competing (conflict_with command) (raise integrity_error)

  -- After `start`: its handlers, or the result.
  unfoldable pub after_start :
      StartInputs → StartCoordinatorCommand → Result (Unit {0}) → Action StartResult
  after_start inputs command (ok _) = result applied command.run_id (some inputs.execution_id)
  after_start inputs command (err (run_not_startable id)) =
      receipt_or command (result concurrency_conflict command.run_id none)
  after_start inputs command (err integrity_error) = receipt_or command (after_competing command)
  after_start inputs command (err e) = raise e

  -- The validation of the two candidates.
  unfoldable pub validated :
      StartInputs → StartCoordinatorCommand → RunRow → Instant → Result (Unit {0})
  validated inputs command run at =
      both (to_contract x (execution_row command run inputs.execution_id at))
        (Runs.to_contract x.matches (started_run inputs.execution_id at run))
    where
      both : Result ExecutionContract → Result RunContract → Result (Unit {0})
      both (err e) run = err (value_error "Execution Contract is invalid")
      both (ok _) (err e) = err e
      both (ok _) (ok _) = ok tt

  unfoldable pub with_run :
      StartInputs → StartCoordinatorCommand → Option RunRow → Action StartResult
  with_run inputs command none = raise (run_missing command.run_id)
  with_run inputs command (some run) = do
    at ← lift (now inputs.clock)
    valid ← lift (validated inputs command run at)
    written ← attempt (
        begin (
          start command.run_id (execution_row command run inputs.execution_id at)
            (execution_history inputs at) (run_history inputs command at)
            (receipt_of inputs command at)))
    after_start inputs command written

  -- `CoordinatorStartService.start`
  unfoldable pub start_coordinator : StartInputs → StartCoordinatorCommand → Action StartResult
  start_coordinator inputs command =
      if not (command.command_version =s "1.0.0")
      then raise (value_error "unsupported Coordinator start command version")
      else if not (is_start_request command.start_request_id)
      then raise (value_error "start_request_id must match SRQ-[0-9A-F]{32}")
      else receipt_or command
          do run ← connect (find_run command.run_id); with_run inputs command run
