-- ===== src/Dispatch/Service.antt =====
-- coordinator_task_dispatch/model.py and service.py. Each call of a repository is one step of the
-- session.
use factory_ops.Common.{String, Option, none, some, List, Bool, ◌=s◌, ℤ}
use factory_ops.Session.{
  Result, ok, err, integrity_error, value_error, raise, lift, attempt, begin, connect, ◌>>=◌,
}
use factory_ops.Session.Lookup.{found_or}
use factory_ops.Database.{Action}
use factory_ops.Run.Model.{Instant, OperationOutcome, applied}
use factory_ops.Run.Service.Calls.{ClockReading, duplicate_outcome}
use factory_ops.Execution.Model.{ExecutionTransition}
use factory_ops.Execution.Model as E
use factory_ops.Task.Model.{pending, TaskRow, TaskTransition}
use factory_ops.Task.Contract.{TaskContract, compute_task_key, to_contract}
use factory_ops.Task.Repository.{StoredTask, find_by_request}
use factory_ops.Task.Service.Calls.{now, get_task}
use factory_ops.Dispatch.Repository.{dispatch}

pub record DispatchCommand : Type 0 where
  pub task_request_id : String
  pub run_id : String
  pub coordinator_execution_id : String
  pub task_type : String
  pub target_agent_role : String
  pub priority : ℤ
  pub context_snapshot_id : String
  pub evidence_refs : List String
  pub dependency_task_ids : List String

pub record DispatchResult : Type 0 where
  pub outcome : OperationOutcome
  pub task : Option TaskContract

-- What `_digest` and `_digest_row` print and hash.
pub record DispatchPayload : Type 0 where
  pub task_request_id : String
  pub run_id : String
  pub task_type : String
  pub target_agent_role : String
  pub created_by_execution_id : String
  pub priority : ℤ
  pub context_snapshot_id : String
  pub evidence_refs : List String
  pub dependency_task_ids : List String

-- The identifiers that `_id` draws in one call, and the clock.
pub record DispatchInputs : Type 0 where
  pub clock : ClockReading
  pub task_id : String
  pub transition_id : String
  pub transition_request_id : String
  pub execution_transition_id : String
  pub execution_request_id : String

-- The payload of `_digest`.
unfoldable pub payload_of : DispatchCommand → DispatchPayload
payload_of command = record {
  task_request_id = command.task_request_id;
  run_id = command.run_id;
  task_type = command.task_type;
  target_agent_role = command.target_agent_role;
  created_by_execution_id = command.coordinator_execution_id;
  priority = command.priority;
  context_snapshot_id = command.context_snapshot_id;
  evidence_refs = command.evidence_refs;
  dependency_task_ids = command.dependency_task_ids;
}

-- The payload of `_digest_row`.
unfoldable pub payload_row : StoredTask → DispatchPayload
payload_row task = record {
  task_request_id = task.row.task_request_id;
  run_id = task.row.run_id;
  task_type = task.row.task_type;
  target_agent_role = task.row.target_agent_role;
  created_by_execution_id = task.row.created_by_execution_id;
  priority = task.row.priority;
  context_snapshot_id = task.row.context_snapshot_id;
  evidence_refs = task.row.evidence_refs;
  dependency_task_ids = task.dependency_task_ids;
}

-- The row of the new Task.
unfoldable pub task_row : (String → String) → DispatchInputs → DispatchCommand → Instant → TaskRow
task_row sha256 inputs command at = record {
  task_id = inputs.task_id;
  task_request_id = command.task_request_id;
  task_key = compute_task_key sha256 command.run_id command.task_request_id;
  contract_version = "1.0.0";
  run_id = command.run_id;
  task_type = command.task_type;
  target_agent_role = command.target_agent_role;
  created_by_execution_id = command.coordinator_execution_id;
  priority = command.priority;
  context_snapshot_id = command.context_snapshot_id;
  evidence_refs = command.evidence_refs;
  status = pending;
  revision = 0;
  created_at = at;
  updated_at = at;
  started_at = none;
  ended_at = none;
  status_reason_code = none;
  status_reason_message = none;
  current_execution_id = none;
  attempt_count = 0;
  completion_execution_id = none;
  failure_execution_id = none;
  failure_code = none;
  failure_message = none;
  failure_recoverability = none;
}

-- `history`
unfoldable pub task_history : DispatchInputs → DispatchCommand → Instant → TaskTransition
task_history inputs command at = record {
  transition_id = inputs.transition_id;
  transition_request_id = inputs.transition_request_id;
  task_id = inputs.task_id;
  from_status = none;
  to_status = pending;
  from_revision = none;
  to_revision = 0;
  actor_kind = "COORDINATOR";
  actor_id = command.coordinator_execution_id;
  reason_code = "TASK_DISPATCHED";
  reason_message = some "Task dispatched by Coordinator";
  execution_id = none;
  attempt_count = 0;
  completion_execution_id = none;
  failure_code = none;
  failure_message = none;
  failure_recoverability = none;
  occurred_at = at;
}

-- `execution_history`
unfoldable pub owner_history : DispatchInputs → DispatchCommand → Instant → ExecutionTransition
owner_history inputs command at = record {
  transition_id = inputs.execution_transition_id;
  transition_request_id = inputs.execution_request_id;
  execution_id = command.coordinator_execution_id;
  from_status = some E.pending;
  to_status = E.running;
  from_revision = some 0;
  to_revision = 1;
  actor_kind = "COORDINATOR";
  actor_id = command.coordinator_execution_id;
  reason_code = "COORDINATOR_EXECUTION_STARTED";
  reason_message = some "Coordinator execution started";
  result_json = none;
  failure_json = none;
  occurred_at = at;
}

-- `digest` is SHA-256 of what json.dumps prints for a payload.
module _ (matches : String → String → Bool) (sha256 : String → String)
    (digest : DispatchPayload → String) where
  -- `DispatchResult(outcome, self._tasks.get_task(task_id))`
  unfoldable pub outcome_with_dispatched : OperationOutcome → String → Action DispatchResult
  outcome_with_dispatched o task_id = do
    task ← get_task matches sha256 task_id
    lift (ok (record { outcome = o; task = task }))

  -- `_classify`
  unfoldable pub classify_dispatch : DispatchCommand → StoredTask → Action DispatchResult
  classify_dispatch command task =
      outcome_with_dispatched
        (duplicate_outcome (digest (payload_row task) =s digest (payload_of command)))
        task.row.task_id

  abbrev pub new_dispatch : DispatchInputs → DispatchCommand → Instant → StoredTask
  new_dispatch inputs command at = record {
    row = task_row sha256 inputs command at;
    dependency_task_ids = command.dependency_task_ids;
  }

  -- After `dispatch` of the repository: its handlers, or the reload.
  unfoldable pub after_dispatch :
      DispatchInputs → DispatchCommand → Result (Unit {0}) → Action DispatchResult
  after_dispatch inputs command (ok _) = outcome_with_dispatched applied inputs.task_id
  after_dispatch inputs command (err integrity_error) = do
    existing ← connect (find_by_request command.task_request_id)
    found_or existing (classify_dispatch command) (raise integrity_error)
  after_dispatch inputs command (err e) = raise e

  -- After `_validate`.
  unfoldable pub after_validated :
      DispatchInputs → DispatchCommand → Instant → Result TaskContract → Action DispatchResult
  after_validated inputs command at (ok _) = do
    written ← attempt (
        begin (
          dispatch (task_row sha256 inputs command at) command.dependency_task_ids
            (task_history inputs command at) (owner_history inputs command at)))
    after_dispatch inputs command written
  after_validated inputs command at (err e) = raise (value_error "Task Contract is invalid")

  -- `CoordinatorTaskDispatchService.dispatch`
  unfoldable pub dispatch_task : DispatchInputs → DispatchCommand → Action DispatchResult
  dispatch_task inputs command = do
    existing ← connect (find_by_request command.task_request_id)
    found_or existing (classify_dispatch command) do
      at ← lift (now inputs.clock)
      after_validated inputs command at
          (to_contract matches sha256 (new_dispatch inputs command at))
