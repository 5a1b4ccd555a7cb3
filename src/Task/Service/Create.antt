-- ===== src/Task/Service/Create.antt =====
-- `create_task` of task_lifecycle/service.py.
use factory_ops.Common.{
  String, none, Bool, ◌&&◌, if◌then◌else◌, ◌=s◌, same_texts, contains, equal_int,
}
use factory_ops.Session.{
  Exception, Result, ok, err, integrity_error, parent_run_missing, dependency_missing,
  cross_run_dependency, task_creation_rejected, raise, lift, attempt, begin, connect, ◌>>=◌,
}
use factory_ops.Session.Lookup.{found_or}
use factory_ops.Database.{Action}
use factory_ops.Run.Model.{Instant, applied}
use factory_ops.Run.Service.Calls.{duplicate_outcome}
use factory_ops.Task.Model.{pending, CreateTaskCommand, TaskRow, TaskTransition}
use factory_ops.Task.Contract.{TaskContract, compute_task_key, to_contract}
use factory_ops.Task.Repository.{StoredTask, find_by_request, create}
use factory_ops.Task.Service.Calls.{
  Inputs, now, OperationResult, with_outcome, outcome_with_task, transition_values,
}

-- The comparison in `_classify_creation`.
unfoldable pub creation_matches : CreateTaskCommand → StoredTask → Bool
creation_matches command task =
    task.row.run_id =s command.run_id
    && task.row.task_type =s command.task_type
    && task.row.target_agent_role =s command.target_agent_role
    && task.row.created_by_execution_id =s command.created_by_execution_id
    && equal_int task.row.priority command.priority
    && task.row.context_snapshot_id =s command.context_snapshot_id
    && same_texts task.row.evidence_refs command.evidence_refs
    && same_texts task.dependency_task_ids command.dependency_task_ids

-- The row of a new Task.
unfoldable pub initial_row : Inputs → CreateTaskCommand → String → Instant → TaskRow
initial_row inputs command key at = record {
  task_id = inputs.task_id;
  task_request_id = command.task_request_id;
  task_key = key;
  contract_version = "1.0.0";
  run_id = command.run_id;
  task_type = command.task_type;
  target_agent_role = command.target_agent_role;
  created_by_execution_id = command.created_by_execution_id;
  priority = command.priority;
  context_snapshot_id = command.context_snapshot_id;
  evidence_refs = command.evidence_refs;
  status = pending;
  revision = 0;
  created_at = at;
  updated_at = at;
  started_at = none;
  ended_at = none;
  status_reason_code = none;
  status_reason_message = none;
  current_execution_id = none;
  attempt_count = 0;
  completion_execution_id = none;
  failure_execution_id = none;
  failure_code = none;
  failure_message = none;
  failure_recoverability = none;
}

-- The first row of its history.
unfoldable pub initial_transition : Inputs → Instant → TaskTransition
initial_transition inputs at =
    transition_values inputs inputs.transition_request_id inputs.task_id none pending none 0
      "SYSTEM" "agent-task-lifecycle" "TASK_CREATED" none none 0 none none none none at

-- The exceptions of `create` that become a rejection at once.
abbrev pub rejection : Exception → Exception
rejection parent_run_missing = task_creation_rejected "parent Run does not exist"
rejection (dependency_missing id) = task_creation_rejected "dependency Task does not exist"
rejection (cross_run_dependency id) =
    task_creation_rejected "dependency Task must belong to same Run"
rejection e = e

module _ (matches : String → String → Bool) (sha256 : String → String) where
  -- The row of a new Task for the command, with its key and its dependencies.
  abbrev pub new_task : Inputs → CreateTaskCommand → Instant → StoredTask
  new_task inputs command at = record {
    row =
        initial_row inputs command (compute_task_key sha256 command.run_id command.task_request_id)
          at;
    dependency_task_ids = command.dependency_task_ids;
  }

  -- `_classify_creation`
  unfoldable pub classify_creation : CreateTaskCommand → StoredTask → Action OperationResult
  classify_creation command row = lift (
      with_outcome (duplicate_outcome (creation_matches command row))
        (to_contract matches sha256 row))

  -- After `create`: its handlers, or the reload.
  unfoldable pub after_create :
      Inputs → CreateTaskCommand → Result (Unit {0}) → Action OperationResult
  after_create inputs command (ok _) = outcome_with_task matches sha256 applied inputs.task_id
  after_create inputs command (err integrity_error) = do
    existing ← connect (find_by_request command.task_request_id)
    found_or existing (classify_creation command)
        (raise (task_creation_rejected "Task creation violated database constraints"))
  after_create inputs command (err e) = raise (rejection e)

  -- After `_validate`.
  unfoldable pub after_validate :
      Inputs → CreateTaskCommand → Instant → Result TaskContract → Action OperationResult
  after_validate inputs command at (ok _) = do
    written ← attempt (
        begin (
          create (new_task inputs command at).row command.dependency_task_ids
            (initial_transition inputs at)))
    after_create inputs command written
  after_validate inputs command at (err e) =
      raise (task_creation_rejected "Task Contract is invalid")

  unfoldable pub create_task : Inputs → CreateTaskCommand → Action OperationResult
  create_task inputs command = do
    existing ← connect (find_by_request command.task_request_id)
    found_or existing (classify_creation command) do
      at ← lift (now inputs.clock)
      if contains command.dependency_task_ids inputs.task_id
          then raise (task_creation_rejected "Task cannot depend on itself")
          else after_validate inputs command at
              (to_contract matches sha256 (new_task inputs command at))
