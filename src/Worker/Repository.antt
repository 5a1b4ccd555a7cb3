-- ===== src/Worker/Repository.antt =====
-- The statements of `start` of worker_task_execution.py, with the constraints of migration 007.
use factory_ops.Common.{
  ℕ, ◌+◌, String, Option, none, some, ◌∷◌, Bool, false, ◌&&◌, not, ◌==◌, ltb, ◌=s◌, any, find,
  select, update, length, pos,
}
use factory_ops.Session.{Result, ok, integrity_error, operational_error, worker_execution_rejected}
use factory_ops.Session.Statements.{◌>>◌, guard}
use factory_ops.Database.{Database}
use factory_ops.Run.Model.{Instant}
use factory_ops.Execution.Model.{ExecutionRow, ExecutionTransition}
use factory_ops.Execution.Model as E
use factory_ops.Execution.Constraints.{execution_exists}
use factory_ops.Task.Model.{
  pending, running, succeeded, same_status, TaskRow, TaskDependency, TaskTransition, LeaseRow,
}
use factory_ops.Task.Constraints.{has_task_id, task_checks, executions_exist}
use factory_ops.Worker.Model.{StartWorkerExecutionCommand, StartRequestRow, StartIds}

abbrev has_start_request : String → StartRequestRow → Bool
has_start_request id row = row.request_id =s id

-- `_find_start_request`
unfoldable pub find_start_request : String → Database → Option StartRequestRow
find_start_request request_id db = find (has_start_request request_id) db.worker_starts

-- `_lock_task`
unfoldable pub lock_task : String → Database → Option TaskRow
lock_task task_id db = find (has_task_id task_id) db.tasks

-- The lease is the caller's, and ends after the instant.
unfoldable pub holds_lease : String → String → Instant → Option LeaseRow → Bool
holds_lease owner_id token at none = false
holds_lease owner_id token at (some lease) =
    lease.owner_id =s owner_id && lease.lease_token =s token && ltb at lease.expires_at

-- A row of the join of a dependency with its Task.
abbrev pub is_open : Database → TaskDependency → Bool
is_open db d =
    any (λ (t : TaskRow). t.task_id =s d.dependency_task_id && not (same_status t.status succeeded))
      db.tasks

-- The count of the dependencies that have not succeeded is not zero.
unfoldable pub has_open_dependency : String → Database → Bool
has_open_dependency task_id db =
    any (λ (d : TaskDependency). d.task_id =s task_id && is_open db d) db.task_dependencies

-- The row of `_insert_running_execution`.
unfoldable pub running_execution :
    StartWorkerExecutionCommand → String → String → TaskRow → Instant → ExecutionRow
running_execution c execution_id key task at = record {
  execution_id = execution_id;
  execution_key = key;
  contract_version = "1.0.0";
  run_id = task.run_id;
  agent_role = task.target_agent_role;
  attempt = pos (task.attempt_count + 1);
  task_id = some c.task_id;
  runtime_version = c.runtime_version;
  prompt_version = c.prompt_version;
  model_policy_version = c.model_policy_version;
  tool_policy_version = c.tool_policy_version;
  context_policy_version = c.context_policy_version;
  code_revision = c.code_revision;
  context_snapshot_id = task.context_snapshot_id;
  input_evidence_refs = task.evidence_refs;
  status = E.running;
  revision = 1;
  created_at = at;
  updated_at = at;
  started_at = some at;
  ended_at = none;
  status_reason_code = some "WORKER_STARTED";
  status_reason_message = none;
  output_artifact_refs = none;
  decision_id = none;
  result_evidence_refs = none;
  failure_code = none;
  failure_message = none;
  failure_recoverability = none;
  failed_dependency_ref = none;
}

-- The first row of `_insert_execution_history`.
unfoldable pub created_history : StartIds → Instant → ExecutionTransition
created_history ids at = record {
  transition_id = ids.created_id;
  transition_request_id = ids.created_request_id;
  execution_id = ids.execution_id;
  from_status = none;
  to_status = E.pending;
  from_revision = none;
  to_revision = 0;
  actor_kind = "SYSTEM";
  actor_id = "worker-task-execution";
  reason_code = "EXECUTION_CREATED";
  reason_message = none;
  result_json = none;
  failure_json = none;
  occurred_at = at;
}

-- The second row of `_insert_execution_history`.
unfoldable pub started_history : StartIds → String → Instant → ExecutionTransition
started_history ids owner_id at = record {
  transition_id = ids.started_id;
  transition_request_id = ids.started_request_id;
  execution_id = ids.execution_id;
  from_status = some E.pending;
  to_status = E.running;
  from_revision = some 0;
  to_revision = 1;
  actor_kind = "WORKER";
  actor_id = owner_id;
  reason_code = "WORKER_STARTED";
  reason_message = none;
  result_json = none;
  failure_json = none;
  occurred_at = at;
}

-- The SET clause of `_start_task`.
unfoldable pub started_task : String → ℕ → Instant → TaskRow → TaskRow
started_task execution_id attempt at task = record task {
  status = running;
  revision = 1;
  updated_at = at;
  started_at = some at;
  status_reason_code = some "WORKER_STARTED";
  status_reason_message = none;
  current_execution_id = some execution_id;
  attempt_count = attempt;
}

-- Its WHERE clause.
unfoldable pub is_start_target : String → TaskRow → Bool
is_start_target task_id task =
    task.task_id =s task_id && same_status task.status pending && task.revision == 0

unfoldable pub update_started : String → String → ℕ → Instant → Database → Result Database
update_started task_id execution_id attempt at db = do
  guard
      (not (
        any
          (λ t.
            is_start_target task_id t && not (task_checks (started_task execution_id attempt at t)))
          db.tasks))
      operational_error
  guard
      (not (
        any
          (λ t.
            is_start_target task_id t
            && not (executions_exist (started_task execution_id attempt at t) db))
          db.tasks))
      integrity_error
  guard (length (select (is_start_target task_id) db.tasks) == 1)
      (worker_execution_rejected "Task changed concurrently")
  ok (record db {
    tasks = update (is_start_target task_id) (started_task execution_id attempt at) db.tasks;
  })

-- The history row of `_start_task`.
unfoldable pub task_history : StartIds → String → ℕ → String → Instant → TaskTransition
task_history ids task_id attempt owner_id at = record {
  transition_id = ids.task_transition_id;
  transition_request_id = ids.task_request_id;
  task_id = task_id;
  from_status = some pending;
  to_status = running;
  from_revision = some 0;
  to_revision = 1;
  actor_kind = "WORKER";
  actor_id = owner_id;
  reason_code = "WORKER_STARTED";
  reason_message = none;
  execution_id = some ids.execution_id;
  attempt_count = attempt;
  completion_execution_id = none;
  failure_code = none;
  failure_message = none;
  failure_recoverability = none;
  occurred_at = at;
}

unfoldable pub insert_start_request : StartRequestRow → Database → Result Database
insert_start_request row db = do
  guard (not (any (has_start_request row.request_id) db.worker_starts)) integrity_error
  guard (any (has_task_id row.task_id) db.tasks && execution_exists db row.execution_id)
      integrity_error
  ok (record db { worker_starts = row ∷ db.worker_starts })
