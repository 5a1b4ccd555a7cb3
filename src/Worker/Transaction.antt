-- ===== src/Worker/Transaction.antt =====
-- The transaction of `start` of worker_task_execution.py.
use factory_ops.Common.{◌+◌, String, Option, none, some, ◌&&◌, not, ◌==◌, ◌=s◌, pos}
use factory_ops.Session.{Result, ok, err, worker_execution_rejected}
use factory_ops.Session.Statements.{◌>>=◌, ◌>>◌, guard}
use factory_ops.Database.{Database, Tx}
use factory_ops.Run.Model.{Instant, applied}
use factory_ops.Run.Service.Calls.{duplicate_outcome}
use factory_ops.Execution.Contract.{Libraries, compute_execution_key}
use factory_ops.Execution.Repository.{insert_execution}
use factory_ops.Execution.Repository as Executions
use factory_ops.Task.Model.{pending, same_status, TaskRow}
use factory_ops.Task.LeaseTable.{find_lease}
use factory_ops.Task.Repository.{insert_transition}
use factory_ops.Worker.Model.{
  StartWorkerExecutionCommand, WorkerExecutionResult, StartRequestRow, StartIds,
}
use factory_ops.Worker.Repository.{
  find_start_request, lock_task, holds_lease, has_open_dependency, running_execution,
  created_history, started_history, update_started, task_history, insert_start_request,
}

-- The tests of the locked Task and lease, which hand the Task on.
unfoldable pub admitted :
    StartWorkerExecutionCommand → Instant → Database → Option TaskRow → Result TaskRow
admitted c at db none = err (worker_execution_rejected "Task does not exist")
admitted c at db (some task) = do
  guard (same_status task.status pending && task.revision == 0)
      (worker_execution_rejected "Task is not PENDING")
  guard (holds_lease c.owner_id c.lease_token at (find_lease c.task_id db))
      (worker_execution_rejected "lease is missing, stale, or expired")
  guard (not (has_open_dependency c.task_id db))
      (worker_execution_rejected "Task dependencies are not satisfied")
  ok task

-- `_classify`
unfoldable pub classify_request : String → StartRequestRow → WorkerExecutionResult
classify_request command_hash row = record {
  outcome = duplicate_outcome (row.command_hash =s command_hash);
  task_id = some row.task_id;
  execution_id = some row.execution_id;
}

-- `hash` is SHA-256 of what json.dumps prints for a command.
module _ (x : Libraries) (hash : StartWorkerExecutionCommand → String) where
  abbrev pub key_of : StartWorkerExecutionCommand → TaskRow → String
  key_of c task =
      compute_execution_key x task.run_id task.target_agent_role (some c.task_id)
        (pos (task.attempt_count + 1))

  unfoldable pub request_row : StartIds → StartWorkerExecutionCommand → Instant → StartRequestRow
  request_row ids c at = record {
    request_id = c.request_id;
    command_hash = hash c;
    task_id = c.task_id;
    execution_id = ids.execution_id;
    created_at = at;
  }

  -- The writes, for the locked Task.
  unfoldable pub write_start :
      StartIds → StartWorkerExecutionCommand → Instant → TaskRow → Database → Result Database
  write_start ids c at task db = do
    inserted ← insert_execution (running_execution c ids.execution_id (key_of c task) task at) db
    created ← Executions.insert_transition (created_history ids at) inserted
    running ← Executions.insert_transition (started_history ids c.owner_id at) created
    started ← update_started task.task_id ids.execution_id (task.attempt_count + 1) at running
    moved ←
        insert_transition (task_history ids task.task_id (task.attempt_count + 1) c.owner_id at)
          started
    insert_start_request (request_row ids c at) moved

  abbrev pub start_statements :
      StartIds → StartWorkerExecutionCommand → Instant → Database → Result Database
  start_statements ids c at db = do
    task ← admitted c at db (lock_task c.task_id db)
    write_start ids c at task db

  abbrev pub applied_result : StartIds → StartWorkerExecutionCommand → WorkerExecutionResult
  applied_result ids c = record {
    outcome = applied;
    task_id = some c.task_id;
    execution_id = some ids.execution_id;
  }

  abbrev pub settle_start :
      StartIds
      → StartWorkerExecutionCommand
      → Database
      → Result Database
      → Result WorkerExecutionResult × Database
  settle_start ids c db (ok db') = (ok (applied_result ids c), db')
  settle_start ids c db (err e) = (err e, db)

  abbrev pub replay_or :
      StartWorkerExecutionCommand
      → Database
      → Result WorkerExecutionResult × Database
      → Option StartRequestRow
      → Result WorkerExecutionResult × Database
  replay_or c db fresh (some row) = (ok (classify_request (hash c) row), db)
  replay_or c db fresh none = fresh

  -- `with connection.begin()`
  unfoldable pub start_transaction :
      StartIds → StartWorkerExecutionCommand → Instant → Tx WorkerExecutionResult
  start_transaction ids c at db =
      replay_or c db (settle_start ids c db (start_statements ids c at db))
        (find_start_request c.request_id db)
