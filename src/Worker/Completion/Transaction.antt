-- ===== src/Worker/Completion/Transaction.antt =====
-- The transaction of `complete` of worker_task_execution.py, with the constraints of migration 008.
use factory_ops.Common.{
  String, Option, none, some, ◌∷◌, Bool, ◌&&◌, ◌||◌, not, ◌==◌, ltb, ◌=s◌, any, find, select,
  update, length, same_option,
}
use factory_ops.Session.{
  Result, ok, err, integrity_error, operational_error, worker_execution_rejected,
}
use factory_ops.Session.Statements.{◌>>=◌, ◌>>◌, guard}
use factory_ops.Database.{Database, Tx}
use factory_ops.Run.Model.{Instant, applied}
use factory_ops.Run.Service.Calls.{duplicate_outcome}
use factory_ops.Execution.Contract.{Libraries}
use factory_ops.Execution.Model.{ExecutionRow}
use factory_ops.Execution.Model as E
use factory_ops.Execution.Constraints.{has_execution_id, execution_exists, execution_checks}
use factory_ops.Execution.Repository.{find_execution}
use factory_ops.Execution.Repository as Executions
use factory_ops.Task.Model.{running, same_status, TaskRow, LeaseRow}
use factory_ops.Task.Constraints.{has_task_id, task_checks, executions_exist}
use factory_ops.Task.LeaseTable.{find_lease}
use factory_ops.Task.Repository.{insert_transition}
use factory_ops.Worker.Model.{
  CompleteWorkerExecutionCommand, WorkerExecutionResult, CompletionRequestRow, CompletionIds,
}
use factory_ops.Worker.Repository.{lock_task, holds_lease}
use factory_ops.Worker.Completion.{
  finished_execution, completion_history, finished_task, finished_history,
}

abbrev has_completion_request : String → CompletionRequestRow → Bool
has_completion_request id row = row.request_id =s id

-- `_find_completion_request`
unfoldable pub find_completion_request : String → Database → Option CompletionRequestRow
find_completion_request request_id db =
    find (has_completion_request request_id) db.worker_completions

-- The WHERE clause of `_finish_execution`.
unfoldable pub is_finishing : String → ExecutionRow → Bool
is_finishing id e = has_execution_id id e && E.same_status e.status E.running && e.revision == 1

unfoldable pub update_finished :
    CompleteWorkerExecutionCommand → Instant → Database → Result Database
update_finished c at db = do
  guard
      (not (
        any
          (λ e. is_finishing c.execution_id e && not (execution_checks (finished_execution c at e)))
          db.executions))
      operational_error
  guard (length (select (is_finishing c.execution_id) db.executions) == 1)
      (worker_execution_rejected "Execution changed concurrently")
  ok (record db {
    executions = update (is_finishing c.execution_id) (finished_execution c at) db.executions;
  })

-- The WHERE clause of `_finish_task`.
unfoldable pub is_task_finishing : CompleteWorkerExecutionCommand → TaskRow → Bool
is_task_finishing c t =
    has_task_id c.task_id t
    && same_status t.status running
    && t.revision == 1
    && same_option t.current_execution_id (some c.execution_id)

unfoldable pub update_task_finished :
    CompleteWorkerExecutionCommand → Instant → Database → Result Database
update_task_finished c at db = do
  guard
      (not (any (λ t. is_task_finishing c t && not (task_checks (finished_task c at t))) db.tasks))
      operational_error
  guard
      (not (
        any (λ t. is_task_finishing c t && not (executions_exist (finished_task c at t) db))
          db.tasks))
      integrity_error
  guard (length (select (is_task_finishing c) db.tasks) == 1)
      (worker_execution_rejected "Task changed concurrently")
  ok (record db { tasks = update (is_task_finishing c) (finished_task c at) db.tasks })

-- The WHERE clause of the DELETE.
unfoldable pub is_consumed : CompleteWorkerExecutionCommand → Instant → LeaseRow → Bool
is_consumed c at l =
    l.task_id =s c.task_id
    && l.owner_id =s c.owner_id
    && l.lease_token =s c.lease_token
    && ltb at l.expires_at

unfoldable pub delete_lease : CompleteWorkerExecutionCommand → Instant → Database → Result Database
delete_lease c at db = do
  guard (length (select (is_consumed c at) db.leases) == 1)
      (worker_execution_rejected "lease changed concurrently")
  ok (record db { leases = select (λ l. not (is_consumed c at l)) db.leases })

unfoldable pub insert_completion : CompletionRequestRow → Database → Result Database
insert_completion row db = do
  guard (row.final_status =s "SUCCEEDED" || row.final_status =s "FAILED") operational_error
  guard (not (any (has_completion_request row.request_id) db.worker_completions)) integrity_error
  guard (any (has_task_id row.task_id) db.tasks && execution_exists db row.execution_id)
      integrity_error
  ok (record db { worker_completions = row ∷ db.worker_completions })

-- The Task and the Execution are running for each other.
unfoldable pub is_running_pair : CompleteWorkerExecutionCommand → TaskRow → ExecutionRow → Bool
is_running_pair c task e =
    same_status task.status running
    && same_option task.current_execution_id (some c.execution_id)
    && E.same_status e.status E.running
    && same_option e.task_id (some c.task_id)
    && e.run_id =s task.run_id

-- The tests of the locked rows, which hand the Task on.
unfoldable pub completable :
    CompleteWorkerExecutionCommand
    → Instant
    → Database
    → Option TaskRow
    → Option ExecutionRow
    → Result TaskRow
completable c at db (some task) (some e) = do
  guard (is_running_pair c task e)
      (worker_execution_rejected "Task and Execution are not current RUNNING pair")
  guard (holds_lease c.owner_id c.lease_token at (find_lease c.task_id db))
      (worker_execution_rejected "lease is missing, stale, or expired")
  ok task
completable c at db _ _ = err (worker_execution_rejected "Task or Execution does not exist")

-- `_classify`
unfoldable pub classify_completion : String → CompletionRequestRow → WorkerExecutionResult
classify_completion command_hash row = record {
  outcome = duplicate_outcome (row.command_hash =s command_hash);
  task_id = some row.task_id;
  execution_id = some row.execution_id;
}

-- `hash` is `_completion_hash`.
module _ (x : Libraries) (hash : CompleteWorkerExecutionCommand → String) where
  unfoldable pub completion_row : CompleteWorkerExecutionCommand → Instant → CompletionRequestRow
  completion_row c at = record {
    request_id = c.request_id;
    command_hash = hash c;
    task_id = c.task_id;
    execution_id = c.execution_id;
    final_status = c.final_status;
    created_at = at;
  }

  -- The writes, for the locked Task.
  unfoldable pub write_completion :
      CompletionIds
      → CompleteWorkerExecutionCommand
      → Instant
      → TaskRow
      → Database
      → Result Database
  write_completion ids c at task db = do
    finished ← update_finished c at db
    recorded ← Executions.insert_transition (completion_history x ids c c.execution_id at) finished
    moved ← update_task_finished c at recorded
    told ← insert_transition (finished_history ids c task at) moved
    freed ← delete_lease c at told
    insert_completion (completion_row c at) freed

  abbrev pub complete_statements :
      CompletionIds → CompleteWorkerExecutionCommand → Instant → Database → Result Database
  complete_statements ids c at db = do
    task ← completable c at db (lock_task c.task_id db) (find_execution c.execution_id db)
    write_completion ids c at task db

  abbrev pub settle_completion :
      CompleteWorkerExecutionCommand
      → Database
      → Result Database
      → Result WorkerExecutionResult × Database
  settle_completion c db (ok db') = (
    ok (record { outcome = applied; task_id = some c.task_id; execution_id = some c.execution_id }),
    db',
  )
  settle_completion c db (err e) = (err e, db)

  abbrev pub completion_replay_or :
      CompleteWorkerExecutionCommand
      → Database
      → Result WorkerExecutionResult × Database
      → Option CompletionRequestRow
      → Result WorkerExecutionResult × Database
  completion_replay_or c db fresh (some row) = (ok (classify_completion (hash c) row), db)
  completion_replay_or c db fresh none = fresh

  -- `with connection.begin()`
  unfoldable pub complete_transaction :
      CompletionIds → CompleteWorkerExecutionCommand → Instant → Tx WorkerExecutionResult
  complete_transaction ids c at db =
      completion_replay_or c db (settle_completion c db (complete_statements ids c at db))
        (find_completion_request c.request_id db)
