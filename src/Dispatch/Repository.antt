-- ===== src/Dispatch/Repository.antt =====
-- coordinator_task_dispatch/repository.py: the transaction that dispatches a Task.
use factory_ops.Common.{
  ℕ, suc, String, Option, none, some, List, [], ◌∷◌, Bool, false, ◌&&◌, ◌||◌, not, if◌then◌else◌,
  ◌==◌, ◌=s◌, any, find, select, update, length,
}
use factory_ops.Session.{Result, ok, operational_error, coordinator_execution_rejected}
use factory_ops.Session.Statements.{◌>>=◌, ◌>>◌, guard, statements}
use factory_ops.Database.{Database, Tx}
use factory_ops.Run.Model.{Instant}
use factory_ops.Run.Repository.{run_exists}
use factory_ops.Execution.Model.{pending, running, same_status, ExecutionRow, ExecutionTransition}
use factory_ops.Execution.Constraints.{has_execution_id, execution_checks}
use factory_ops.Execution.Repository.{find_execution}
use factory_ops.Execution.Repository as Executions
use factory_ops.Task.Model.{TaskRow, TaskTransition}
use factory_ops.Task.Constraints.{has_task_id}
use factory_ops.Task.Repository.{insert_task, insert_dependency, insert_transition}

-- The tests of the locked owner.
abbrev pub may_dispatch : TaskRow → Option ExecutionRow → Bool
may_dispatch task none = false
may_dispatch task (some owner) =
    owner.agent_role =s "coordinator"
    && (same_status owner.status pending || same_status owner.status running)
    && owner.run_id =s task.run_id

abbrev is_pending : Option ExecutionRow → Bool
is_pending none = false
is_pending (some owner) = same_status owner.status pending

-- The SET clause.
unfoldable pub started_execution : Instant → ExecutionRow → ExecutionRow
started_execution at owner = record owner {
  status = running;
  revision = 1;
  updated_at = at;
  started_at = some at;
  status_reason_code = some "COORDINATOR_EXECUTION_STARTED";
  status_reason_message = some "Coordinator execution started";
}

-- The WHERE clause.
unfoldable pub is_waiting : String → ExecutionRow → Bool
is_waiting id owner =
    has_execution_id id owner && same_status owner.status pending && owner.revision == 0

unfoldable pub update_waiting : String → Instant → Database → Result Database
update_waiting id at db = do
  guard
      (not (
        any (λ r. is_waiting id r && not (execution_checks (started_execution at r)))
          db.executions))
      operational_error
  guard (length (select (is_waiting id) db.executions) == 1)
      (coordinator_execution_rejected "Coordinator execution changed concurrently")
  ok (record db { executions = update (is_waiting id) (started_execution at) db.executions })

-- The start of a PENDING owner, with its history.
unfoldable pub start_owner :
    Option ExecutionRow → String → ExecutionTransition → Database → Result Database
start_owner owner id execution_history db =
    if is_pending owner
    then (do
      started ← update_waiting id execution_history.occurred_at db
      Executions.insert_transition execution_history started)
    else ok db

abbrev pub in_same_run : String → Option TaskRow → Bool
in_same_run run_id none = false
in_same_run run_id (some task) = task.run_id =s run_id

-- `for ordinal, dependency in enumerate(dependencies)`
unfoldable pub link_dependencies : TaskRow → ℕ → List String → Database → Result Database
link_dependencies task ordinal [] db = ok db
link_dependencies task ordinal (dependency ∷ rest) db = do
  guard (in_same_run task.run_id (find (has_task_id dependency) db.tasks))
      (coordinator_execution_rejected "dependency Task must exist in same Run")
  next ←
      insert_dependency
        (record { task_id = task.task_id; dependency_task_id = dependency; ordinal = ordinal }) db
  link_dependencies task (suc ordinal) rest next

unfoldable pub dispatch_statements :
    TaskRow → List String → TaskTransition → ExecutionTransition → Database → Result Database
dispatch_statements task dependencies history execution_history db = do
  guard (may_dispatch task (find_execution task.created_by_execution_id db))
      (coordinator_execution_rejected "Coordinator execution must be RUNNING and share Run")
  guard (run_exists db task.run_id) (coordinator_execution_rejected "parent Run does not exist")
  started ←
      start_owner (find_execution task.created_by_execution_id db) task.created_by_execution_id
        execution_history db
  created ← insert_task task started
  linked ← link_dependencies task 0 dependencies created
  insert_transition history linked

-- `dispatch`
unfoldable pub dispatch :
    TaskRow → List String → TaskTransition → ExecutionTransition → Tx (Unit {0})
dispatch task dependencies history execution_history =
    statements (dispatch_statements task dependencies history execution_history)
