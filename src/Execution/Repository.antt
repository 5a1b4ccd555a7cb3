-- ===== src/Execution/Repository.antt =====
-- execution_lifecycle/repository.py: each statement with the constraints on its table.
use factory_ops.Common.{
  ℕ, String, Option, none, some, List, ◌∷◌, Bool, ◌&&◌, not, ◌==◌, ◌=s◌, any, find, select, update,
  length,
}
use factory_ops.Session.{
  Result, ok, err, integrity_error, operational_error, data_error, conditional_update_miss,
  parent_run_missing, parent_task_missing, parent_task_mismatch,
}
use factory_ops.Session.Statements.{◌>>=◌, ◌>>◌, guard, statements}
use factory_ops.Database.{Database, Tx}
use factory_ops.Run.Model.{Instant}
use factory_ops.Run.Repository.{run_exists}
use factory_ops.Task.Model.{TaskRow}
use factory_ops.Task.Constraints.{has_task_id, unsigned}
use factory_ops.Execution.Model.{ExecutionStatus, same_status, ExecutionRow, ExecutionTransition}
use factory_ops.Execution.Constraints.{
  has_execution_id, has_key, has_request, execution_exists, execution_checks, execution_keys_free,
  execution_parents_exist, transition_checks, transition_keys_free,
}

unfoldable pub find_execution : String → Database → Option ExecutionRow
find_execution execution_id db = find (has_execution_id execution_id) db.executions

unfoldable pub find_by_key : String → Database → Option ExecutionRow
find_by_key key db = find (has_key key) db.executions

unfoldable pub find_transition : String → Database → Option ExecutionTransition
find_transition request_id db = find (has_request request_id) db.execution_transitions

-- `_insert_execution`
unfoldable pub insert_execution : ExecutionRow → Database → Result Database
insert_execution r db = do
  guard (unsigned r.attempt) data_error
  guard (execution_checks r) operational_error
  guard (execution_keys_free r db) integrity_error
  guard (execution_parents_exist r db) integrity_error
  ok (record db { executions = r ∷ db.executions })

-- `_insert_transition`
unfoldable pub insert_transition : ExecutionTransition → Database → Result Database
insert_transition t db = do
  guard (transition_checks t) operational_error
  guard (transition_keys_free t db) integrity_error
  guard (execution_exists db t.execution_id) integrity_error
  ok (record db { execution_transitions = t ∷ db.execution_transitions })

-- The test of the locked Task.
abbrev task_fits : ExecutionRow → Option TaskRow → Result (Unit {0})
task_fits execution none = err parent_task_missing
task_fits execution (some task) =
    guard (task.run_id =s execution.run_id && task.target_agent_role =s execution.agent_role)
      parent_task_mismatch

unfoldable pub check_task : ExecutionRow → Option String → Database → Result (Unit {0})
check_task execution none db = ok tt
check_task execution (some task_id) db = task_fits execution (find (has_task_id task_id) db.tasks)

unfoldable pub create_statements : ExecutionRow → ExecutionTransition → Database → Result Database
create_statements execution transition db = do
  guard (run_exists db execution.run_id) parent_run_missing
  check_task execution execution.task_id db
  created ← insert_execution execution db
  insert_transition transition created

unfoldable pub create : ExecutionRow → ExecutionTransition → Tx (Unit {0})
create execution transition = statements (create_statements execution transition)

-- The parameters of the UPDATE in `apply`.
pub record ExecutionUpdate : Type 0 where
  pub execution_id : String
  pub expected_status : ExecutionStatus
  pub expected_revision : ℕ
  pub to_status : ExecutionStatus
  pub to_revision : ℕ
  pub occurred_at : Instant
  pub started_at : Option Instant
  pub ended_at : Option Instant
  pub reason_code : String
  pub reason_message : String
  pub output_artifact_refs : Option (List String)
  pub decision_id : Option String
  pub result_evidence_refs : Option (List String)
  pub failure_code : Option String
  pub failure_message : Option String
  pub failure_recoverability : Option String
  pub failed_dependency_ref : Option String

-- The WHERE clause.
unfoldable pub is_target : ExecutionUpdate → ExecutionRow → Bool
is_target u r =
    r.execution_id =s u.execution_id
    && same_status r.status u.expected_status
    && r.revision == u.expected_revision

-- The SET clause.
unfoldable pub updated_row : ExecutionUpdate → ExecutionRow → ExecutionRow
updated_row u r = record r {
  status = u.to_status;
  revision = u.to_revision;
  updated_at = u.occurred_at;
  started_at = u.started_at;
  ended_at = u.ended_at;
  status_reason_code = some u.reason_code;
  status_reason_message = some u.reason_message;
  output_artifact_refs = u.output_artifact_refs;
  decision_id = u.decision_id;
  result_evidence_refs = u.result_evidence_refs;
  failure_code = u.failure_code;
  failure_message = u.failure_message;
  failure_recoverability = u.failure_recoverability;
  failed_dependency_ref = u.failed_dependency_ref;
}

-- Whether the UPDATE would break a CHECK on a row that it changes.
unfoldable pub update_breaks_check : ExecutionUpdate → List ExecutionRow → Bool
update_breaks_check u rows =
    any (λ r. is_target u r && not (execution_checks (updated_row u r))) rows

unfoldable pub update_execution : ExecutionUpdate → Database → Result Database
update_execution u db = do
  guard (not (update_breaks_check u db.executions)) operational_error
  guard (length (select (is_target u) db.executions) == 1) conditional_update_miss
  ok (record db { executions = update (is_target u) (updated_row u) db.executions })

unfoldable pub apply_statements : ExecutionUpdate → ExecutionTransition → Database → Result Database
apply_statements u t db = do changed ← update_execution u db; insert_transition t changed

unfoldable pub apply : ExecutionUpdate → ExecutionTransition → Tx (Unit {0})
apply u t = statements (apply_statements u t)
