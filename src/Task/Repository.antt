-- ===== src/Task/Repository.antt =====
-- task_lifecycle/repository.py: each statement with the constraints on its table.
use factory_ops.Common.{
  ℕ, suc, String, Option, none, some, List, [], ◌∷◌, Bool, ◌&&◌, not, if◌then◌else◌, ◌==◌, leb,
  ◌=s◌, any, find, select, update, length, map,
}
use factory_ops.Session.{
  Result, ok, err, integrity_error, operational_error, data_error, conditional_update_miss,
  parent_run_missing, dependency_missing, cross_run_dependency,
}
use factory_ops.Session.Statements.{◌>>=◌, ◌>>◌, guard, statements}
use factory_ops.Database.{Database, Tx}
use factory_ops.Run.Model.{Instant}
use factory_ops.Run.Repository.{run_exists}
use factory_ops.Task.Model.{TaskStatus, same_status, TaskRow, TaskDependency, TaskTransition}
use factory_ops.Task.Constraints.{
  has_task_id, has_task_request, has_request, unsigned, task_checks, task_keys_free,
  executions_exist, transition_checks, transition_keys_free, dependency_keys_free,
}

-- A Task as `_find` returns it.
pub record StoredTask : Type 0 where
  pub row : TaskRow
  pub dependency_task_ids : List String

abbrev pub insert_by_ordinal : TaskDependency → List TaskDependency → List TaskDependency
insert_by_ordinal d [] = d ∷ []
insert_by_ordinal d (x ∷ xs) =
    let rest = insert_by_ordinal d xs in if leb d.ordinal x.ordinal then d ∷ x ∷ xs else x ∷ rest

-- `ORDER BY ordinal`
abbrev pub by_ordinal : List TaskDependency → List TaskDependency
by_ordinal [] = []
by_ordinal (d ∷ ds) = insert_by_ordinal d (by_ordinal ds)

unfoldable pub dependencies_of : String → Database → List String
dependencies_of task_id db =
    map (λ (d : TaskDependency). d.dependency_task_id)
      (by_ordinal (select (λ d. d.task_id =s task_id) db.task_dependencies))

abbrev with_dependencies : Database → Option TaskRow → Option StoredTask
with_dependencies db none = none
with_dependencies db (some row) =
    some (record { row = row; dependency_task_ids = dependencies_of row.task_id db })

unfoldable pub find_task : String → Database → Option StoredTask
find_task task_id db = with_dependencies db (find (has_task_id task_id) db.tasks)

unfoldable pub find_by_request : String → Database → Option StoredTask
find_by_request request_id db = with_dependencies db (find (has_task_request request_id) db.tasks)

unfoldable pub find_transition : String → Database → Option TaskTransition
find_transition request_id db = find (has_request request_id) db.task_transitions

-- `_insert_task`
unfoldable pub insert_task : TaskRow → Database → Result Database
insert_task r db = do
  guard (unsigned r.priority) data_error
  guard (task_checks r) operational_error
  guard (task_keys_free r db) integrity_error
  guard (run_exists db r.run_id && executions_exist r db) integrity_error
  ok (record db { tasks = r ∷ db.tasks })

-- `_insert_transition`
unfoldable pub insert_transition : TaskTransition → Database → Result Database
insert_transition t db = do
  guard (transition_checks t) operational_error
  guard (transition_keys_free t db) integrity_error
  guard (any (has_task_id t.task_id) db.tasks) integrity_error
  ok (record db { task_transitions = t ∷ db.task_transitions })

-- The run_id of the locked dependency.
abbrev pub same_run : String → String → Option TaskRow → Result (Unit {0})
same_run dependency run_id none = err (dependency_missing dependency)
same_run dependency run_id (some row) =
    guard (row.run_id =s run_id) (cross_run_dependency dependency)

unfoldable pub check_dependencies : List String → String → Database → Result (Unit {0})
check_dependencies [] run_id db = ok tt
check_dependencies (dependency ∷ rest) run_id db = do
  same_run dependency run_id (find (has_task_id dependency) db.tasks)
  check_dependencies rest run_id db

unfoldable pub insert_dependency : TaskDependency → Database → Result Database
insert_dependency d db = do
  guard (not (d.task_id =s d.dependency_task_id)) operational_error
  guard (dependency_keys_free d db.task_dependencies) integrity_error
  guard (any (has_task_id d.task_id) db.tasks && any (has_task_id d.dependency_task_id) db.tasks)
      integrity_error
  ok (record db { task_dependencies = d ∷ db.task_dependencies })

-- `for ordinal, dependency in enumerate(dependencies)`
unfoldable pub insert_dependencies : String → ℕ → List String → Database → Result Database
insert_dependencies task_id ordinal [] db = ok db
insert_dependencies task_id ordinal (dependency ∷ rest) db = do
  next ←
      insert_dependency
        (record { task_id = task_id; dependency_task_id = dependency; ordinal = ordinal }) db
  insert_dependencies task_id (suc ordinal) rest next

unfoldable pub create_statements :
    TaskRow → List String → TaskTransition → Database → Result Database
create_statements task dependencies transition db = do
  guard (run_exists db task.run_id) parent_run_missing
  check_dependencies dependencies task.run_id db
  created ← insert_task task db
  linked ← insert_dependencies task.task_id 0 dependencies created
  insert_transition transition linked

unfoldable pub create : TaskRow → List String → TaskTransition → Tx (Unit {0})
create task dependencies transition = statements (create_statements task dependencies transition)

-- The parameters of the UPDATE in `apply_transition`.
pub record TransitionUpdate : Type 0 where
  pub task_id : String
  pub expected_status : TaskStatus
  pub expected_revision : ℕ
  pub to_status : TaskStatus
  pub to_revision : ℕ
  pub occurred_at : Instant
  pub started_at : Option Instant
  pub ended_at : Option Instant
  pub reason_code : String
  pub reason_message : Option String
  pub execution_id : Option String
  pub attempt_count : ℕ
  pub completion_execution_id : Option String
  pub failure_execution_id : Option String
  pub failure_code : Option String
  pub failure_message : Option String
  pub failure_recoverability : Option String

unfoldable pub is_target : TransitionUpdate → TaskRow → Bool
is_target u r =
    r.task_id =s u.task_id
    && same_status r.status u.expected_status
    && r.revision == u.expected_revision

unfoldable pub updated_row : TransitionUpdate → TaskRow → TaskRow
updated_row u r = record r {
  status = u.to_status;
  revision = u.to_revision;
  updated_at = u.occurred_at;
  started_at = u.started_at;
  ended_at = u.ended_at;
  status_reason_code = some u.reason_code;
  status_reason_message = u.reason_message;
  current_execution_id = u.execution_id;
  attempt_count = u.attempt_count;
  completion_execution_id = u.completion_execution_id;
  failure_execution_id = u.failure_execution_id;
  failure_code = u.failure_code;
  failure_message = u.failure_message;
  failure_recoverability = u.failure_recoverability;
}

unfoldable pub update_task : TransitionUpdate → Database → Result Database
update_task u db = do
  guard (not (any (λ r. is_target u r && not (task_checks (updated_row u r))) db.tasks))
      operational_error
  guard (not (any (λ r. is_target u r && not (executions_exist (updated_row u r) db)) db.tasks))
      integrity_error
  guard (length (select (is_target u) db.tasks) == 1) conditional_update_miss
  ok (record db { tasks = update (is_target u) (updated_row u) db.tasks })

unfoldable pub apply_transition : TransitionUpdate → TaskTransition → Tx (Unit {0})
apply_transition u t = statements (λ db. do changed ← update_task u db; insert_transition t changed)
