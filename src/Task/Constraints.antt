-- ===== src/Task/Constraints.antt =====
-- The constraints of migrations 003 and 004 on the tables of Tasks. A CHECK passes unless it is
-- false: an equation with a NULL side does not fail.
use factory_ops.Common.{
  ℕ, ◌+◌, String, Option, none, some, List, Bool, true, false, ◌&&◌, ◌||◌, not, ◌==◌, leb, ◌=s◌,
  same_option, any, present, absent, ℤ, pos, negsuc,
}
use factory_ops.Execution.Model.{ExecutionRow}
use factory_ops.Database.{Database}
use factory_ops.Task.Model.{
  TaskStatus, pending, running, succeeded, failed, cancelled, skipped, same_status, TaskRow,
  TaskDependency, TaskTransition,
}

abbrev pub has_task_id : String → TaskRow → Bool
has_task_id id row = row.task_id =s id

abbrev pub has_task_request : String → TaskRow → Bool
has_task_request id row = row.task_request_id =s id

abbrev pub has_request : String → TaskTransition → Bool
has_request request_id t = t.transition_request_id =s request_id

-- `a = b` in a CHECK.
abbrev may_equal : Option String → Option String → Bool
may_equal a b = absent a || absent b || same_option a b

-- chk_agent_tasks_lifecycle
lifecycle_check : TaskStatus → TaskRow → Bool
lifecycle_check pending r =
    r.revision == 0
    && absent r.started_at
    && absent r.ended_at
    && absent r.current_execution_id
    && r.attempt_count == 0
lifecycle_check running r =
    present r.started_at
    && absent r.ended_at
    && present r.current_execution_id
    && leb 1 r.attempt_count
lifecycle_check succeeded r =
    present r.started_at
    && present r.ended_at
    && present r.current_execution_id
    && leb 1 r.attempt_count
lifecycle_check failed r =
    present r.started_at
    && present r.ended_at
    && present r.current_execution_id
    && leb 1 r.attempt_count
lifecycle_check cancelled r = present r.ended_at
lifecycle_check skipped r = present r.ended_at

abbrev no_failure : TaskRow → Bool
no_failure r =
    absent r.failure_execution_id
    && absent r.failure_code
    && absent r.failure_message
    && absent r.failure_recoverability

-- chk_agent_tasks_result
result_check : TaskStatus → TaskRow → Bool
result_check succeeded r =
    may_equal r.completion_execution_id r.current_execution_id && no_failure r
result_check failed r =
    may_equal r.failure_execution_id r.current_execution_id
    && absent r.completion_execution_id
    && present r.failure_code
    && present r.failure_message
    && may_equal r.failure_recoverability (some "non_retryable")
result_check _ r = absent r.completion_execution_id && no_failure r

-- `INT UNSIGNED`
abbrev pub unsigned : ℤ → Bool
unsigned (pos n) = true
unsigned (negsuc _) = false

-- chk_agent_tasks_priority
abbrev low_priority : ℤ → Bool
low_priority (pos n) = leb n 100
low_priority (negsuc _) = true

unfoldable pub task_checks : TaskRow → Bool
unfolding lifecycle_check result_check
task_checks r = low_priority r.priority && lifecycle_check r.status r && result_check r.status r

unfoldable pub task_keys_free : TaskRow → Database → Bool
task_keys_free r db =
    not (any (has_task_id r.task_id) db.tasks)
    && not (any (has_task_request r.task_request_id) db.tasks)
    && not (any (λ x. x.task_key =s r.task_key) db.tasks)

abbrev refers : Database → Option String → Bool
refers db none = true
refers db (some id) = any (λ (e : ExecutionRow). e.execution_id =s id) db.executions

-- The foreign keys to agent_executions.
unfoldable pub executions_exist : TaskRow → Database → Bool
executions_exist r db =
    refers db (some r.created_by_execution_id)
    && refers db r.current_execution_id
    && refers db r.completion_execution_id
    && refers db r.failure_execution_id

abbrev steps_by_one : Option ℕ → ℕ → Bool
steps_by_one none to = false
steps_by_one (some from) to = to == from + 1

-- chk_task_transitions_revision
unfoldable pub transition_checks : TaskTransition → Bool
transition_checks t =
    (absent t.from_status
      && absent t.from_revision
      && same_status t.to_status pending
      && t.to_revision == 0)
    || (present t.from_status && steps_by_one t.from_revision t.to_revision)

unfoldable pub transition_keys_free : TaskTransition → Database → Bool
transition_keys_free t db =
    not (any (λ x. x.transition_id =s t.transition_id) db.task_transitions)
    && not (any (has_request t.transition_request_id) db.task_transitions)
    && not (any (λ x. x.task_id =s t.task_id && x.to_revision == t.to_revision) db.task_transitions)

abbrev pub dependency_keys_free : TaskDependency → List TaskDependency → Bool
dependency_keys_free d rows =
    not (any (λ x. x.task_id =s d.task_id && x.dependency_task_id =s d.dependency_task_id) rows)
    && not (any (λ x. x.task_id =s d.task_id && x.ordinal == d.ordinal) rows)
