-- ===== src/Execution/Constraints.antt =====
-- The constraints of migration 004 on the two tables of Executions. A CHECK passes unless it is
-- false.
use factory_ops.Common.{
  ℕ, ◌+◌, String, Option, none, some, [], ◌∷◌, Bool, true, false, ◌&&◌, ◌||◌, not, ◌==◌, ◌=s◌, any,
  contains, present, absent,
}
use factory_ops.Database.{Database}
use factory_ops.Run.Repository.{run_exists}
use factory_ops.Task.Constraints.{has_task_id}
use factory_ops.Execution.Model.{
  ExecutionStatus, pending, running, succeeded, failed, cancelled, same_status, ExecutionRow,
  ExecutionTransition,
}

abbrev pub has_execution_id : String → ExecutionRow → Bool
has_execution_id id row = row.execution_id =s id

abbrev pub has_key : String → ExecutionRow → Bool
has_key key row = row.execution_key =s key

abbrev pub has_request : String → ExecutionTransition → Bool
has_request request_id t = t.transition_request_id =s request_id

abbrev pub same_slot : String → ℕ → ExecutionTransition → Bool
same_slot execution_id revision t = t.execution_id =s execution_id && t.to_revision == revision

-- chk_agent_executions_role
role_check : ExecutionRow → Bool
role_check r =
    (r.agent_role =s "coordinator" && absent r.task_id)
    || (contains ("quality" ∷ "production" ∷ "sla" ∷ "risk" ∷ []) r.agent_role && present r.task_id)

-- chk_agent_executions_lifecycle
unfoldable pub lifecycle_check : ExecutionStatus → ExecutionRow → Bool
lifecycle_check pending r = r.revision == 0 && absent r.started_at && absent r.ended_at
lifecycle_check running r = present r.started_at && absent r.ended_at
lifecycle_check succeeded r = present r.started_at && present r.ended_at
lifecycle_check failed r = present r.started_at && present r.ended_at
lifecycle_check cancelled r = present r.ended_at

abbrev no_result : ExecutionRow → Bool
no_result r = absent r.output_artifact_refs && absent r.decision_id && absent r.result_evidence_refs

abbrev no_failure : ExecutionRow → Bool
no_failure r =
    absent r.failure_code
    && absent r.failure_message
    && absent r.failure_recoverability
    && absent r.failed_dependency_ref

-- chk_agent_executions_result
unfoldable pub result_check : ExecutionStatus → ExecutionRow → Bool
result_check succeeded r = present r.output_artifact_refs && no_failure r
result_check failed r =
    no_result r
    && present r.failure_code
    && present r.failure_message
    && present r.failure_recoverability
result_check _ r = no_result r && no_failure r

unfoldable pub execution_checks : ExecutionRow → Bool
unfolding role_check lifecycle_check result_check
execution_checks r = role_check r && lifecycle_check r.status r && result_check r.status r

abbrev pub execution_exists : Database → String → Bool
execution_exists db id = any (has_execution_id id) db.executions

unfoldable pub execution_keys_free : ExecutionRow → Database → Bool
execution_keys_free r db =
    not (execution_exists db r.execution_id) && not (any (has_key r.execution_key) db.executions)

abbrev task_exists : Database → Option String → Bool
task_exists db none = true
task_exists db (some id) = any (has_task_id id) db.tasks

-- The foreign keys.
unfoldable pub execution_parents_exist : ExecutionRow → Database → Bool
execution_parents_exist r db = run_exists db r.run_id && task_exists db r.task_id

abbrev steps_by_one : Option ℕ → ℕ → Bool
steps_by_one none to = false
steps_by_one (some from) to = to == from + 1

-- chk_execution_transitions_revision
unfoldable pub transition_checks : ExecutionTransition → Bool
transition_checks t =
    (absent t.from_status
      && absent t.from_revision
      && same_status t.to_status pending
      && t.to_revision == 0)
    || (present t.from_status && steps_by_one t.from_revision t.to_revision)

unfoldable pub transition_keys_free : ExecutionTransition → Database → Bool
transition_keys_free t db =
    not (any (λ x. x.transition_id =s t.transition_id) db.execution_transitions)
    && not (any (has_request t.transition_request_id) db.execution_transitions)
    && not (any (same_slot t.execution_id t.to_revision) db.execution_transitions)
