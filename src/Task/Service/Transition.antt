-- ===== src/Task/Service/Transition.antt =====
-- `transition_task` of task_lifecycle/service.py.
use factory_ops.Common.{
  String, Option, none, some, Bool, false, ◌&&◌, ◌||◌, not, if◌then◌else◌, ◌=s◌, same_option,
  same_int, unsigned_column, ℕ, ℤ,
}
use factory_ops.Session.{
  Result, ok, err, integrity_error, conditional_update_miss, lifecycle_rule_violation,
  task_not_found, raise, lift, attempt, begin, connect, ◌>>=◌,
}
use factory_ops.Session.Lookup.{found_or}
use factory_ops.Database.{Action}
use factory_ops.Run.Model.{Instant, concurrency_conflict, applied}
use factory_ops.Run.Service.Calls.{duplicate_outcome}
use factory_ops.Task.Model.{
  TaskStatus, running, succeeded, failed, same_status, TransitionCommand, TransitionPlan, TaskRow,
  TaskTransition,
}
use factory_ops.Task.Rules.{Attempt, plan_transition}
use factory_ops.Task.Contract.{TaskContract, to_contract}
use factory_ops.Task.Repository.{
  StoredTask, find_task, find_transition, TransitionUpdate, apply_transition,
}
use factory_ops.Task.Service.Calls.{
  Inputs, now, OperationResult, with_outcome, outcome_with_task, transition_values,
}

abbrev same_source : Option TaskStatus → TaskStatus → Bool
same_source none s = false
same_source (some t) s = same_status t s

abbrev same_from_revision : Option ℕ → ℤ → Bool
same_from_revision none z = false
same_from_revision (some n) z = same_int n z

-- The statuses whose transitions name an execution.
abbrev pub names_execution : TaskStatus → Bool
names_execution s = same_status s running || same_status s succeeded || same_status s failed

-- The comparison in `_classify_transition`.
unfoldable pub transition_matches : TransitionCommand → TaskTransition → Bool
transition_matches command row =
    row.task_id =s command.task_id
    && same_source row.from_status command.expected_status
    && same_status row.to_status command.to_status
    && same_from_revision row.from_revision command.expected_revision
    && row.actor_kind =s command.actor_kind
    && row.actor_id =s command.actor_id
    && row.reason_code =s command.reason_code
    && same_option row.reason_message (some command.reason_message)
    && same_option row.completion_execution_id command.completion_execution_id
    && same_option row.failure_code command.failure_code
    && same_option row.failure_message command.failure_message
    && same_option row.failure_recoverability command.failure_recoverability
    && (not (names_execution command.to_status)
        || same_option row.execution_id command.execution_id)

abbrev pub failure_execution : TransitionCommand → TransitionPlan → Option String
failure_execution command plan =
    if same_status command.to_status failed then plan.current_execution_id else none

-- The row that the transition would leave. Behind the test for staleness a revision is not negative.
unfoldable pub candidate : TransitionCommand → StoredTask → TransitionPlan → Instant → StoredTask
candidate command current plan at = record {
  row = record current.row {
    status = command.to_status;
    revision = unsigned_column plan.to_revision;
    updated_at = at;
    started_at = plan.started_at;
    ended_at = plan.ended_at;
    status_reason_code = some command.reason_code;
    status_reason_message = some command.reason_message;
    current_execution_id = plan.current_execution_id;
    attempt_count = plan.attempt_count;
    completion_execution_id = command.completion_execution_id;
    failure_execution_id = failure_execution command plan;
    failure_code = command.failure_code;
    failure_message = command.failure_message;
    failure_recoverability = command.failure_recoverability;
  };
  dependency_task_ids = current.dependency_task_ids;
}

-- The row of the history.
unfoldable pub transition_row :
    Inputs → TransitionCommand → TransitionPlan → Instant → TaskTransition
transition_row inputs command plan at =
    transition_values inputs command.transition_request_id command.task_id
      (some command.expected_status) command.to_status
      (some (unsigned_column command.expected_revision)) (unsigned_column plan.to_revision)
      command.actor_kind command.actor_id command.reason_code (some command.reason_message)
      plan.current_execution_id plan.attempt_count command.completion_execution_id
      command.failure_code command.failure_message command.failure_recoverability at

-- The parameters of the UPDATE.
unfoldable pub transition_update : TransitionCommand → TransitionPlan → Instant → TransitionUpdate
transition_update command plan at = record {
  task_id = command.task_id;
  expected_status = command.expected_status;
  expected_revision = unsigned_column command.expected_revision;
  to_status = command.to_status;
  to_revision = unsigned_column plan.to_revision;
  occurred_at = at;
  started_at = plan.started_at;
  ended_at = plan.ended_at;
  reason_code = command.reason_code;
  reason_message = some command.reason_message;
  execution_id = plan.current_execution_id;
  attempt_count = plan.attempt_count;
  completion_execution_id = command.completion_execution_id;
  failure_execution_id = failure_execution command plan;
  failure_code = command.failure_code;
  failure_message = command.failure_message;
  failure_recoverability = command.failure_recoverability;
}

-- `current` does not have the expected status and revision.
abbrev pub is_stale : TransitionCommand → TaskRow → Bool
is_stale command current =
    not (same_status current.status command.expected_status)
    || not (same_int current.revision command.expected_revision)

-- The attempt that a Task is in.
abbrev pub current_attempt : TaskRow → Attempt
current_attempt row = record {
  started_at = row.started_at;
  execution = row.current_execution_id;
  attempts = row.attempt_count;
}

module _ (matches : String → String → Bool) (sha256 : String → String) where
  -- `_classify_transition`
  unfoldable pub classify_transition : TransitionCommand → TaskTransition → Action OperationResult
  classify_transition command row =
      outcome_with_task matches sha256 (duplicate_outcome (transition_matches command row))
        row.task_id

  -- `find_transition`, and the classification of what it finds.
  unfoldable pub existing_or : TransitionCommand → Action OperationResult → Action OperationResult
  existing_or command otherwise = do
    existing ← connect (find_transition command.transition_request_id)
    found_or existing (classify_transition command) otherwise

  -- After `apply_transition`: its handlers, or the reload.
  unfoldable pub after_apply : TransitionCommand → Result (Unit {0}) → Action OperationResult
  after_apply command (ok _) = outcome_with_task matches sha256 applied command.task_id
  after_apply command (err conditional_update_miss) =
      existing_or command (outcome_with_task matches sha256 concurrency_conflict command.task_id)
  after_apply command (err integrity_error) = existing_or command (raise integrity_error)
  after_apply command (err e) = raise e

  -- After `_validate`.
  unfoldable pub after_candidate :
      Inputs
      → TransitionCommand
      → TransitionPlan
      → Instant
      → Result TaskContract
      → Action OperationResult
  after_candidate inputs command plan at (ok _) = do
    written ← attempt (
        begin (
          apply_transition (transition_update command plan at)
            (transition_row inputs command plan at)))
    after_apply command written
  after_candidate inputs command plan at (err e) =
      raise (lifecycle_rule_violation "Task Contract is invalid")

  -- After `plan_transition`, whose only exception is a rule violation.
  unfoldable pub after_plan :
      Inputs
      → TransitionCommand
      → StoredTask
      → Instant
      → Result TransitionPlan
      → Action OperationResult
  after_plan inputs command current at (ok plan) =
      after_candidate inputs command plan at
        (to_contract matches sha256 (candidate command current plan at))
  after_plan inputs command current at (err e) = existing_or command (raise e)

  unfoldable pub with_current :
      Inputs → TransitionCommand → Option StoredTask → Action OperationResult
  with_current inputs command none = existing_or command (raise (task_not_found command.task_id))
  with_current inputs command (some current) =
      if is_stale command current.row
      then existing_or command
          (lift (with_outcome concurrency_conflict (to_contract matches sha256 current)))
      else do
        at ← lift (now inputs.clock)
        after_plan inputs command current at
            (plan_transition command (current_attempt current.row) at)

  unfoldable pub transition_task : Inputs → TransitionCommand → Action OperationResult
  transition_task inputs command =
      existing_or command
        do current ← connect (find_task command.task_id); with_current inputs command current
