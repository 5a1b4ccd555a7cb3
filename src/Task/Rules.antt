-- ===== src/Task/Rules.antt =====
-- task_lifecycle/rules.py: the legal transitions of a Task, and the plan of one.
pub mod Plan
mod Tests
use factory_ops.Common.{
  ℕ, ◌+◌, String, Option, none, some, List, [], ◌∷◌, Bool, true, false, ◌&&◌, ◌||◌, not,
  if◌then◌else◌, any, present, truthy, is_blank, matches_reason_code, same_option, next,
}
use factory_ops.Session.{Result, ok, err, lifecycle_rule_violation}
use factory_ops.Run.Model.{Instant}
use factory_ops.Task.Model.{
  TaskStatus, pending, running, succeeded, failed, cancelled, skipped, same_status,
  TransitionCommand, TransitionPlan,
}

unfoldable pub legal : TaskStatus → List TaskStatus
legal pending = running ∷ cancelled ∷ skipped ∷ []
legal running = running ∷ succeeded ∷ failed ∷ cancelled ∷ []
legal succeeded = []
legal failed = []
legal cancelled = []
legal skipped = []

unfoldable pub terminal : List TaskStatus
terminal = succeeded ∷ failed ∷ cancelled ∷ skipped ∷ []

abbrev member : TaskStatus → List TaskStatus → Bool
member s = any (λ t. same_status t s)

unfoldable pub is_legal : TaskStatus → TaskStatus → Bool
unfolding legal any
is_legal from to = member to (legal from)

unfoldable pub is_terminal : TaskStatus → Bool
unfolding terminal any
is_terminal s = member s terminal

abbrev refuse : {A : Type 0} → String → Result A
refuse message = err (lifecycle_rule_violation message)

-- The attempt that the Task is in: when it started, its execution, and its number.
pub record Attempt : Type 0 where
  pub started_at : Option Instant
  pub execution : Option String
  pub attempts : ℕ

abbrev first_start : Option Instant → Instant → Option Instant
first_start none occurred_at = some occurred_at
first_start (some t) occurred_at = some t

-- The branches on `to_status`.
unfoldable pub planned_attempt : TransitionCommand → Instant → TaskStatus → Attempt → Result Attempt
planned_attempt command occurred_at running current =
    if not (truthy command.execution_id)
    then refuse "RUNNING requires execution_id"
    else if same_option command.execution_id current.execution
    then refuse "new attempt requires a new execution_id"
    else ok (record {
      started_at = first_start current.started_at occurred_at;
      execution = command.execution_id;
      attempts = current.attempts + 1;
    })
planned_attempt command occurred_at succeeded current =
    if not (truthy current.execution) || not (same_option command.execution_id current.execution)
    then refuse "terminal result must reference current execution"
    else ok current
planned_attempt command occurred_at failed current =
    if not (truthy current.execution) || not (same_option command.execution_id current.execution)
    then refuse "terminal result must reference current execution"
    else ok current
planned_attempt command occurred_at _ current =
    if present command.execution_id
    then refuse "CANCELLED or SKIPPED cannot carry execution_id"
    else ok current

-- The guards on the results, and the plan.
unfoldable pub planned_result : TransitionCommand → Instant → Result Attempt → Result TransitionPlan
planned_result command occurred_at (err e) = err e
planned_result command occurred_at (ok attempt) =
    if same_status command.to_status succeeded
      && not (same_option command.completion_execution_id attempt.execution)
    then refuse "SUCCEEDED requires matching completion execution"
    else if same_status command.to_status failed
        && (not (truthy command.failure_code)
            || not (truthy command.failure_message)
            || not (same_option command.failure_recoverability (some "non_retryable")))
    then refuse "FAILED requires non-retryable failure"
    else ok (record {
      to_revision = next command.expected_revision;
      started_at = attempt.started_at;
      ended_at = if is_terminal command.to_status then some occurred_at else none;
      current_execution_id = attempt.execution;
      attempt_count = attempt.attempts;
    })

unfoldable pub plan_transition : TransitionCommand → Attempt → Instant → Result TransitionPlan
plan_transition command current occurred_at =
    if not (is_legal command.expected_status command.to_status)
    then refuse "illegal transition"
    else if not (matches_reason_code command.reason_code) || is_blank command.reason_message
    then refuse "invalid status reason"
    else if is_blank command.actor_kind || is_blank command.actor_id
    then refuse "transition actor must not be blank"
    else planned_result command occurred_at
        (planned_attempt command occurred_at command.to_status current)
