-- ===== src/Execution/Rules.antt =====
-- execution_lifecycle/rules.py: the legal transitions of an Execution, and the plan of one.
pub mod Plan
use factory_ops.Common.{
  String, Option, none, some, List, [], ◌∷◌, Bool, ◌&&◌, ◌||◌, not, if◌then◌else◌, any, present,
  absent, is_blank, next,
}
use factory_ops.Session.{Result, ok, err, lifecycle_rule_violation}
use factory_ops.Run.Model.{Instant}
use factory_ops.Execution.Model.{
  ExecutionStatus, pending, running, succeeded, failed, cancelled, same_status, TransitionCommand,
  TransitionPlan,
}

unfoldable pub legal : ExecutionStatus → List ExecutionStatus
legal pending = running ∷ cancelled ∷ []
legal running = succeeded ∷ failed ∷ cancelled ∷ []
legal succeeded = []
legal failed = []
legal cancelled = []

unfoldable pub terminal : List ExecutionStatus
terminal = succeeded ∷ failed ∷ cancelled ∷ []

abbrev member : ExecutionStatus → List ExecutionStatus → Bool
member s = any (λ t. same_status t s)

unfoldable pub is_legal : ExecutionStatus → ExecutionStatus → Bool
unfolding legal any
is_legal from to = member to (legal from)

unfoldable pub is_terminal : ExecutionStatus → Bool
unfolding terminal any
is_terminal s = member s terminal

abbrev refuse : {A : Type 0} → String → Result A
refuse message = err (lifecycle_rule_violation message)

unfoldable pub plan_transition :
    TransitionCommand → Option Instant → Instant → Result TransitionPlan
plan_transition command started_at occurred_at =
    if not (is_legal command.expected_status command.to_status)
    then refuse "illegal transition"
    else if is_blank command.actor_kind
        || is_blank command.actor_id
        || is_blank command.reason_message
    then refuse "actor and reason must not be blank"
    else if same_status command.to_status succeeded
        && (absent command.result || present command.failure)
    then refuse "SUCCEEDED requires only result"
    else if same_status command.to_status failed
        && (absent command.failure || present command.result)
    then refuse "FAILED requires only failure"
    else if (same_status command.to_status running || same_status command.to_status cancelled)
        && (present command.result || present command.failure)
    then refuse "non-result state cannot carry result or failure"
    else ok (record {
      revision = next command.expected_revision;
      started_at =
          if same_status command.expected_status pending && same_status command.to_status running
          then some occurred_at
          else started_at;
      ended_at = if is_terminal command.to_status then some occurred_at else none;
    })
