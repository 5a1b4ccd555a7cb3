-- ===== src/Run/Rules.antt =====
-- run_lifecycle/rules.py: the legal transitions of a Run, and the plan of one.
pub mod Plan
mod Tests
use factory_ops.Common.{
  ℕ, ◌+◌, String, Option, none, some, List, [], ◌∷◌, Bool, false, ◌&&◌, not, if◌then◌else◌, any,
  present, truthy, is_blank, matches_reason_code, non_negative,
}
use factory_ops.Session.{Result, ok, err, lifecycle_rule_violation}
use factory_ops.Run.Model.{
  Instant, RunStatus, pending, running, waiting_for_approval, suspended, succeeded, failed,
  cancelled, same_status, TransitionCommand, TransitionPlan,
}

unfoldable pub legal_transitions : RunStatus → List RunStatus
legal_transitions pending = running ∷ cancelled ∷ []
legal_transitions running = waiting_for_approval ∷ suspended ∷ succeeded ∷ failed ∷ cancelled ∷ []
legal_transitions waiting_for_approval = running ∷ suspended ∷ cancelled ∷ []
legal_transitions suspended = running ∷ failed ∷ cancelled ∷ []
legal_transitions succeeded = []
legal_transitions failed = []
legal_transitions cancelled = []

unfoldable pub terminal_statuses : List RunStatus
terminal_statuses = succeeded ∷ failed ∷ cancelled ∷ []

-- `status in statuses`
unfoldable pub member : RunStatus → List RunStatus → Bool
unfolding any
member s = any (λ t. same_status t s)

unfoldable pub is_legal : RunStatus → RunStatus → Bool
unfolding member legal_transitions
is_legal from to = member to (legal_transitions from)

unfoldable pub is_terminal : RunStatus → Bool
unfolding member terminal_statuses
is_terminal s = member s terminal_statuses

abbrev refuse : {A : Type 0} → String → Result A
refuse message = err (lifecycle_rule_violation message)

-- `started_at`: set by the step from PENDING to RUNNING, and kept by the others.
unfoldable pub planned_start :
    RunStatus → RunStatus → Option Instant → Instant → Result (Option Instant)
planned_start from to current occurred_at =
    if same_status from pending && same_status to running
    then (if present current
        then refuse "PENDING run already has started_at"
        else ok (some occurred_at))
    else ok current

-- The revision is known to be non-negative behind its guard.
unfoldable pub plan_from :
    TransitionCommand → Option Instant → Instant → ℕ → Option Instant → TransitionPlan
plan_from command current_started_at occurred_at revision started_at = record {
  from_status = command.expected_status;
  to_status = command.to_status;
  from_revision = revision;
  to_revision = revision + 1;
  started_at = started_at;
  ended_at = if is_terminal command.to_status then some occurred_at else none;
  occurred_at = occurred_at;
  checkpoint_id = command.checkpoint_id;
}

abbrev with_start :
    Result (Option Instant) → (Option Instant → TransitionPlan) → Result TransitionPlan
with_start (ok started_at) k = ok (k started_at)
with_start (err e) k = err e

abbrev pub blank_message : Option String → Bool
blank_message none = false
blank_message (some m) = is_blank m

-- The guards behind the one on the revision, in the order of the source.
guarded_plan : TransitionCommand → Option Instant → Instant → ℕ → Result TransitionPlan
unfolding planned_start plan_from
guarded_plan command current_started_at occurred_at revision =
    if not (matches_reason_code command.reason_code)
    then refuse "reason_code must match the Contract format"
    else if is_blank command.actor_id
    then refuse "actor_id must not be blank"
    else if blank_message command.reason_message
    then refuse "reason_message must not be blank"
    else if same_status command.to_status suspended && not (truthy command.checkpoint_id)
    then refuse "SUSPENDED requires a checkpoint"
    else if not (same_status command.to_status suspended) && truthy command.checkpoint_id
    then refuse "checkpoint is only accepted for SUSPENDED"
    else with_start
        (planned_start command.expected_status command.to_status current_started_at occurred_at)
        (plan_from command current_started_at occurred_at revision)

with_revision : Option ℕ → TransitionCommand → Option Instant → Instant → Result TransitionPlan
with_revision none _ _ _ = refuse "expected_revision must be non-negative"
with_revision (some revision) command current_started_at occurred_at =
    guarded_plan command current_started_at occurred_at revision

unfoldable pub plan_transition :
    TransitionCommand → Option Instant → Instant → Result TransitionPlan
unfolding guarded_plan with_revision is_legal
plan_transition command current_started_at occurred_at =
    if not (is_legal command.expected_status command.to_status)
    then refuse "illegal transition"
    else with_revision (non_negative command.expected_revision) command current_started_at
        occurred_at
