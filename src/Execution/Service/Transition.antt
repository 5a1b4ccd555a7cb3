-- ===== src/Execution/Service/Transition.antt =====
-- `transition_execution` of execution_lifecycle/service.py.
use factory_ops.Common.{
  Option, none, some, Bool, false, ◌&&◌, ◌||◌, not, if◌then◌else◌, ◌=s◌, same_option, same_int,
  unsigned_column, ℕ, ℤ,
}
use factory_ops.Session.{
  Result, ok, err, integrity_error, conditional_update_miss, lifecycle_rule_violation,
  execution_not_found, raise, lift, attempt, begin, connect, ◌>>=◌,
}
use factory_ops.Session.Lookup.{found_or}
use factory_ops.Database.{Action}
use factory_ops.Run.Model.{Instant, concurrency_conflict, applied}
use factory_ops.Run.Service.Calls.{duplicate_outcome}
use factory_ops.Execution.Model.{
  ExecutionStatus, same_status, TransitionCommand, TransitionPlan, ExecutionRow,
  ExecutionTransition,
}
use factory_ops.Execution.Rules.{plan_transition}
use factory_ops.Execution.Contract.{Libraries, ExecutionContract, to_contract}
use factory_ops.Execution.Repository.{find_execution, find_transition, ExecutionUpdate, apply}
use factory_ops.Execution.Service.Calls.{
  Inputs, now, OperationResult, with_outcome, outcome_with_execution, printed, history,
}

abbrev same_source : Option ExecutionStatus → ExecutionStatus → Bool
same_source none s = false
same_source (some t) s = same_status t s

abbrev same_from_revision : Option ℕ → ℤ → Bool
same_from_revision none z = false
same_from_revision (some n) z = same_int n z

-- `f(value) if value else None`
abbrev pub field : {A B : Type 0} → Option A → (A → B) → Option B
field none f = none
field (some a) f = some (f a)

abbrev pub nullable_field : {A B : Type 0} → Option A → (A → Option B) → Option B
nullable_field none f = none
nullable_field (some a) f = f a

-- The parameters of the UPDATE: those of the candidate and the history.
unfoldable pub execution_update : TransitionCommand → TransitionPlan → Instant → ExecutionUpdate
execution_update command plan at = record {
  execution_id = command.execution_id;
  expected_status = command.expected_status;
  expected_revision = unsigned_column command.expected_revision;
  to_status = command.to_status;
  to_revision = unsigned_column plan.revision;
  occurred_at = at;
  started_at = plan.started_at;
  ended_at = plan.ended_at;
  reason_code = command.reason_code;
  reason_message = command.reason_message;
  output_artifact_refs = field command.result (λ r. r.output_artifact_refs);
  decision_id = nullable_field command.result (λ r. r.decision_id);
  result_evidence_refs = field command.result (λ r. r.evidence_refs);
  failure_code = field command.failure (λ f. f.code);
  failure_message = field command.failure (λ f. f.message);
  failure_recoverability = field command.failure (λ f. f.recoverability);
  failed_dependency_ref = nullable_field command.failure (λ f. f.failed_dependency_ref);
}

-- The row that the transition would leave. Behind the test for staleness a revision is not negative.
unfoldable pub candidate :
    TransitionCommand → ExecutionRow → TransitionPlan → Instant → ExecutionRow
candidate command current plan at = record current {
  status = command.to_status;
  revision = unsigned_column plan.revision;
  updated_at = at;
  started_at = plan.started_at;
  ended_at = plan.ended_at;
  status_reason_code = some command.reason_code;
  status_reason_message = some command.reason_message;
  output_artifact_refs = field command.result (λ r. r.output_artifact_refs);
  decision_id = nullable_field command.result (λ r. r.decision_id);
  result_evidence_refs = field command.result (λ r. r.evidence_refs);
  failure_code = field command.failure (λ f. f.code);
  failure_message = field command.failure (λ f. f.message);
  failure_recoverability = field command.failure (λ f. f.recoverability);
  failed_dependency_ref = nullable_field command.failure (λ f. f.failed_dependency_ref);
}

-- `current` does not have the expected status and revision.
abbrev pub is_stale : TransitionCommand → ExecutionRow → Bool
is_stale command current =
    not (same_status current.status command.expected_status)
    || not (same_int current.revision command.expected_revision)

module _ (x : Libraries) where
  -- The row of the history.
  unfoldable pub transition_row :
      Inputs → TransitionCommand → TransitionPlan → Instant → ExecutionTransition
  transition_row inputs command plan at =
      history x inputs command.transition_request_id command.execution_id
        (some command.expected_status) command.to_status
        (some (unsigned_column command.expected_revision)) (unsigned_column plan.revision)
        command.actor_kind command.actor_id command.reason_code (some command.reason_message)
        command.result command.failure at

  -- The comparison in `_classify_transition`.
  unfoldable pub transition_matches : TransitionCommand → ExecutionTransition → Bool
  transition_matches command row =
      row.execution_id =s command.execution_id
      && same_source row.from_status command.expected_status
      && same_status row.to_status command.to_status
      && same_from_revision row.from_revision command.expected_revision
      && row.actor_kind =s command.actor_kind
      && row.actor_id =s command.actor_id
      && row.reason_code =s command.reason_code
      && same_option row.reason_message (some command.reason_message)
      && same_option row.result_json (printed x.result_text command.result)
      && same_option row.failure_json (printed x.failure_text command.failure)

  -- `_classify_transition`
  unfoldable pub classify_transition :
      TransitionCommand → ExecutionTransition → Action OperationResult
  classify_transition command row =
      outcome_with_execution x (duplicate_outcome (transition_matches command row)) row.execution_id

  -- `find_transition`, and the classification of what it finds.
  unfoldable pub existing_or : TransitionCommand → Action OperationResult → Action OperationResult
  existing_or command otherwise = do
    existing ← connect (find_transition command.transition_request_id)
    found_or existing (classify_transition command) otherwise

  -- After `apply`: its handlers, or the reload.
  unfoldable pub after_apply : TransitionCommand → Result (Unit {0}) → Action OperationResult
  after_apply command (ok _) = outcome_with_execution x applied command.execution_id
  after_apply command (err conditional_update_miss) =
      existing_or command (outcome_with_execution x concurrency_conflict command.execution_id)
  after_apply command (err integrity_error) = existing_or command (raise integrity_error)
  after_apply command (err e) = raise e

  -- After `_validate`.
  unfoldable pub after_candidate :
      Inputs
      → TransitionCommand
      → TransitionPlan
      → Instant
      → Result ExecutionContract
      → Action OperationResult
  after_candidate inputs command plan at (ok _) = do
    written ←
        attempt
          (begin (apply (execution_update command plan at) (transition_row inputs command plan at)))
    after_apply command written
  after_candidate inputs command plan at (err e) =
      raise (lifecycle_rule_violation "Execution Contract is invalid")

  -- After `plan_transition`, whose only exception is a rule violation.
  unfoldable pub after_plan :
      Inputs
      → TransitionCommand
      → ExecutionRow
      → Instant
      → Result TransitionPlan
      → Action OperationResult
  after_plan inputs command current at (ok plan) =
      after_candidate inputs command plan at (to_contract x (candidate command current plan at))
  after_plan inputs command current at (err e) = existing_or command (raise e)

  unfoldable pub with_current :
      Inputs → TransitionCommand → Option ExecutionRow → Action OperationResult
  with_current inputs command none =
      existing_or command (raise (execution_not_found command.execution_id))
  with_current inputs command (some current) =
      if is_stale command current
      then existing_or command (lift (with_outcome concurrency_conflict (to_contract x current)))
      else do
        at ← lift (now inputs.clock)
        after_plan inputs command current at (plan_transition command current.started_at at)

  unfoldable pub transition_execution : Inputs → TransitionCommand → Action OperationResult
  transition_execution inputs command = existing_or command do
    current ← connect (find_execution command.execution_id)
    with_current inputs command current
