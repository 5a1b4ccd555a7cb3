-- ===== src/Run/Service/Transition.antt =====
-- `transition_run` of run_lifecycle/service.py.
use factory_ops.Common.{
  ℕ, zero, suc, ◌+◌, String, Option, none, some, Bool, false, ◌&&◌, ◌||◌, not, if◌then◌else◌, ◌==◌,
  ◌=s◌, same_option, same_int, ℤ, pos, negsuc,
}
use factory_ops.Session.{
  Result, ok, err, integrity_error, conditional_update_miss, lifecycle_rule_violation,
  persistence_integrity_error, run_not_found, pure, raise, lift, attempt, begin, connect, ◌>>=◌,
}
use factory_ops.Session.Lookup.{found_or}
use factory_ops.Database.{Action}
use factory_ops.Run.Model.{
  Instant, RunStatus, suspended, concurrency_conflict, applied, OperationOutcome, same_status,
  same_actor, TransitionCommand, TransitionPlan, RunRow, RunTransition,
}
use factory_ops.Run.Rules.{plan_transition}
use factory_ops.Run.Contract.{RunContract, to_contract, or_text}
use factory_ops.Run.Repository.{
  find_run, find_transition_by_request, TransitionUpdate, apply_transition,
}
use factory_ops.Run.Service.Calls.{
  Inputs, now, RunOperationResult, duplicate_outcome, get_run, outcome_with_run,
}

abbrev same_option_status : Option RunStatus → RunStatus → Bool
same_option_status none s = false
same_option_status (some t) s = same_status t s

abbrev same_from_revision : Option ℕ → ℤ → Bool
same_from_revision none z = false
same_from_revision (some n) z = same_int n z

-- `revision == expected_revision + 1`
abbrev pub succeeds : ℕ → ℤ → Bool
succeeds n (pos m) = n == m + 1
succeeds n (negsuc zero) = n == 0
succeeds n (negsuc (suc _)) = false

-- `_transition_matches`
unfoldable pub transition_matches : TransitionCommand → RunTransition → Bool
transition_matches command existing =
    existing.run_id =s command.run_id
    && same_option_status existing.from_status command.expected_status
    && same_status existing.to_status command.to_status
    && same_from_revision existing.from_revision command.expected_revision
    && succeeds existing.to_revision command.expected_revision
    && same_actor existing.actor_kind command.actor_kind
    && existing.actor_id =s command.actor_id
    && existing.reason_code =s command.reason_code
    && same_option existing.reason_message command.reason_message
    && same_option existing.checkpoint_id command.checkpoint_id

-- The row that the transition would leave.
unfoldable pub candidate : TransitionCommand → RunRow → TransitionPlan → Instant → RunRow
candidate command current plan occurred_at = record current {
  status = command.to_status;
  revision = plan.to_revision;
  updated_at = occurred_at;
  started_at = plan.started_at;
  ended_at = plan.ended_at;
  status_reason_code = some command.reason_code;
  status_reason_message = some (or_text command.reason_message command.reason_code);
  latest_checkpoint_id =
      if same_status command.to_status suspended
      then command.checkpoint_id
      else current.latest_checkpoint_id;
}

unfoldable pub transition_row :
    Inputs → TransitionCommand → TransitionPlan → Instant → RunTransition
transition_row inputs command plan occurred_at = record {
  transition_id = inputs.transition_id;
  transition_request_id = command.transition_request_id;
  run_id = command.run_id;
  from_status = some command.expected_status;
  to_status = command.to_status;
  from_revision = some plan.from_revision;
  to_revision = plan.to_revision;
  actor_kind = command.actor_kind;
  actor_id = command.actor_id;
  reason_code = command.reason_code;
  reason_message = command.reason_message;
  checkpoint_id = command.checkpoint_id;
  occurred_at = occurred_at;
}

unfoldable pub transition_update : TransitionCommand → TransitionPlan → Instant → TransitionUpdate
transition_update command plan occurred_at = record {
  run_id = command.run_id;
  expected_status = command.expected_status;
  expected_revision = plan.from_revision;
  to_status = command.to_status;
  to_revision = plan.to_revision;
  occurred_at = occurred_at;
  started_at = plan.started_at;
  ended_at = plan.ended_at;
  reason_code = command.reason_code;
  status_reason_message = or_text command.reason_message command.reason_code;
  checkpoint_id = command.checkpoint_id;
}

module _ (matches : String → String → Bool) where
  -- `_classify_existing_transition`
  unfoldable pub classify_existing_transition :
      TransitionCommand → RunTransition → Action RunOperationResult
  classify_existing_transition command existing =
      outcome_with_run matches (duplicate_outcome (transition_matches command existing))
        existing.run_id

  -- `_find_existing_transition_result`, and what a caller does with its result.
  unfoldable pub existing_or :
      TransitionCommand → Action RunOperationResult → Action RunOperationResult
  existing_or command otherwise = do
    existing ← connect (find_transition_by_request command.transition_request_id)
    found_or existing (classify_existing_transition command) otherwise

  -- `_classify_failed_transition`
  unfoldable pub classify_failed_transition : TransitionCommand → Action RunOperationResult
  classify_failed_transition command =
      existing_or command (outcome_with_run matches concurrency_conflict command.run_id)

  abbrev pub transitioned_result : Option RunContract → Action RunOperationResult
  transitioned_result none =
      raise (persistence_integrity_error "transitioned Run could not be reloaded")
  transitioned_result (some run) = pure (record { outcome = applied; run = some run })

  abbrev pub unless_conflict : OperationOutcome → RunOperationResult → Action RunOperationResult
  unless_conflict concurrency_conflict classified =
      raise (persistence_integrity_error "transition history insert violated database constraints")
  unless_conflict _ classified = pure classified

  -- After `apply_transition`: its handlers, or the reload.
  unfoldable pub after_apply : TransitionCommand → Result (Unit {0}) → Action RunOperationResult
  after_apply command (ok _) = do run ← get_run matches command.run_id; transitioned_result run
  after_apply command (err conditional_update_miss) = classify_failed_transition command
  after_apply command (err integrity_error) = do
    classified ← classify_failed_transition command
    unless_conflict classified.outcome classified
  after_apply command (err e) = raise e

  -- After the check of the candidate.
  unfoldable pub after_candidate :
      Inputs
      → TransitionCommand
      → TransitionPlan
      → Instant
      → Result RunContract
      → Action RunOperationResult
  after_candidate inputs command plan at (ok _) = do
    written ← attempt (
        begin (
          apply_transition (transition_update command plan at)
            (transition_row inputs command plan at)))
    after_apply command written
  after_candidate inputs command plan at (err e) =
      existing_or command (raise (lifecycle_rule_violation "transition would violate Run Contract"))

  -- After `plan_transition`.
  unfoldable pub after_plan :
      Inputs
      → TransitionCommand
      → RunRow
      → Instant
      → Result TransitionPlan
      → Action RunOperationResult
  after_plan inputs command current at (ok plan) =
      after_candidate inputs command plan at
        (to_contract matches (candidate command current plan at))
  after_plan inputs command current at (err e) = existing_or command (raise e)

  -- `current` does not have the expected status and revision.
  abbrev pub is_stale : TransitionCommand → RunRow → Bool
  is_stale command current =
      not (same_status current.status command.expected_status)
      || not (same_int current.revision command.expected_revision)

  unfoldable pub with_current :
      Inputs → TransitionCommand → Option RunRow → Action RunOperationResult
  with_current inputs command none =
      existing_or command (raise (run_not_found "Run does not exist"))
  with_current inputs command (some current) =
      if is_stale command current then classify_failed_transition command else do
        at ← lift (now inputs.clock)
        after_plan inputs command current at (plan_transition command current.started_at at)

  unfoldable pub transition_run : Inputs → TransitionCommand → Action RunOperationResult
  transition_run inputs command =
      existing_or command
        do current ← connect (find_run command.run_id); with_current inputs command current
