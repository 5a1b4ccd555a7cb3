-- ===== src/Execution/Service/Calls.antt =====
-- What the operations of execution_lifecycle/service.py share.
use factory_ops.Common.{ℕ, String, Option, none, some}
use factory_ops.Session.{Result, ok, err, value_error, lift, connect, ◌>>=◌}
use factory_ops.Database.{Action}
use factory_ops.Run.Model.{Instant, OperationOutcome}
use factory_ops.Run.Service.Calls.{ClockReading, aware, naive}
use factory_ops.Execution.Model.{
  ExecutionStatus, ExecutionResult, ExecutionFailure, ExecutionRow, ExecutionTransition,
}
use factory_ops.Execution.Contract.{Libraries, ExecutionContract, to_contract}
use factory_ops.Execution.Repository.{find_execution}

-- `_now`
abbrev pub now : ClockReading → Result Instant
now (aware t) = ok t
now (naive t) = err (value_error "clock must be timezone-aware")

-- The values of `_clock`, `_execution_id_factory`, `_transition_id_factory` and
-- `_transition_request_id_factory` in one call.
pub record Inputs : Type 0 where
  pub clock : ClockReading
  pub execution_id : String
  pub transition_id : String
  pub transition_request_id : String

pub record OperationResult : Type 0 where
  pub outcome : OperationOutcome
  pub execution : Option ExecutionContract

-- `OperationResult(outcome, contract)`
abbrev pub with_outcome : OperationOutcome → Result ExecutionContract → Result OperationResult
with_outcome o (ok c) = ok (record { outcome = o; execution = some c })
with_outcome o (err e) = err e

abbrev pub printed : {A : Type 0} → (A → String) → Option A → Option String
printed print none = none
printed print (some a) = some (print a)

module _ (x : Libraries) where
  abbrev pub render : Option ExecutionRow → Result (Option ExecutionContract)
  render none = ok none
  render (some row) = rendered (to_contract x row)
    where
      rendered : Result ExecutionContract → Result (Option ExecutionContract)
      rendered (ok c) = ok (some c)
      rendered (err e) = err e

  unfoldable pub get_execution : String → Action (Option ExecutionContract)
  get_execution execution_id = do row ← connect (find_execution execution_id); lift (render row)

  -- `OperationResult(outcome, self.get_execution(execution_id))`
  unfoldable pub outcome_with_execution : OperationOutcome → String → Action OperationResult
  outcome_with_execution o execution_id = do
    execution ← get_execution execution_id
    lift (ok (record { outcome = o; execution = execution }))

  -- `_history`, with the text that the JSON columns will return.
  unfoldable pub history :
      Inputs
      → (request execution : String) → Option ExecutionStatus
      → ExecutionStatus
      → Option ℕ
      → ℕ
      → (actor_kind actor_id reason : String) → Option String
      → Option ExecutionResult
      → Option ExecutionFailure
      → Instant
      → ExecutionTransition
  history inputs request execution source target from_rev to_rev actor_kind actor_id reason message
        result failure occurred =
      record {
        transition_id = inputs.transition_id;
        transition_request_id = request;
        execution_id = execution;
        from_status = source;
        to_status = target;
        from_revision = from_rev;
        to_revision = to_rev;
        actor_kind = actor_kind;
        actor_id = actor_id;
        reason_code = reason;
        reason_message = message;
        result_json = printed (λ r. x.json_column (x.result_text r)) result;
        failure_json = printed (λ f. x.json_column (x.failure_text f)) failure;
        occurred_at = occurred;
      }
