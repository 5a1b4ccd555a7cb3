-- ===== src/Task/Service/Calls.antt =====
-- What the operations of task_lifecycle/service.py share.
use factory_ops.Common.{ℕ, String, Option, none, some, Bool}
use factory_ops.Session.{Result, ok, err, value_error, lift, connect, ◌>>=◌}
use factory_ops.Database.{Action}
use factory_ops.Run.Model.{Instant, OperationOutcome}
use factory_ops.Run.Service.Calls.{ClockReading, aware, naive}
use factory_ops.Task.Model.{TaskStatus, TaskTransition}
use factory_ops.Task.Contract.{TaskContract, to_contract}
use factory_ops.Task.Repository.{StoredTask, find_task}

-- `_now`
abbrev pub now : ClockReading → Result Instant
now (aware t) = ok t
now (naive t) = err (value_error "clock must be timezone-aware")

-- The values of `_clock`, `_task_id_factory`, `_transition_id_factory` and
-- `_transition_request_id_factory` in one call.
pub record Inputs : Type 0 where
  pub clock : ClockReading
  pub task_id : String
  pub transition_id : String
  pub transition_request_id : String

pub record OperationResult : Type 0 where
  pub outcome : OperationOutcome
  pub task : Option TaskContract

-- `OperationResult(outcome, contract)`
abbrev pub with_outcome : OperationOutcome → Result TaskContract → Result OperationResult
with_outcome o (ok c) = ok (record { outcome = o; task = some c })
with_outcome o (err e) = err e

-- `_transition_row`
unfoldable pub transition_values :
    Inputs
    → (request task : String) → Option TaskStatus
    → TaskStatus
    → Option ℕ
    → ℕ
    → (actor_kind actor_id reason : String) → (message execution : Option String) → ℕ
    → (completion failure_code failure_message recoverability : Option String) → Instant
    → TaskTransition
transition_values inputs request task source target from_rev to_rev actor_kind actor_id reason
      message execution attempts completion failure_code failure_message recoverability occurred =
    record {
      transition_id = inputs.transition_id;
      transition_request_id = request;
      task_id = task;
      from_status = source;
      to_status = target;
      from_revision = from_rev;
      to_revision = to_rev;
      actor_kind = actor_kind;
      actor_id = actor_id;
      reason_code = reason;
      reason_message = message;
      execution_id = execution;
      attempt_count = attempts;
      completion_execution_id = completion;
      failure_code = failure_code;
      failure_message = failure_message;
      failure_recoverability = recoverability;
      occurred_at = occurred;
    }

module _ (matches : String → String → Bool) (sha256 : String → String) where
  abbrev pub render : Option StoredTask → Result (Option TaskContract)
  render none = ok none
  render (some row) = rendered (to_contract matches sha256 row)
    where
      rendered : Result TaskContract → Result (Option TaskContract)
      rendered (ok c) = ok (some c)
      rendered (err e) = err e

  unfoldable pub get_task : String → Action (Option TaskContract)
  get_task task_id = do row ← connect (find_task task_id); lift (render row)

  -- `OperationResult(outcome, self.get_task(task_id))`
  unfoldable pub outcome_with_task : OperationOutcome → String → Action OperationResult
  outcome_with_task o task_id = do
    task ← get_task task_id
    lift (ok (record { outcome = o; task = task }))
