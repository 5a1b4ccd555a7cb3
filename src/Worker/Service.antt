-- ===== src/Worker/Service.antt =====
-- `start` of worker_task_execution.py. The transaction is one step of the session, and so are the
-- two queries of the admission lock around it.
use factory_ops.Common.{String, Bool, if◌then◌else◌}
use factory_ops.Session.{worker_execution_rejected, raise, lift, attempt, begin, connect, ◌>>=◌}
use factory_ops.Database.{Action}
use factory_ops.Run.Model.{Instant}
use factory_ops.Run.Service.Calls.{ClockReading}
use factory_ops.Execution.Contract.{Libraries}
use factory_ops.Execution.Service.Calls.{now}
use factory_ops.Worker.Model.{StartWorkerExecutionCommand, WorkerExecutionResult, StartIds}
use factory_ops.Worker.Validation.{validate_command}
use factory_ops.Worker.Transaction.{start_transaction}

-- The clock, the identifiers, and whether GET_LOCK returns 1.
pub record WorkerInputs : Type 0 where
  pub clock : ClockReading
  pub ids : StartIds
  pub acquired : Bool

module _ (x : Libraries) (hash : StartWorkerExecutionCommand → String) where
  -- The transaction, and RELEASE_LOCK behind it on every path.
  unfoldable pub with_lock :
      WorkerInputs → StartWorkerExecutionCommand → Instant → Action WorkerExecutionResult
  with_lock inputs c at = do
    started ← attempt (begin (start_transaction x hash inputs.ids c at))
    released ← connect (λ db. tt)
    lift started

  -- `WorkerTaskExecutionService.start`
  unfoldable pub start_worker :
      WorkerInputs → StartWorkerExecutionCommand → Action WorkerExecutionResult
  start_worker inputs c = do
    valid ← lift (validate_command c)
    at ← lift (now inputs.clock)
    acquired ← connect (λ db. inputs.acquired)
    if acquired
        then with_lock inputs c at
        else raise (worker_execution_rejected "request admission lock timed out")
