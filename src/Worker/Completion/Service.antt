-- ===== src/Worker/Completion/Service.antt =====
-- `complete` of worker_task_execution.py, with its validation and its lock.
use factory_ops.Common.{String, Bool, if◌then◌else◌}
use factory_ops.Session.{worker_execution_rejected, raise, lift, attempt, begin, connect, ◌>>=◌}
use factory_ops.Database.{Action}
use factory_ops.Run.Model.{Instant}
use factory_ops.Run.Service.Calls.{ClockReading}
use factory_ops.Execution.Contract.{Libraries}
use factory_ops.Execution.Service.Calls.{now}
use factory_ops.Worker.Model.{CompleteWorkerExecutionCommand, WorkerExecutionResult, CompletionIds}
use factory_ops.Worker.Completion.{validate_completion}
use factory_ops.Worker.Completion.Transaction.{complete_transaction}

-- The clock, the identifiers, and whether GET_LOCK returns 1.
pub record CompletionInputs : Type 0 where
  pub clock : ClockReading
  pub ids : CompletionIds
  pub acquired : Bool

module _ (x : Libraries) (hash : CompleteWorkerExecutionCommand → String) where
  -- The transaction, and RELEASE_LOCK behind it on every path.
  unfoldable pub complete_with_lock :
      CompletionInputs → CompleteWorkerExecutionCommand → Instant → Action WorkerExecutionResult
  complete_with_lock inputs c at = do
    completed ← attempt (begin (complete_transaction x hash inputs.ids c at))
    released ← connect (λ db. tt)
    lift completed

  -- `WorkerTaskExecutionService.complete`
  unfoldable pub complete_worker :
      CompletionInputs → CompleteWorkerExecutionCommand → Action WorkerExecutionResult
  complete_worker inputs c = do
    valid ← lift (validate_completion c)
    at ← lift (now inputs.clock)
    acquired ← connect (λ db. inputs.acquired)
    if acquired
        then complete_with_lock inputs c at
        else raise (worker_execution_rejected "request admission lock timed out")
