-- ===== src/Worker/Completion/Tests.antt =====
-- A completion of a worker, on small tables.
use factory_ops.Common.{
  ◌≡◌, refl, String, none, some, [], ◌∷◌, true, false, find, any, all, select, update, unique,
  is_trimmed, is_reference, matches_reason_code, code_pattern,
}
use factory_ops.Session.{Result, ok, err, ◌>>=◌, begin, connect, step_at}
use factory_ops.Database.{Database}
use factory_ops.Run.Model.{applied, duplicate_identical}
use factory_ops.Run.Quiet.{quiet}
use factory_ops.Run.Service.{initial_run}
use factory_ops.Run.Service.Calls.{aware}
use factory_ops.Execution.Constraints.{
  execution_checks, transition_checks, transition_keys_free, lifecycle_check, result_check,
}
use factory_ops.Execution.Repository.{find_execution, insert_transition}
use factory_ops.Task.Constraints.{task_checks, executions_exist}
use factory_ops.Task.Constraints as TK
use factory_ops.Task.LeaseTable.{find_lease}
use factory_ops.Task.Repository as TR
use factory_ops.Task.Contract.{compute_task_key}
use factory_ops.Dispatch.Service.{task_row}
use factory_ops.Worker.Model.{CompleteWorkerExecutionCommand, WorkerExecutionResult, CompletionIds}
use factory_ops.Worker.Repository.{running_execution, started_task, lock_task, holds_lease}
use factory_ops.Worker.Tests.{libraries, task, leased, command}
use factory_ops.Worker.Completion.{
  valid_refs, validate_result, validate_failure, validate_success, validate_failed,
  validate_completion, finished_execution, completion_history, finished_task, finished_history,
}
use factory_ops.Worker.Completion.Transaction.{
  find_completion_request, is_finishing, update_finished, is_task_finishing, update_task_finished,
  is_consumed, delete_lease, insert_completion, is_running_pair, completable, classify_completion,
  completion_row, write_completion, complete_transaction,
}
use factory_ops.Worker.Completion.Service.{CompletionInputs, complete_with_lock, complete_worker}
use factory_ops.Worker.Completion.Admission.{IsCompletable, complete_transaction-IsCompletable}

abbrev hash : CompleteWorkerExecutionCommand → String
hash c = c.lease_token

abbrev completion : CompleteWorkerExecutionCommand
completion = record {
  request_id = "WCQ-1";
  task_id = "TSK-1";
  execution_id = "EXE-2";
  owner_id = "worker-1";
  lease_token = "token-1";
  final_status = "SUCCEEDED";
  result =
      some (record {
        output_artifact_refs = "artifact/1" ∷ [];
        decision_id = none;
        evidence_refs = [];
      });
  failure = none;
}

abbrev ids : CompletionIds
ids = record {
  execution_transition_id = "WTR-4";
  execution_request_id = "ERQ-3";
  task_transition_id = "WTR-5";
  task_request_id = "TRQ-2";
}

abbrev started : Database
started = record leased {
  executions =
      running_execution command "EXE-2" "key-2" task 200
      ∷ running_execution command "EXE-1" "key-1" task 100
      ∷ [];
  tasks = started_task "EXE-2" 1 200 task ∷ [];
}

abbrev value : Result WorkerExecutionResult → WorkerExecutionResult
value (ok r) = r
value (err e) = record { outcome = duplicate_identical; task_id = none; execution_id = none }

abbrev completing : Result WorkerExecutionResult × Database
completing = complete_transaction libraries hash ids completion 250 started

abbrev call : CompletionInputs
call = record { clock = aware 250; ids = ids; acquired = true }

completes : (completing.0 ≡ ok (value completing.0)) × ((value completing.0).outcome ≡ applied)
unfolding initial_run task_row compute_task_key execution_checks lifecycle_check result_check
    transition_checks transition_keys_free find_execution insert_transition task_checks
    executions_exist TK.transition_checks TK.transition_keys_free TR.insert_transition find_lease
    running_execution started_task lock_task holds_lease finished_execution completion_history
    finished_task finished_history find_completion_request is_finishing update_finished
    is_task_finishing update_task_finished is_consumed delete_lease insert_completion
    is_running_pair completable classify_completion completion_row write_completion
    complete_transaction find any all select update
completes = (refl, refl)

-- The whole call, with its validation and its lock.
call-completes : (complete_worker libraries hash call completion (quiet started)).0 ≡ completing.0
unfolding valid_refs validate_result validate_failure validate_success validate_failed
    validate_completion unique is_trimmed is_reference matches_reason_code code_pattern
    complete_with_lock complete_worker ◌>>=◌ begin connect step_at initial_run task_row
    compute_task_key execution_checks lifecycle_check result_check transition_checks
    transition_keys_free find_execution insert_transition task_checks executions_exist
    TK.transition_checks TK.transition_keys_free TR.insert_transition find_lease running_execution
    started_task lock_task holds_lease finished_execution completion_history finished_task
    finished_history find_completion_request is_finishing update_finished is_task_finishing
    update_task_finished is_consumed delete_lease insert_completion is_running_pair completable
    classify_completion completion_row write_completion complete_transaction find any all select
    update
call-completes = refl

complete_transaction-IsCompletable_example :
    IsCompletable completion 250 started
    × (any (is_consumed completion 250) completing.1.leases ≡ false)
complete_transaction-IsCompletable_example =
    complete_transaction-IsCompletable libraries hash ids completion 250 started
      (value completing.0) completes.0 completes.1
