-- ===== src/Worker/Tests.antt =====
-- A start of a worker and its retry, on small tables.
use factory_ops.Common.{
  ◌≡◌, refl, String, none, some, [], ◌∷◌, true, pos, find, any, all, select, update, show_int,
  digits, is_trimmed, is_path_version, is_code_revision,
}
use factory_ops.Session.{Result, ok, err, ◌>>=◌, begin, connect, step_at}
use factory_ops.Database.{Database}
use factory_ops.Run.Model.{original, applied, duplicate_identical, RunProvenance}
use factory_ops.Run.Quiet.{quiet}
use factory_ops.Run.Service.{initial_run}
use factory_ops.Run.Service.Calls.{aware}
use factory_ops.Execution.Contract.{Libraries, compute_execution_key}
use factory_ops.Execution.Constraints.{
  execution_checks, execution_keys_free, execution_parents_exist, transition_checks,
  transition_keys_free,
}
use factory_ops.Execution.Repository.{insert_execution, insert_transition}
use factory_ops.Task.Model.{TaskRow}
use factory_ops.Task.Constraints.{task_checks, executions_exist}
use factory_ops.Task.Constraints as TK
use factory_ops.Task.LeaseTable.{find_lease}
use factory_ops.Task.Repository as TR
use factory_ops.Task.Contract.{compute_task_key}
use factory_ops.Dispatch.Service.{task_row}
use factory_ops.Worker.Model.{StartWorkerExecutionCommand, WorkerExecutionResult, StartIds}
use factory_ops.Worker.Validation.{validate_command}
use factory_ops.Worker.Repository.{
  find_start_request, lock_task, holds_lease, has_open_dependency, running_execution,
  created_history, started_history, started_task, is_start_target, update_started, task_history,
  insert_start_request,
}
use factory_ops.Worker.Transaction.{
  admitted, classify_request, request_row, write_start, start_transaction,
}
use factory_ops.Worker.Service.{WorkerInputs, with_lock, start_worker}
use factory_ops.Worker.Admission.{
  IsAdmitted, start_transaction-IsAdmitted, start_transaction-replays,
}

abbrev pub libraries : Libraries
libraries = record {
  matches = λ regex s. true;
  sha256 = λ s. s;
  result_text = λ r. "{}";
  failure_text = λ f. f.code;
  json_column = λ s. s;
}

abbrev hash : StartWorkerExecutionCommand → String
hash c = c.lease_token

abbrev provenance : RunProvenance
provenance = record {
  incident_id = "QI-1";
  runtime_version = "1.0.0";
  workflow_version = "1.0.0";
  prompt_set_version = "1.0.0";
  model_policy_version = "1.0.0";
  tool_policy_version = "1.0.0";
  context_policy_version = "1.0.0";
  code_revision = "abcdef0";
}

abbrev pub command : StartWorkerExecutionCommand
command = record {
  request_id = "WRQ-1";
  task_id = "TSK-1";
  owner_id = "worker-1";
  lease_token = "token-1";
  runtime_version = "1.0.0";
  prompt_version = "1.0.0";
  model_policy_version = "1.0.0";
  tool_policy_version = "1.0.0";
  context_policy_version = "1.0.0";
  code_revision = "abcdef0";
}

abbrev ids : String → StartIds
ids suffix = record {
  execution_id = suffix;
  created_id = "WTR-1";
  created_request_id = "ERQ-1";
  started_id = "WTR-2";
  started_request_id = "ERQ-2";
  task_transition_id = "WTR-3";
  task_request_id = "TRQ-1";
}

abbrev pub task : TaskRow
task =
    task_row (λ s. s)
      (record {
        clock = aware 100;
        task_id = "TSK-1";
        transition_id = "TTR-1";
        transition_request_id = "TQR-2";
        execution_transition_id = "ETR-1";
        execution_request_id = "ERQ-1";
      })
      (record {
        task_request_id = "TQR-1";
        run_id = "RUN-1";
        coordinator_execution_id = "EXE-1";
        task_type = "QUALITY_ANALYSIS";
        target_agent_role = "quality";
        priority = pos 50;
        context_snapshot_id = "CTX-1";
        evidence_refs = [];
        dependency_task_ids = [];
      })
      100

abbrev pub leased : Database
leased = record {
  inbox = [];
  rejections = [];
  runs = initial_run "RUN-1" original provenance 100 "RUN-1" (some "EVT-1") none none ∷ [];
  run_transitions = [];
  executions = running_execution command "EXE-1" "key-1" task 100 ∷ [];
  execution_transitions = [];
  tasks = task ∷ [];
  task_dependencies = [];
  task_transitions = [];
  leases =
      record {
        task_id = "TSK-1";
        owner_id = "worker-1";
        lease_token = "token-1";
        leased_at = 150;
        expires_at = 300;
      }
      ∷ [];
  start_receipts = [];
  worker_starts = [];
  worker_completions = [];
}

abbrev value : Result WorkerExecutionResult → WorkerExecutionResult
value (ok r) = r
value (err e) = record { outcome = duplicate_identical; task_id = none; execution_id = none }

abbrev starting : Result WorkerExecutionResult × Database
starting = start_transaction libraries hash (ids "EXE-2") command 200 leased

abbrev call : WorkerInputs
call = record { clock = aware 200; ids = ids "EXE-2"; acquired = true }

starts :
    (starting.0 ≡ ok (value starting.0))
    × ((value starting.0).outcome ≡ applied)
    × ((value starting.0).execution_id ≡ some "EXE-2")
unfolding initial_run task_row compute_task_key compute_execution_key show_int digits
    insert_execution execution_checks execution_keys_free execution_parents_exist transition_checks
    transition_keys_free insert_transition task_checks executions_exist TK.transition_checks
    TK.transition_keys_free TR.insert_transition find_lease find_start_request lock_task holds_lease
    has_open_dependency running_execution created_history started_history started_task
    is_start_target update_started task_history insert_start_request admitted classify_request
    request_row write_start start_transaction find any all select update
starts = (refl, refl, refl)

-- The whole call, with its validation and its lock.
call-starts : (start_worker libraries hash call command (quiet leased)).0 ≡ starting.0
unfolding validate_command is_trimmed is_path_version is_code_revision with_lock start_worker ◌>>=◌
    begin connect step_at initial_run task_row compute_task_key compute_execution_key show_int
    digits insert_execution execution_checks execution_keys_free execution_parents_exist
    transition_checks transition_keys_free insert_transition task_checks executions_exist
    TK.transition_checks TK.transition_keys_free TR.insert_transition find_lease find_start_request
    lock_task holds_lease has_open_dependency running_execution created_history started_history
    started_task is_start_target update_started task_history insert_start_request admitted
    classify_request request_row write_start start_transaction find any all select update
call-starts = refl

start_transaction-IsAdmitted_example : IsAdmitted command 200 leased
start_transaction-IsAdmitted_example =
    start_transaction-IsAdmitted libraries hash (ids "EXE-2") command 200 leased (value starting.0)
      starts.0 starts.1

start_transaction-replays_example :
    start_transaction libraries hash (ids "EXE-3") command 250 starting.1
    ≡ (ok (record (value starting.0) { outcome = duplicate_identical }), starting.1)
start_transaction-replays_example =
    start_transaction-replays libraries hash (ids "EXE-2") (ids "EXE-3") command 200 250 leased
      (value starting.0) starts.0 starts.1
