-- ===== src/Coordinator/Tests.antt =====
-- A start of a coordinator and its retry, on small tables.
use factory_ops.Common.{
  ℕ, ◌≡◌, refl, String, none, some, [], ◌∷◌, Bool, true, find, any, all, select, update, show_int,
  digits, unique, is_start_request,
}
use factory_ops.Session.{
  persistence_integrity_error, Result, ok, err, ◌>>=◌, begin, connect, step_at,
}
use factory_ops.Database.{Database}
use factory_ops.Run.Model.{original, cancelled, applied, duplicate_identical, RunProvenance, RunRow}
use factory_ops.Run.Rules.{terminal_statuses, member, is_terminal}
use factory_ops.Run.Quiet.{quiet}
use factory_ops.Run.Repository.{
  find_run, run_checks, insert_transition, transition_checks, transition_keys_free,
}
use factory_ops.Run.Contract.{
  lifecycle_of, contract_of, identity_schema, provenance_schema, lifecycle_schema, schema_valid,
  identity_consistent, times_ordered, validate_run, to_contract,
}
use factory_ops.Run.Service.{initial_run}
use factory_ops.Run.Service.Calls.{aware, get_run}
use factory_ops.Execution.Contract.{
  Libraries, compute_execution_key, result_of, failure_of, input_schema, status_schema,
  specialist_roles, validate_execution,
}
use factory_ops.Execution.Model.{ExecutionRow}
use factory_ops.Execution.Contract as EC
use factory_ops.Execution.Constraints.{
  execution_checks, execution_keys_free, execution_parents_exist,
}
use factory_ops.Execution.Constraints as EK
use factory_ops.Execution.Repository.{insert_execution, find_execution}
use factory_ops.Execution.Repository as ER
use factory_ops.Execution.Service.Calls.{get_execution}
use factory_ops.Coordinator.Model.{StartCoordinatorCommand, StartPayload}
use factory_ops.Coordinator.Repository.{
  find_receipt, is_startable, is_start_target, started_run, update_started, receipt_keys_free,
  insert_receipt, start_statements, start,
}
use factory_ops.Coordinator.Service.{
  StartInputs, StartResult, execution_row, execution_history, run_history, receipt_of, result,
  from_receipt, receipt_or, after_competing, after_start, validated, with_run, start_coordinator,
}
use factory_ops.Coordinator.Finished.{ended_run_is_refused}
use factory_ops.Coordinator.Receipts.{
  IsReceived, start_coordinator-IsReceived, retry_start_is_identical,
}

abbrev accept_all : String → String → Bool
accept_all regex s = true

abbrev libraries : Libraries
libraries = record {
  matches = accept_all;
  sha256 = λ s. s;
  result_text = λ r. "{}";
  failure_text = λ f. f.code;
  json_column = λ s. s;
}

abbrev digest : StartPayload → String
digest payload = payload.context_snapshot_id

abbrev provenance : RunProvenance
provenance = record {
  incident_id = "QI-1";
  runtime_version = "1.0.0";
  workflow_version = "1.0.0";
  prompt_set_version = "1.0.0";
  model_policy_version = "1.0.0";
  tool_policy_version = "1.0.0";
  context_policy_version = "1.0.0";
  code_revision = "abcdef0";
}

abbrev waiting : Database
waiting = record {
  inbox = [];
  rejections = [];
  runs = initial_run "RUN-1" original provenance 100 "RUN-1" (some "EVT-1") none none ∷ [];
  run_transitions = [];
  executions = [];
  execution_transitions = [];
  tasks = [];
  task_dependencies = [];
  task_transitions = [];
  leases = [];
  start_receipts = [];
  worker_starts = [];
  worker_completions = [];
}

abbrev command : StartCoordinatorCommand
command = record {
  start_request_id = "SRQ-0123456789ABCDEF0123456789ABCDEF";
  run_id = "RUN-1";
  prompt_version = "1.0.0";
  context_snapshot_id = "CTX-1";
  evidence_refs = "evidence/1" ∷ [];
  command_version = "1.0.0";
}

abbrev inputs : ℕ → StartInputs
inputs at = record {
  clock = aware at;
  execution_id = "EXE-1";
  execution_transition_id = "TRN-1";
  run_transition_id = "TRN-2";
  execution_request_id = "ERQ-1";
}

abbrev value : Result StartResult → StartResult
value (ok r) = r
value (err e) = record { outcome = applied; run = none; execution = none }

abbrev starting : Result StartResult
starting = (start_coordinator libraries digest (inputs 200) command (quiet waiting)).0

abbrev started : Database
started = (start_coordinator libraries digest (inputs 200) command (quiet waiting)).1.store

abbrev retrying : Result StartResult
retrying = (start_coordinator libraries digest (inputs 300) command (quiet started)).0

starts :
    (starting ≡ ok (value starting))
    × ((value starting).outcome ≡ applied)
    × (retrying ≡ ok (value retrying))
unfolding initial_run start_coordinator receipt_or find_receipt is_start_request with_run validated
    execution_row execution_history run_history receipt_of start start_statements is_startable
    is_start_target started_run update_started receipt_keys_free insert_receipt after_start
    after_competing from_receipt result find_run run_checks insert_transition transition_checks
    transition_keys_free lifecycle_of contract_of identity_schema provenance_schema lifecycle_schema
    schema_valid identity_consistent times_ordered validate_run to_contract get_run
    compute_execution_key show_int digits result_of failure_of input_schema status_schema
    specialist_roles validate_execution EC.contract_of EC.identity_schema EC.provenance_schema
    EC.schema_valid EC.times_ordered EC.to_contract execution_checks execution_keys_free
    execution_parents_exist EK.transition_checks EK.transition_keys_free insert_execution
    find_execution ER.insert_transition get_execution unique find any all select update ◌>>=◌ begin
    connect step_at
starts = (refl, refl, refl)

start_coordinator-IsReceived_example : IsReceived libraries digest command started
start_coordinator-IsReceived_example =
    start_coordinator-IsReceived libraries digest (inputs 200) command (quiet waiting)
      (value starting) tt starts.0 starts.1

retry_start_is_identical_example : (value retrying).outcome ≡ duplicate_identical
retry_start_is_identical_example =
    retry_start_is_identical libraries digest (inputs 300) command (quiet started) (value retrying)
      start_coordinator-IsReceived_example tt starts.2

-- A Run that was cancelled before it started, in tables that meet the constraints.
abbrev ended : RunRow
ended = record (initial_run "RUN-1" original provenance 100 "RUN-1" (some "EVT-1") none none) {
  status = cancelled;
  revision = 1;
  updated_at = 150;
  ended_at = some 150;
  status_reason_code = some "RUN_CANCELLED";
}

abbrev finished : Database
finished = record waiting { runs = ended ∷ [] }

abbrev new_execution : ExecutionRow
new_execution = execution_row libraries digest command ended "EXE-1" 200

new_execution-valid : EC.to_contract libraries new_execution ≡ ok (EC.contract_of new_execution)
unfolding initial_run execution_row compute_execution_key show_int digits result_of failure_of
    input_schema status_schema specialist_roles validate_execution EC.contract_of EC.identity_schema
    EC.provenance_schema EC.schema_valid EC.times_ordered EC.to_contract unique find any all
new_execution-valid = refl

ended_meets :
    (is_start_request command.start_request_id ≡ true)
    × (find_receipt command.start_request_id finished ≡ none)
    × (find_run "RUN-1" finished ≡ some ended)
    × (is_terminal cancelled ≡ true)
    × (to_contract accept_all ended ≡ ok (contract_of ended))
    × (run_checks ended ≡ true)
unfolding initial_run is_start_request find_receipt find_run is_terminal terminal_statuses member
    run_checks lifecycle_of contract_of identity_schema provenance_schema lifecycle_schema
    schema_valid identity_consistent times_ordered validate_run to_contract find any all
ended_meets = (refl, refl, refl, refl, refl, refl)

ended_run_is_refused_example :
    start_coordinator libraries digest (inputs 200) command (quiet finished)
    ≡ (err (persistence_integrity_error "stored Run violates Contract"), quiet finished)
ended_run_is_refused_example =
    ended_run_is_refused libraries digest (inputs 200) command ended 200 (contract_of ended)
      (EC.contract_of new_execution) finished refl ended_meets.0 ended_meets.1 ended_meets.2
      ended_meets.3 ended_meets.4 refl new_execution-valid
