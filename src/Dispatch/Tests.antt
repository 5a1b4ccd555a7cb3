-- ===== src/Dispatch/Tests.antt =====
-- A dispatch and its retry on small tables.
use factory_ops.Common.{
  ◌≡◌, refl, String, none, some, Bool, ◌=s◌, [], ◌∷◌, true, pos, find, any, all, select, unique,
}
use factory_ops.Session.{Result, ok, err, ◌>>=◌, begin, connect, step_at}
use factory_ops.Database.{Database}
use factory_ops.Run.Model.{original, applied, RunProvenance}
use factory_ops.Run.Quiet.{quiet}
use factory_ops.Run.Service.{initial_run}
use factory_ops.Run.Service.Calls.{aware, duplicate_outcome}
use factory_ops.Execution.Model.{ExecutionRow}
use factory_ops.Execution.Model as E
use factory_ops.Execution.Repository.{find_execution}
use factory_ops.Task.Constraints.{
  task_checks, task_keys_free, executions_exist, transition_checks, transition_keys_free,
}
use factory_ops.Task.Contract.{
  compute_task_key, failure_of, contract_of, role_fits, identity_schema, assignment_schema,
  input_schema, status_schema, schema_valid, times_ordered, validate_task, to_contract,
}
use factory_ops.Task.Repository.{
  dependencies_of, find_task, find_by_request, insert_task, insert_dependency, insert_transition,
}
use factory_ops.Task.Service.Calls.{get_task}
use factory_ops.Dispatch.Repository.{
  start_owner, update_waiting, link_dependencies, dispatch_statements, dispatch,
}
use factory_ops.Dispatch.Service.{
  DispatchCommand, DispatchResult, DispatchPayload, DispatchInputs, payload_of, payload_row,
  task_row, task_history, owner_history, outcome_with_dispatched, classify_dispatch, after_dispatch,
  after_validated, dispatch_task,
}
use factory_ops.Dispatch.Retry.{
  HasPayload, dispatch_task-HasPayload, applied_dispatch_is_classified,
}

abbrev accept : String → String → Bool
accept regex s = true

abbrev plain : String → String
plain s = s

abbrev digest : DispatchPayload → String
digest payload = payload.context_snapshot_id

abbrev command : DispatchCommand
command = record {
  task_request_id = "TQR-1";
  run_id = "RUN-1";
  coordinator_execution_id = "EXE-1";
  task_type = "QUALITY_ANALYSIS";
  target_agent_role = "quality";
  priority = pos 50;
  context_snapshot_id = "CTX-1";
  evidence_refs = [];
  dependency_task_ids = "TSK-B" ∷ "TSK-A" ∷ [];
}

abbrev inputs : DispatchInputs
inputs = record {
  clock = aware 100;
  task_id = "TSK-1";
  transition_id = "TTR-1";
  transition_request_id = "TQR-2";
  execution_transition_id = "ETR-1";
  execution_request_id = "ERQ-1";
}

abbrev coordinator : ExecutionRow
coordinator = record {
  execution_id = "EXE-1";
  execution_key = "KEY-1";
  contract_version = "1.0.0";
  run_id = "RUN-1";
  agent_role = "coordinator";
  attempt = pos 1;
  task_id = none;
  runtime_version = "1.0.0";
  prompt_version = "1.0.0";
  model_policy_version = "1.0.0";
  tool_policy_version = "1.0.0";
  context_policy_version = "1.0.0";
  code_revision = "abcdef0";
  context_snapshot_id = "CTX-1";
  input_evidence_refs = [];
  status = E.running;
  revision = 1;
  created_at = 90;
  updated_at = 95;
  started_at = some 95;
  ended_at = none;
  status_reason_code = some "EXECUTION_STARTED";
  status_reason_message = some "started";
  output_artifact_refs = none;
  decision_id = none;
  result_evidence_refs = none;
  failure_code = none;
  failure_message = none;
  failure_recoverability = none;
  failed_dependency_ref = none;
}

abbrev provenance : RunProvenance
provenance = record {
  incident_id = "QI-1";
  runtime_version = "1.0.0";
  workflow_version = "1.0.0";
  prompt_set_version = "1.0.0";
  model_policy_version = "1.0.0";
  tool_policy_version = "1.0.0";
  context_policy_version = "1.0.0";
  code_revision = "abcdef0";
}

-- A Run with its coordinator and two Tasks.
abbrev waiting : Database
waiting = record {
  inbox = [];
  rejections = [];
  runs = initial_run "RUN-1" original provenance 80 "RUN-1" (some "EVT-1") none none ∷ [];
  run_transitions = [];
  executions = coordinator ∷ [];
  execution_transitions = [];
  tasks =
      task_row plain (record inputs { task_id = "TSK-A" })
        (record command { task_request_id = "TQR-A" }) 96
      ∷ task_row plain (record inputs { task_id = "TSK-B" })
          (record command { task_request_id = "TQR-B" }) 97
      ∷ [];
  task_dependencies = [];
  task_transitions = [];
  leases = [];
  start_receipts = [];
  worker_starts = [];
  worker_completions = [];
}

abbrev value : Result DispatchResult → DispatchResult
value (ok r) = r
value (err e) = record { outcome = applied; task = none }

abbrev dispatching : Result DispatchResult
dispatching = (dispatch_task accept plain digest inputs command (quiet waiting)).0

abbrev dispatched : Database
dispatched = (dispatch_task accept plain digest inputs command (quiet waiting)).1.store

-- The same request, with another context.
abbrev other : DispatchCommand
other = record command { context_snapshot_id = "CTX-2" }

abbrev later : DispatchInputs
later = record inputs { clock = aware 200; task_id = "TSK-2" }

abbrev retrying : Result DispatchResult
retrying = (dispatch_task accept plain digest later other (quiet dispatched)).0

dispatches :
    (dispatching ≡ ok (value dispatching))
    × ((value dispatching).outcome ≡ applied)
    × (retrying ≡ ok (value retrying))
unfolding payload_of payload_row task_row task_history owner_history outcome_with_dispatched
    classify_dispatch after_dispatch after_validated dispatch_task start_owner update_waiting
    link_dependencies dispatch_statements dispatch find_execution initial_run task_checks
    task_keys_free executions_exist transition_checks transition_keys_free insert_task
    insert_dependency insert_transition dependencies_of find_task find_by_request get_task
    compute_task_key failure_of contract_of role_fits identity_schema assignment_schema input_schema
    status_schema schema_valid times_ordered validate_task to_contract unique find any all select
    ◌>>=◌ begin connect step_at
dispatches = (refl, refl, refl)

applied_dispatch_is_classified_example :
    (value retrying).outcome
    ≡ duplicate_outcome (digest (payload_of command) =s digest (payload_of other))
applied_dispatch_is_classified_example =
    applied_dispatch_is_classified accept plain digest inputs later command other (quiet waiting)
      (quiet dispatched) (value dispatching) (value retrying) refl tt tt dispatches.0 dispatches.1
      (λ id t h. (t, h, refl)) tt dispatches.2

dispatch_task-HasPayload_example : HasPayload "TQR-1" (payload_of command) dispatched
dispatch_task-HasPayload_example =
    dispatch_task-HasPayload accept plain digest inputs command (quiet waiting) (value dispatching)
      tt tt dispatches.0 dispatches.1
