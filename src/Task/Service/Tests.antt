-- ===== src/Task/Service/Tests.antt =====
-- Runs of the operations of task_lifecycle/service.py on small tables.
use factory_ops.Common.{
  ℕ, ◌≡◌, refl, String, none, some, [], ◌∷◌, Bool, true, pos, find, any, all, select, update,
  is_blank, matches_reason_code, code_pattern, unique,
}
use factory_ops.Session.{Result, ok, err, ◌>>=◌, begin, connect, step_at}
use factory_ops.Database.{Database}
use factory_ops.Versioned
use factory_ops.Versioned.{history}
use factory_ops.Run.Model.{applied, duplicate_identical}
use factory_ops.Run.Quiet.{quiet}
use factory_ops.Run.Service.Calls.{aware}
use factory_ops.Execution.Model.{ExecutionRow}
use factory_ops.Execution.Model as E
use factory_ops.Task.Model.{CreateTaskCommand, TransitionCommand, TaskRow, pending, running}
use factory_ops.Task.Rules.{
  legal, terminal, is_legal, is_terminal, planned_attempt, planned_result, plan_transition,
}
use factory_ops.Task.Contract.{
  compute_task_key, failure_of, contract_of, role_fits, identity_schema, assignment_schema,
  input_schema, status_schema, schema_valid, times_ordered, validate_task, to_contract,
}
use factory_ops.Task.Constraints.{
  has_task_id, task_checks, executions_exist, transition_checks, transition_keys_free,
}
use factory_ops.Task.Repository.{
  dependencies_of, find_task, find_transition, insert_transition, is_target, updated_row,
  update_task, apply_transition,
}
use factory_ops.Task.Consistency.{IsConsistent}
use factory_ops.Task.Service.{
  Inputs, OperationResult, transition_values, get_task, outcome_with_task, initial_row,
  initial_transition, transition_task, existing_or, with_current, after_plan, candidate,
  after_candidate, transition_update, transition_row, after_apply, transition_matches,
  classify_transition,
}
use factory_ops.Task.Service.Applied.{IsStored}
use factory_ops.Task.Guarantees.{applied_task-IsStored, retry_task_is_identical}

abbrev accept : String → String → Bool
accept regex s = true

abbrev plain : String → String
plain s = s

abbrev analysis : CreateTaskCommand
analysis = record {
  task_request_id = "TQR-1";
  run_id = "RUN-1";
  task_type = "QUALITY_ANALYSIS";
  target_agent_role = "quality";
  created_by_execution_id = "EXE-1";
  priority = pos 50;
  context_snapshot_id = "CTX-1";
  evidence_refs = "evidence/1" ∷ [];
  dependency_task_ids = [];
}

abbrev inputs : ℕ → String → Inputs
inputs at transition_id = record {
  clock = aware at;
  task_id = "TSK-1";
  transition_id = transition_id;
  transition_request_id = "TRQ-0";
}

abbrev row : TaskRow
row = initial_row (inputs 100 "TTR-0") analysis "TAK-v1\nRUN-1\nTQR-1" 100

abbrev execution : String → ExecutionRow
execution id = record {
  execution_id = id;
  execution_key = id;
  contract_version = "1.0.0";
  run_id = "RUN-1";
  agent_role = "quality";
  attempt = pos 1;
  task_id = none;
  runtime_version = "1.0.0";
  prompt_version = "1.0.0";
  model_policy_version = "1.0.0";
  tool_policy_version = "1.0.0";
  context_policy_version = "1.0.0";
  code_revision = "abcdef0";
  context_snapshot_id = "CTX-1";
  input_evidence_refs = [];
  status = E.running;
  revision = 1;
  created_at = 100;
  updated_at = 100;
  started_at = some 100;
  ended_at = none;
  status_reason_code = none;
  status_reason_message = none;
  output_artifact_refs = none;
  decision_id = none;
  result_evidence_refs = none;
  failure_code = none;
  failure_message = none;
  failure_recoverability = none;
  failed_dependency_ref = none;
}

abbrev created : Database
created = record {
  inbox = [];
  rejections = [];
  runs = [];
  run_transitions = [];
  executions = execution "EXE-1" ∷ execution "EXE-2" ∷ [];
  execution_transitions = [];
  tasks = row ∷ [];
  task_dependencies = [];
  task_transitions = initial_transition (inputs 100 "TTR-0") 100 ∷ [];
  leases = [];
  start_receipts = [];
  worker_starts = [];
  worker_completions = [];
}

abbrev start : TransitionCommand
start = record {
  transition_request_id = "TRQ-1";
  task_id = "TSK-1";
  expected_status = pending;
  expected_revision = pos 0;
  to_status = running;
  actor_kind = "WORKER";
  actor_id = "worker-1";
  reason_code = "TASK_STARTED";
  reason_message = "started";
  execution_id = some "EXE-2";
  completion_execution_id = none;
  failure_code = none;
  failure_message = none;
  failure_recoverability = none;
}

abbrev value : Result OperationResult → OperationResult
value (ok r) = r
value (err e) = record { outcome = applied; task = none }

abbrev starting : Result OperationResult
starting = (transition_task accept plain (inputs 200 "TTR-1") start (quiet created)).0

abbrev started : Database
started = (transition_task accept plain (inputs 200 "TTR-1") start (quiet created)).1.store

abbrev retrying : Result OperationResult
retrying = (transition_task accept plain (inputs 300 "TTR-2") start (quiet started)).0

starts :
    (starting ≡ ok (value starting))
    × ((value starting).outcome ≡ applied)
    × (retrying ≡ ok (value retrying))
unfolding initial_row initial_transition transition_values compute_task_key failure_of contract_of
    role_fits identity_schema assignment_schema input_schema status_schema schema_valid
    times_ordered validate_task to_contract task_checks executions_exist transition_checks
    transition_keys_free dependencies_of find_task find_transition insert_transition is_target
    updated_row update_task apply_transition get_task outcome_with_task transition_task existing_or
    with_current after_plan candidate after_candidate transition_update transition_row after_apply
    transition_matches classify_transition legal terminal is_legal is_terminal planned_attempt
    planned_result plan_transition is_blank matches_reason_code code_pattern unique find any all
    select update ◌>>=◌ begin connect step_at
starts = (refl, refl, refl)

applied_task-IsStored_example : IsStored start started
applied_task-IsStored_example =
    applied_task-IsStored accept plain (inputs 200 "TTR-1") start (quiet created) (value starting)
      tt starts.0 starts.1

retry_task_is_identical_example : (value retrying).outcome ≡ duplicate_identical
retry_task_is_identical_example =
    retry_task_is_identical accept plain (inputs 300 "TTR-2") start (quiet started) (value retrying)
      applied_task-IsStored_example tt starts.2

created-IsConsistent : IsConsistent created × (find (has_task_id "TSK-1") created.tasks ≡ some row)
unfolding initial_row initial_transition transition_values find any select Versioned.history
created-IsConsistent = (
  record {
    versioned = record {
      keys = (refl, tt);
      requests = (refl, tt);
      slots = (refl, tt);
      owned = (refl, tt);
      recorded = ((refl, refl, refl, refl, refl), tt);
    };
    task_requests = (refl, tt);
    task_keys = (refl, tt);
  },
  refl,
)
