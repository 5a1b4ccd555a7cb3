-- ===== src/Task/Tests.antt =====
-- The creation of a Task on small tables.
use factory_ops.Common.{◌≡◌, refl, String, none, some, [], ◌∷◌, pos, any, find}
use factory_ops.Session.{ok}
use factory_ops.Database.{Database}
use factory_ops.Execution.Model.{ExecutionRow}
use factory_ops.Run.Model.{RunRow, RunProvenance, original}
use factory_ops.Task.Model.{TaskRow, TaskTransition}
use factory_ops.Task.Constraints.{
  task_checks, task_keys_free, executions_exist, transition_checks, transition_keys_free,
}
use factory_ops.Task.Repository.{
  check_dependencies, insert_task, insert_dependency, insert_dependencies, insert_transition,
  create_statements, create,
}
use factory_ops.Task.Order.{IsOrdered, create-IsOrdered}

abbrev run : RunRow
run = record {
  run_id = "RUN-1";
  contract_version = "1.0.0";
  run_kind = original;
  original_run_id = "RUN-1";
  trigger_event_id = some "EVT-1";
  replayed_from_run_id = none;
  replay_request_id = none;
  provenance = record {
    incident_id = "QI-1";
    runtime_version = "1.0.0";
    workflow_version = "1.0.0";
    prompt_set_version = "1.0.0";
    model_policy_version = "1.0.0";
    tool_policy_version = "1.0.0";
    context_policy_version = "1.0.0";
    code_revision = "abcdef0";
  };
  status = factory_ops.Run.Model.running;
  revision = 1;
  created_at = 10;
  updated_at = 20;
  started_at = some 20;
  ended_at = none;
  status_reason_code = none;
  status_reason_message = none;
  coordinator_execution_id = none;
  latest_checkpoint_id = none;
  agent_execution_count = 0;
  task_count = 0;
  completed_task_count = 0;
}

abbrev coordinator : ExecutionRow
coordinator = record {
  execution_id = "EXE-1";
  execution_key = "EKY-1";
  contract_version = "1.0.0";
  run_id = "RUN-1";
  agent_role = "coordinator";
  attempt = pos 1;
  task_id = none;
  runtime_version = "1.0.0";
  prompt_version = "1.0.0";
  model_policy_version = "1.0.0";
  tool_policy_version = "1.0.0";
  context_policy_version = "1.0.0";
  code_revision = "abcdef0";
  context_snapshot_id = "CTX-1";
  input_evidence_refs = [];
  status = factory_ops.Execution.Model.pending;
  revision = 0;
  created_at = 30;
  updated_at = 30;
  started_at = none;
  ended_at = none;
  status_reason_code = none;
  status_reason_message = none;
  output_artifact_refs = none;
  decision_id = none;
  result_evidence_refs = none;
  failure_code = none;
  failure_message = none;
  failure_recoverability = none;
  failed_dependency_ref = none;
}

abbrev task : String → String → String → TaskRow
task id request key = record {
  task_id = id;
  task_request_id = request;
  task_key = key;
  contract_version = "1.0.0";
  run_id = "RUN-1";
  task_type = "quality_analysis";
  target_agent_role = "quality";
  created_by_execution_id = "EXE-1";
  priority = pos 50;
  context_snapshot_id = "CTX-1";
  evidence_refs = [];
  status = factory_ops.Task.Model.pending;
  revision = 0;
  created_at = 100;
  updated_at = 100;
  started_at = none;
  ended_at = none;
  status_reason_code = none;
  status_reason_message = none;
  current_execution_id = none;
  attempt_count = 0;
  completion_execution_id = none;
  failure_execution_id = none;
  failure_code = none;
  failure_message = none;
  failure_recoverability = none;
}

abbrev opening : TaskTransition
opening = record {
  transition_id = "TTN-1";
  transition_request_id = "TTR-1";
  task_id = "TSK-2";
  from_status = none;
  to_status = factory_ops.Task.Model.pending;
  from_revision = none;
  to_revision = 0;
  actor_kind = "system";
  actor_id = "agent-task-lifecycle";
  reason_code = "TASK_CREATED";
  reason_message = none;
  execution_id = none;
  attempt_count = 0;
  completion_execution_id = none;
  failure_code = none;
  failure_message = none;
  failure_recoverability = none;
  occurred_at = 200;
}

abbrev tables : Database
tables = record {
  inbox = [];
  rejections = [];
  runs = run ∷ [];
  run_transitions = [];
  executions = coordinator ∷ [];
  execution_transitions = [];
  tasks = task "TSK-1" "TRQ-1" "TKY-1" ∷ [];
  task_dependencies = [];
  task_transitions = [];
  leases = [];
  start_receipts = [];
  worker_starts = [];
  worker_completions = [];
}

created : (create (task "TSK-2" "TRQ-2" "TKY-2") ("TSK-1" ∷ []) opening tables).0 ≡ ok tt
unfolding create create_statements check_dependencies insert_task insert_dependency
    insert_dependencies insert_transition task_checks task_keys_free executions_exist
    transition_checks transition_keys_free any find
created = refl

create-IsOrdered_example :
    IsOrdered (create (task "TSK-2" "TRQ-2" "TKY-2") ("TSK-1" ∷ []) opening tables).1
create-IsOrdered_example =
    create-IsOrdered (task "TSK-2" "TRQ-2" "TKY-2") ("TSK-1" ∷ []) opening tables created tt
