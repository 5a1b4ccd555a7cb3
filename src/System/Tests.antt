-- ===== src/System/Tests.antt =====
-- A quality incident on small tables: a Run, its coordinator's Execution, which fails, and a Task.
use factory_ops.Common.{◌≡◌, refl, find, any, ℕ, String, none, some, List, [], ◌∷◌, Bool, true, pos}
use factory_ops.Session.{World, Slot, healthy, lost_after}
use factory_ops.Database.{Database}
use factory_ops.Ingress.Model.{InboxRow}
use factory_ops.Run.Model.{OriginalRunCommand}
use factory_ops.Run.Service.Calls.{aware}
use factory_ops.Run.Service.Calls as RI
use factory_ops.Execution.Model.{
  CreateExecutionCommand, TransitionCommand, ExecutionFailure, pending, running, failed,
  ExecutionRow,
}
use factory_ops.Execution.Contract.{Libraries}
use factory_ops.Execution.Service.{Inputs}
use factory_ops.Execution.Service as E
use factory_ops.Execution.Rules as EX
use factory_ops.Execution.Repository.{find_execution}
use factory_ops.Run.Quiet.{quiet}
use factory_ops.Task.Model.{CreateTaskCommand, TaskRow, cancelled}
use factory_ops.Task.Rules as TX
use factory_ops.Task.Constraints.{has_task_id}
use factory_ops.Task.Service as TS
use factory_ops.System.Ended.{serve_keeps_ended_task, serve_keeps_ended_execution}
use factory_ops.System.Serve.{
  Request, create_original, new_execution, move_execution, new_task, serve, IsSound, serve-IsSound,
}

abbrev accept : String → String → Bool
accept regex s = true

abbrev libraries : Libraries
libraries = record {
  matches = accept;
  sha256 = λ s. s;
  result_text = λ r. "{}";
  failure_text = λ f. f.code;
  json_column = λ s. s;
}

abbrev event : InboxRow
event = record {
  event_id = "EVT-1";
  event_type = "QUALITY_INCIDENT_OPENED";
  contract_version = "1.0.0";
  topic = "incidents";
  partition = 0;
  offset = 7;
  message_key = "QI-1";
  raw_payload = [];
  canonical_sha256 = [];
}

abbrev empty : Database
empty = record {
  inbox = event ∷ [];
  rejections = [];
  runs = [];
  run_transitions = [];
  executions = [];
  execution_transitions = [];
  tasks = [];
  task_dependencies = [];
  task_transitions = [];
  leases = [];
  start_receipts = [];
  worker_starts = [];
  worker_completions = [];
}

empty-IsSound : IsSound empty
empty-IsSound = record {
  runs = record {
    ids = tt;
    triggers = tt;
    replay_requests = tt;
    requests = tt;
    slots = tt;
    owned = tt;
    recorded = tt;
  };
  executions = record {
    versioned = record { keys = tt; requests = tt; slots = tt; owned = tt; recorded = tt };
    execution_keys = tt;
  };
  tasks = record {
    versioned = record { keys = tt; requests = tt; slots = tt; owned = tt; recorded = tt };
    task_requests = tt;
    task_keys = tt;
  };
}

abbrev creation : OriginalRunCommand
creation = record {
  trigger_event_id = "EVT-1";
  provenance = record {
    incident_id = "QI-1";
    runtime_version = "1.0.0";
    workflow_version = "1.0.0";
    prompt_set_version = "1.0.0";
    model_policy_version = "1.0.0";
    tool_policy_version = "1.0.0";
    context_policy_version = "1.0.0";
    code_revision = "abcdef0";
  };
}

abbrev run_inputs : RI.Inputs
run_inputs = record {
  clock = aware 100;
  run_id = "RUN-1";
  transition_id = "RTN-0";
  transition_request_id = "RTR-0";
}

abbrev coordination : CreateExecutionCommand
coordination = record {
  run_id = "RUN-1";
  agent_role = "coordinator";
  attempt = pos 1;
  task_id = none;
  runtime_version = "1.0.0";
  prompt_version = "1.0.0";
  model_policy_version = "1.0.0";
  tool_policy_version = "1.0.0";
  context_policy_version = "1.0.0";
  code_revision = "abcdef0";
  context_snapshot_id = "CTX-1";
  evidence_refs = "evidence/1" ∷ [];
}

abbrev inputs : ℕ → String → String → Inputs
inputs at transition_id request = record {
  clock = aware at;
  execution_id = "EXE-1";
  transition_id = transition_id;
  transition_request_id = request;
}

abbrev start : TransitionCommand
start = record {
  transition_request_id = "ERQ-1";
  execution_id = "EXE-1";
  expected_status = pending;
  expected_revision = pos 0;
  to_status = running;
  actor_kind = "COORDINATOR";
  actor_id = "coordinator-1";
  reason_code = "EXECUTION_STARTED";
  reason_message = "started";
  result = none;
  failure = none;
}

abbrev fault : ExecutionFailure
fault = record {
  code = "MODEL_TIMEOUT";
  message = "the model did not answer";
  recoverability = "retryable";
  failed_dependency_ref = none;
}

abbrev break : TransitionCommand
break = record start {
  transition_request_id = "ERQ-2";
  expected_status = running;
  expected_revision = pos 1;
  to_status = failed;
  reason_code = "EXECUTION_FAILED";
  failure = some fault;
}

abbrev task_inputs : TS.Inputs
task_inputs = record {
  clock = aware 350;
  task_id = "TSK-1";
  transition_id = "TTR-0";
  transition_request_id = "TRQ-0";
}

abbrev analysis : CreateTaskCommand
analysis = record {
  task_request_id = "TQR-1";
  run_id = "RUN-1";
  task_type = "QUALITY_ANALYSIS";
  target_agent_role = "quality";
  created_by_execution_id = "EXE-1";
  priority = pos 50;
  context_snapshot_id = "CTX-1";
  evidence_refs = "evidence/1" ∷ [];
  dependency_task_ids = [];
}

abbrev requests : List Request
requests =
    create_original run_inputs creation
    ∷ new_execution (inputs 200 "ETR-0" "ERQ-0") coordination
    ∷ move_execution (inputs 300 "ETR-1" "") start
    ∷ new_task task_inputs analysis
    ∷ move_execution (inputs 400 "ETR-2" "") break
    ∷ []

-- The connection is lost after the INSERT of the Run has been committed.
abbrev idle : Slot Database
idle = record { others = λ db. db; fault = healthy }

abbrev flaky : World Database
flaky = record {
  store = empty;
  upcoming = idle ∷ idle ∷ record { others = λ db. db; fault = lost_after } ∷ [];
}

serve-IsSound_example : IsSound (serve libraries requests flaky).1.store
serve-IsSound_example =
    serve-IsSound libraries requests flaky empty-IsSound (λ s c. c, (λ s c. c, (λ s c. c, tt)))

-- The Execution has failed, and its Task was cancelled.
abbrev failed_row : ExecutionRow
failed_row = record (E.initial_row (inputs 200 "ETR-0" "ERQ-0") coordination "KEY-1" 200) {
  status = failed;
  revision = 2;
  started_at = some 300;
  ended_at = some 400;
}

abbrev cancelled_row : TaskRow
cancelled_row = record (TS.initial_row task_inputs analysis "KEY-2" 350) {
  status = cancelled;
  revision = 1;
  ended_at = some 380;
}

abbrev ended : Database
ended = record empty { executions = failed_row ∷ []; tasks = cancelled_row ∷ [] }

-- Both are asked to run again.
abbrev reopenings : List Request
reopenings =
    move_execution (inputs 500 "ETR-9" "") (record start {
      transition_request_id = "ERQ-9";
      expected_status = failed;
      expected_revision = pos 2;
    })
    ∷ new_task task_inputs analysis
    ∷ []

ended_meets :
    (find (has_task_id "TSK-1") ended.tasks ≡ some cancelled_row)
    × (TX.is_terminal cancelled ≡ true)
    × (find_execution "EXE-1" ended ≡ some failed_row)
    × (EX.is_terminal failed ≡ true)
unfolding E.initial_row TS.initial_row find_execution find TX.is_terminal TX.terminal EX.is_terminal
    EX.terminal any
ended_meets = (refl, refl, refl, refl)

serve_keeps_ended_task_example :
    find (has_task_id "TSK-1") (serve libraries reopenings (quiet ended)).1.store.tasks
    ≡ some cancelled_row
serve_keeps_ended_task_example =
    serve_keeps_ended_task libraries reopenings (quiet ended) "TSK-1" cancelled_row ended_meets.0
      ended_meets.1 tt

serve_keeps_ended_execution_example :
    find_execution "EXE-1" (serve libraries reopenings (quiet ended)).1.store ≡ some failed_row
serve_keeps_ended_execution_example =
    serve_keeps_ended_execution libraries reopenings (quiet ended) "EXE-1" failed_row ended_meets.2
      ended_meets.3 tt
