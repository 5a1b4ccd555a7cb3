-- ===== src/Ingress/Tests.antt =====
-- Runs of the operations of event_ingress on small tables.
use factory_ops.Common.{
  List, ◌≡◌, ◌↔◌, refl, String, none, some, [], ◌∷◌, Bool, true, find, any, all, is_version,
  if◌then◌else◌, ◌=s◌, is_code_revision,
}
use factory_ops.Session.{ok, err, integrity_error, World, ◌>>=◌, begin, step_at}
use factory_ops.Database.{Database}
use factory_ops.Ingress.Model.{KafkaRecord, DecodedEvent, rejected_conflicting, not_applicable}
use factory_ops.Ingress.Inbox.{
  inbox_row, inbox_keys_free, insert_rejection, compare_existing, accept_event, accept,
  reject_record, reject,
}
use factory_ops.Ingress.RuntimeConfig.{
  AgentRuntimeConfig, loaded, get, required_value, from_environment, IsConfigured,
  from_environment_iff, to_provenance,
}
use factory_ops.Ingress.Provenance.{from_environment-provenance}
use factory_ops.Run.Contract.{provenance_schema}
use factory_ops.Ingress.Worker.{
  Decoded, event, failure, after_accept, process_decoded, process, commit, after_process, run_once,
}
use factory_ops.Ingress.Durable.{is_recorded, process_records}
use factory_ops.Ingress.Offsets.{IsRetryable, commit-is_recorded, failure_seeks}
use factory_ops.Run.Service.Calls.{Inputs, aware}

abbrev accept_all : String → String → Bool
accept_all regex text = true

abbrev config : AgentRuntimeConfig
config = record {
  runtime_version = "1.0.0";
  workflow_version = "1.0.0";
  prompt_set_version = "1.0.0";
  model_policy_version = "1.0.0";
  tool_policy_version = "1.0.0";
  context_policy_version = "1.0.0";
  code_revision = "abcdef0";
}

abbrev inputs : Inputs
inputs = record {
  clock = aware 100;
  run_id = "RUN-1";
  transition_id = "RTN-1";
  transition_request_id = "RTR-1";
}

abbrev message : KafkaRecord
message = record {
  topic = "incidents";
  partition = 0;
  offset = 8;
  key = none;
  value = some (1 ∷ 2 ∷ []);
}

abbrev opened : DecodedEvent
opened = record {
  source = message;
  event_id = "EVT-1";
  incident_id = "QI-1";
  event_type = "QUALITY_INCIDENT_OPENED";
  contract_version = "1.0.0";
  message_key = "QI-1";
  canonical_sha256 = 7 ∷ [];
}

-- The same event identity came with other content before.
abbrev earlier : DecodedEvent
earlier = record opened { source = record message { offset = 7 }; canonical_sha256 = 6 ∷ [] }

abbrev tables : World Database
tables = record {
  store = record {
    inbox = unfold inbox_row in inbox_row earlier ∷ [];
    rejections = [];
    runs = [];
    run_transitions = [];
    executions = [];
    execution_transitions = [];
    tasks = [];
    task_dependencies = [];
    task_transitions = [];
    leases = [];
    start_receipts = [];
    worker_starts = [];
    worker_completions = [];
  };
  upcoming = [];
}

abbrev decoded : KafkaRecord → Decoded
decoded source = event opened

abbrev undecodable : KafkaRecord → Decoded
undecodable source =
    failure
      (record { code = "invalid_utf8"; detail = ""; payload_sha256 = 9 ∷ []; event_id = none })

conflicting :
    (process accept_all config inputs decoded message tables).0
    ≡ ok (record {
      outcome = rejected_conflicting;
      event_id = some "EVT-1";
      run_id = none;
      run_start_outcome = not_applicable;
    })
unfolding process process_decoded after_accept accept accept_event inbox_keys_free inbox_row
    compare_existing insert_rejection any find ◌>>=◌ begin step_at
conflicting = refl

process_records_example :
    is_recorded message
      (event opened)
      (process accept_all config inputs decoded message tables).1.store
    ≡ true
process_records_example =
    process_records accept_all config inputs decoded message tables
      (record {
        outcome = rejected_conflicting;
        event_id = some "EVT-1";
        run_id = none;
        run_start_outcome = not_applicable;
      })
      tt conflicting

committed :
    (run_once accept_all config inputs undecodable
      (ok (some message))
      (ok tt)
      tables).0.consumer_calls
    ≡ commit message ∷ []
unfolding run_once after_process process process_decoded reject reject_record insert_rejection any
    ◌>>=◌ begin step_at
committed = refl

commit-is_recorded_example :
    is_recorded message
      (undecodable message)
      (run_once accept_all config inputs undecodable (ok (some message)) (ok tt) tables).1.store
    ≡ true
commit-is_recorded_example =
    commit-is_recorded accept_all config inputs undecodable message (ok tt) tables [] tt committed

refused :
    (run_once accept_all config inputs undecodable
      (ok (some message))
      (err integrity_error)
      tables).0.result
    ≡ err integrity_error
unfolding run_once after_process process process_decoded reject reject_record insert_rejection any
    ◌>>=◌ begin step_at
refused = refl

failure_seeks_example :
    IsRetryable (ok (some message)) integrity_error tables (
      run_once accept_all config inputs undecodable
        (ok (some message))
        (err integrity_error)
        tables)
failure_seeks_example =
    failure_seeks accept_all config inputs undecodable (ok (some message)) (err integrity_error)
      tables integrity_error refused

abbrev environment : List (String × String)
environment =
    ("FACTORYOPS_AGENT_RUNTIME_VERSION", "1.0.0")
    ∷ ("FACTORYOPS_AGENT_WORKFLOW_VERSION", "1.0.0")
    ∷ ("FACTORYOPS_AGENT_PROMPT_SET_VERSION", "1.0.0")
    ∷ ("FACTORYOPS_AGENT_MODEL_POLICY_VERSION", "1.0.0")
    ∷ ("FACTORYOPS_AGENT_TOOL_POLICY_VERSION", "1.0.0")
    ∷ ("FACTORYOPS_AGENT_CONTEXT_POLICY_VERSION", "1.0.0")
    ∷ ("FACTORYOPS_AGENT_CODE_REVISION", "abcdef0")
    ∷ []

environment_loads : from_environment environment ≡ loaded config
unfolding from_environment required_value get is_version is_code_revision all
environment_loads = refl

from_environment_iff_example :
    (from_environment environment ≡ loaded config) ↔ IsConfigured environment config
from_environment_iff_example = from_environment_iff environment config

-- The two expressions of the configuration, and no other check.
abbrev expressions : String → String → Bool
expressions regex text =
    if regex =s "^[A-Za-z0-9][A-Za-z0-9._:-]*$"
    then is_version text
    else if regex =s "^[0-9a-f]{7,64}$"
    then is_code_revision text
    else true

from_environment-provenance_example :
    provenance_schema expressions (to_provenance config "QI-1") ≡ true
from_environment-provenance_example =
    from_environment-provenance expressions environment config "QI-1" (λ s h. h) (λ s h. h) refl
      environment_loads
