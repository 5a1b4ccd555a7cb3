-- ===== src/Run/Service/Create.antt =====
-- `create_original_run` and `create_replay_run` of run_lifecycle/service.py.
use factory_ops.Common.{
  String, Option, none, some, Bool, ◌&&◌, not, if◌then◌else◌, ◌=s◌, same_option,
}
use factory_ops.Session.{
  Result, ok, err, integrity_error, run_creation_rejected, persistence_integrity_error, raise, lift,
  attempt, begin, connect, ◌>>=◌,
}
use factory_ops.Session.Lookup.{found_or}
use factory_ops.Database.{Action}
use factory_ops.Run.Model.{
  Instant, RunKind, original, replay, pending, system, applied, RunProvenance, OriginalRunCommand,
  ReplayRunCommand, RunRow, RunTransition, same_kind,
}
use factory_ops.Run.Contract.{RunContract, to_contract}
use factory_ops.Run.Repository.{
  inbox_event_exists, find_run, find_run_by_trigger_event, find_run_by_replay_request,
  insert_run_with_initial_transition,
}
use factory_ops.Run.Service.Calls.{Inputs, now, RunOperationResult, duplicate_outcome, with_outcome}

unfoldable pub provenance_matches : RunProvenance → RunProvenance → Bool
provenance_matches p q =
    p.incident_id =s q.incident_id
    && p.runtime_version =s q.runtime_version
    && p.workflow_version =s q.workflow_version
    && p.prompt_set_version =s q.prompt_set_version
    && p.model_policy_version =s q.model_policy_version
    && p.tool_policy_version =s q.tool_policy_version
    && p.context_policy_version =s q.context_policy_version
    && p.code_revision =s q.code_revision

unfoldable pub original_matches : OriginalRunCommand → RunRow → Bool
original_matches command existing =
    same_kind existing.run_kind original
    && same_option existing.trigger_event_id (some command.trigger_event_id)
    && provenance_matches existing.provenance command.provenance

unfoldable pub replay_matches : ReplayRunCommand → RunRow → Bool
replay_matches command existing =
    same_kind existing.run_kind replay
    && existing.original_run_id =s command.original_run_id
    && same_option existing.replayed_from_run_id (some command.replayed_from_run_id)
    && same_option existing.replay_request_id (some command.replay_request_id)
    && provenance_matches existing.provenance command.provenance

-- `_initial_run`
unfoldable pub initial_run :
    String
    → RunKind
    → RunProvenance
    → Instant
    → String
    → (trigger replayed_from replay_request : Option String) → RunRow
initial_run run_id kind provenance created_at original_run_id trigger replayed_from replay_request =
    record {
      run_id = run_id;
      contract_version = "1.0.0";
      run_kind = kind;
      original_run_id = original_run_id;
      trigger_event_id = trigger;
      replayed_from_run_id = replayed_from;
      replay_request_id = replay_request;
      provenance = provenance;
      status = pending;
      revision = 0;
      created_at = created_at;
      updated_at = created_at;
      started_at = none;
      ended_at = none;
      status_reason_code = none;
      status_reason_message = none;
      coordinator_execution_id = none;
      latest_checkpoint_id = none;
      agent_execution_count = 0;
      task_count = 0;
      completed_task_count = 0;
    }

-- `_initial_transition`
unfoldable pub initial_transition : Inputs → Instant → RunTransition
initial_transition inputs occurred_at = record {
  transition_id = inputs.transition_id;
  transition_request_id = inputs.transition_request_id;
  run_id = inputs.run_id;
  from_status = none;
  to_status = pending;
  from_revision = none;
  to_revision = 0;
  actor_kind = system;
  actor_id = "agent-run-lifecycle";
  reason_code = "RUN_CREATED";
  reason_message = none;
  checkpoint_id = none;
  occurred_at = occurred_at;
}

abbrev same_incident : RunRow → RunRow → RunProvenance → Bool
same_incident root source provenance =
    root.provenance.incident_id =s source.provenance.incident_id
    && source.provenance.incident_id =s provenance.incident_id

unfoldable pub validate_replay_lineage :
    ReplayRunCommand → Option RunRow → Option RunRow → Result (Unit {0})
validate_replay_lineage command (some root) (some source) =
    if not (same_kind root.run_kind original)
    then err (run_creation_rejected "original_run_id must identify an original Run")
    else if not (source.original_run_id =s command.original_run_id)
    then err (run_creation_rejected "replay source has a different original Run")
    else if not (same_incident root source command.provenance)
    then err (run_creation_rejected "replay lineage must belong to the same Incident")
    else ok tt
validate_replay_lineage command _ _ =
    err (run_creation_rejected "replay lineage Run does not exist")

module _ (matches : String → String → Bool) where
  -- `_classify_existing_creation`
  unfoldable pub classify_existing_creation : (RunRow → Bool) → RunRow → Action RunOperationResult
  classify_existing_creation same existing =
      lift (with_outcome (duplicate_outcome (same existing)) (to_contract matches existing))

  abbrev pub created_result : Option RunRow → Action RunOperationResult
  created_result none = raise (persistence_integrity_error "created Run could not be reloaded")
  created_result (some created) = lift (with_outcome applied (to_contract matches created))

  -- After the INSERT: `except IntegrityError`, or the reload.
  unfoldable pub after_insert :
      RunRow
      → Action (Option RunRow)
      → (RunRow → Bool)
      → Result (Unit {0})
      → Action RunOperationResult
  after_insert run find_existing same (ok _) = do
    created ← connect (find_run run.run_id)
    created_result created
  after_insert run find_existing same (err integrity_error) = do
    existing ← find_existing
    found_or existing (classify_existing_creation same)
        (raise (run_creation_rejected "Run creation violated database constraints"))
  after_insert run find_existing same (err e) = raise e

  -- After the Contract check: `except PersistenceIntegrityError`, or the INSERT.
  unfoldable pub after_check :
      RunRow
      → RunTransition
      → Action (Option RunRow)
      → (RunRow → Bool)
      → Result RunContract
      → Action RunOperationResult
  after_check run transition find_existing same (ok _) = do
    inserted ← attempt (begin (insert_run_with_initial_transition run transition))
    after_insert run find_existing same inserted
  after_check run transition find_existing same (err e) = do
    existing ← find_existing
    found_or existing (classify_existing_creation same)
        (raise (run_creation_rejected "Run Contract is invalid"))

  -- `_create_or_classify`
  unfoldable pub create_or_classify :
      RunRow → RunTransition → Action (Option RunRow) → (RunRow → Bool) → Action RunOperationResult
  create_or_classify run transition find_existing same =
      after_check run transition find_existing same (to_contract matches run)

  abbrev pub original_run : Inputs → OriginalRunCommand → Instant → RunRow
  original_run inputs command created_at =
      initial_run inputs.run_id original command.provenance created_at inputs.run_id
        (some command.trigger_event_id) none none

  unfoldable pub create_original_run : Inputs → OriginalRunCommand → Action RunOperationResult
  create_original_run inputs command = do
    let find_existing = connect (find_run_by_trigger_event command.trigger_event_id)
    let classify = classify_existing_creation (original_matches command)
    existing ← find_existing
    found_or existing classify do
      known ← connect (inbox_event_exists command.trigger_event_id)
      if not known
          then (do
            late ← find_existing
            found_or late classify (raise (run_creation_rejected "Inbox event does not exist")))
          else do
            created_at ← lift (now inputs.clock)
            create_or_classify (original_run inputs command created_at)
                (initial_transition inputs created_at) find_existing (original_matches command)

  abbrev pub replay_run : Inputs → ReplayRunCommand → Instant → RunRow
  replay_run inputs command created_at =
      initial_run inputs.run_id replay command.provenance created_at command.original_run_id none
        (some command.replayed_from_run_id) (some command.replay_request_id)

  abbrev pub after_lineage :
      Action (Option RunRow)
      → (RunRow → Action RunOperationResult)
      → Action RunOperationResult
      → Result (Unit {0})
      → Action RunOperationResult
  after_lineage find_existing classify create (ok _) = create
  after_lineage find_existing classify create (err e) = do
    late ← find_existing
    found_or late classify (raise e)

  unfoldable pub create_replay_run : Inputs → ReplayRunCommand → Action RunOperationResult
  create_replay_run inputs command = do
    let find_existing = connect (find_run_by_replay_request command.replay_request_id)
    let classify = classify_existing_creation (replay_matches command)
    existing ← find_existing
    found_or existing classify do
      root ← connect (find_run command.original_run_id)
      source ← connect (find_run command.replayed_from_run_id)
      after_lineage find_existing classify
          (do
            created_at ← lift (now inputs.clock)
            create_or_classify (replay_run inputs command created_at)
                (initial_transition inputs created_at) find_existing (replay_matches command))
          (validate_replay_lineage command root source)
