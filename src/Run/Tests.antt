-- ===== src/Run/Tests.antt =====
-- Runs of the operations of run_lifecycle on small tables.
use factory_ops.Run.Rules.{
  terminal_statuses, is_terminal, legal_transitions, member, is_legal, planned_start, plan_from,
  plan_transition,
}
use factory_ops.Run.Contract.{
  times_ordered, identity_consistent, lifecycle_schema, provenance_schema, identity_schema,
  schema_valid, lifecycle_of, contract_of, validate_run, to_contract,
}
use factory_ops.Run.Repository.{
  update_breaks_check, updated_row, is_target, update_run, apply_transition, find_run,
  find_transition_by_request, transition_keys_free, transition_checks, run_parents_exist,
  run_keys_free, run_checks, insert_transition, insert_run, insert_run_with_initial_transition,
  inbox_event_exists, find_run_by_trigger_event,
}
use factory_ops.Common.{
  false, =s_iff, ◌≢◌, ℕ, inl, ◌≡◌, refl, String, Option, none, some, List, [], ◌∷◌, Bool, true, pos,
  matches_reason_code, is_blank, code_pattern, find, any, all, select, update,
}
use mathlib.Core.Bool.{false≢true}
use factory_ops.Session.{
  Result, ok, err, World, Slot, healthy, lost_after, ◌>>=◌, begin, connect, step_at,
}
use factory_ops.Database.{Database}
use factory_ops.Ingress.Model.{InboxRow}
use factory_ops.Run.Model.{
  TransitionPlan, RunTransition, RunStatus, pending, running, coordinator, original, cancelled,
  succeeded, applied, duplicate_identical, concurrency_conflict, RunProvenance, OriginalRunCommand,
  TransitionCommand, RunRow,
}
use factory_ops.Run.Consistency.{IsConsistent}
use factory_ops.Run.Service.{
  is_stale, classify_failed_transition, classify_existing_transition, transition_matches,
  after_apply, transition_row, transition_update, candidate, after_candidate, after_plan,
  with_current, existing_or, initial_transition, initial_run, after_insert, after_check,
  create_or_classify, create_original_run, transition_run,
}
use factory_ops.Run.Service.Calls.{outcome_with_run, get_run, Inputs, aware, RunOperationResult}
use factory_ops.Run.Service.Applied.{IsStored}
use factory_ops.Run.Guarantees.{
  run_call, Call, create_original, transition, serve, serve-IsConsistent, serve_keeps_transitions,
  applied-IsStored, retry_is_identical,
}
use factory_ops.Run.Quiet.{quiet, stale_conflicts, transition_applies}
use factory_ops.Run.Locking.{loser_is_not_applied}
use factory_ops.Run.Ended.{serve_keeps_ended}

abbrev accept : String → String → Bool
accept regex s = true

abbrev event : InboxRow
event = record {
  event_id = "EVT-1";
  event_type = "QUALITY_INCIDENT_OPENED";
  contract_version = "1.0.0";
  topic = "incidents";
  partition = 0;
  offset = 7;
  message_key = "QI-1";
  raw_payload = [];
  canonical_sha256 = [];
}

abbrev empty : Database
empty = record {
  inbox = event ∷ [];
  rejections = [];
  runs = [];
  run_transitions = [];
  executions = [];
  execution_transitions = [];
  tasks = [];
  task_dependencies = [];
  task_transitions = [];
  leases = [];
  start_receipts = [];
  worker_starts = [];
  worker_completions = [];
}

empty-IsConsistent : IsConsistent empty
empty-IsConsistent = record {
  ids = tt;
  triggers = tt;
  replay_requests = tt;
  requests = tt;
  slots = tt;
  owned = tt;
  recorded = tt;
}

abbrev provenance : RunProvenance
provenance = record {
  incident_id = "QI-1";
  runtime_version = "1.0.0";
  workflow_version = "1.0.0";
  prompt_set_version = "1.0.0";
  model_policy_version = "1.0.0";
  tool_policy_version = "1.0.0";
  context_policy_version = "1.0.0";
  code_revision = "abcdef0";
}

abbrev creation : OriginalRunCommand
creation = record { trigger_event_id = "EVT-1"; provenance = provenance }

abbrev inputs : ℕ → String → Inputs
inputs at id = record {
  clock = aware at;
  run_id = "RUN-1";
  transition_id = id;
  transition_request_id = "RTR-0";
}

abbrev start : TransitionCommand
start = record {
  transition_request_id = "RTR-1";
  run_id = "RUN-1";
  expected_status = pending;
  expected_revision = pos 0;
  to_status = running;
  actor_kind = coordinator;
  actor_id = "coordinator-1";
  reason_code = "RUN_STARTED";
  reason_message = none;
  checkpoint_id = none;
}

abbrev idle : Slot Database
idle = record { others = λ db. db; fault = healthy }

abbrev calls : List Call
calls = create_original (inputs 100 "RTN-0") creation ∷ transition (inputs 200 "RTN-1") start ∷ []

-- The connection is lost after the INSERT of the Run has been committed.
abbrev flaky : World Database
flaky = record {
  store = empty;
  upcoming = idle ∷ idle ∷ record { others = λ db. db; fault = lost_after } ∷ [];
}

abbrev created : Database
created = (create_original_run accept (inputs 100 "RTN-0") creation (quiet empty)).1.store

abbrev started : Database
started = (transition_run accept (inputs 200 "RTN-1") start (quiet created)).1.store

abbrev status_of : Database → Option RunStatus
status_of db = status (find_run "RUN-1" db)
  where
    status : Option RunRow → Option RunStatus
    status none = none
    status (some row) = some row.status

abbrev value : Result RunOperationResult → RunOperationResult
value (ok r) = r
value (err e) = record { outcome = concurrency_conflict; run = none }

abbrev result : RunOperationResult
result = value (transition_run accept (inputs 200 "RTN-1") start (quiet created)).0

abbrev retried : RunOperationResult
retried = value (transition_run accept (inputs 300 "RTN-2") start (quiet started)).0

started_ok :
    ((transition_run accept (inputs 200 "RTN-1") start (quiet created)).0 ≡ ok result)
    × (result.outcome ≡ applied)
    × (status_of started ≡ some running)
unfolding create_original_run find_run_by_trigger_event inbox_event_exists create_or_classify
    after_check after_insert initial_run initial_transition insert_run_with_initial_transition
    insert_run insert_transition run_checks run_keys_free run_parents_exist transition_checks
    transition_keys_free to_contract validate_run contract_of lifecycle_of schema_valid
    identity_schema provenance_schema lifecycle_schema identity_consistent times_ordered
    transition_run existing_or find_transition_by_request with_current find_run after_plan
    plan_transition plan_from planned_start is_legal member legal_transitions is_terminal
    terminal_statuses after_candidate candidate transition_update transition_row apply_transition
    update_run is_target updated_row update_breaks_check after_apply get_run transition_matches
    is_blank matches_reason_code code_pattern find any all select update ◌>>=◌ begin connect step_at
    classify_existing_transition classify_failed_transition outcome_with_run
started_ok = (refl, refl, refl)

retried_ok : (transition_run accept (inputs 300 "RTN-2") start (quiet started)).0 ≡ ok retried
unfolding create_original_run find_run_by_trigger_event inbox_event_exists create_or_classify
    after_check after_insert initial_run initial_transition insert_run_with_initial_transition
    insert_run insert_transition run_checks run_keys_free run_parents_exist transition_checks
    transition_keys_free to_contract validate_run contract_of lifecycle_of schema_valid
    identity_schema provenance_schema lifecycle_schema identity_consistent times_ordered
    transition_run existing_or find_transition_by_request with_current find_run after_plan
    plan_transition plan_from planned_start is_legal member legal_transitions is_terminal
    terminal_statuses after_candidate candidate transition_update transition_row apply_transition
    update_run is_target updated_row update_breaks_check after_apply get_run transition_matches
    is_blank matches_reason_code code_pattern find any all select update ◌>>=◌ begin connect step_at
    classify_existing_transition classify_failed_transition outcome_with_run
retried_ok = refl

abbrev served : Database
served = (serve accept calls (quiet empty)).1.store

abbrev stored : RunTransition
stored = transition_row (inputs 200 "RTN-1") start (plan_from start none 200 0 (some 200)) 200

started-stored :
    (find_transition_by_request "RTR-1" started ≡ some stored)
    × (transition_matches start stored ≡ true)
unfolding create_original_run find_run_by_trigger_event inbox_event_exists create_or_classify
    after_check after_insert initial_run initial_transition insert_run_with_initial_transition
    insert_run insert_transition run_checks run_keys_free run_parents_exist transition_checks
    transition_keys_free to_contract validate_run contract_of lifecycle_of schema_valid
    identity_schema provenance_schema lifecycle_schema identity_consistent times_ordered
    transition_run existing_or find_transition_by_request with_current find_run after_plan
    plan_transition plan_from planned_start is_legal member legal_transitions is_terminal
    terminal_statuses after_candidate candidate transition_update transition_row apply_transition
    update_run is_target updated_row update_breaks_check after_apply get_run transition_matches
    is_blank matches_reason_code code_pattern find any all select update ◌>>=◌ begin connect step_at
    classify_existing_transition classify_failed_transition outcome_with_run
started-stored = (refl, refl)

served-stored :
    (find_transition_by_request "RTR-1" served ≡ some stored)
    × (transition_matches start stored ≡ true)
unfolding serve run_call create_original_run find_run_by_trigger_event inbox_event_exists
    create_or_classify after_check after_insert initial_run initial_transition
    insert_run_with_initial_transition insert_run insert_transition run_checks run_keys_free
    run_parents_exist transition_checks transition_keys_free to_contract validate_run contract_of
    lifecycle_of schema_valid identity_schema provenance_schema lifecycle_schema identity_consistent
    times_ordered transition_run existing_or find_transition_by_request with_current find_run
    after_plan plan_transition plan_from planned_start is_legal member legal_transitions is_terminal
    terminal_statuses after_candidate candidate transition_update transition_row apply_transition
    update_run is_target updated_row update_breaks_check after_apply get_run transition_matches
    is_blank matches_reason_code code_pattern find any all select update ◌>>=◌ begin connect step_at
    classify_existing_transition classify_failed_transition outcome_with_run
served-stored = (refl, refl)

abbrev row_of : Option RunRow → RunRow
row_of (some row) = row
row_of none = initial_run "" original provenance 0 "" none none none

abbrev run_row : RunRow
run_row = row_of (find_run "RUN-1" served)

served_row : find_run "RUN-1" served ≡ some run_row
unfolding serve run_call create_original_run find_run_by_trigger_event inbox_event_exists
    create_or_classify after_check after_insert initial_run initial_transition
    insert_run_with_initial_transition insert_run insert_transition run_checks run_keys_free
    run_parents_exist transition_checks transition_keys_free to_contract validate_run contract_of
    lifecycle_of schema_valid identity_schema provenance_schema lifecycle_schema identity_consistent
    times_ordered transition_run existing_or find_transition_by_request with_current find_run
    after_plan plan_transition plan_from planned_start is_legal member legal_transitions is_terminal
    terminal_statuses after_candidate candidate transition_update transition_row apply_transition
    update_run is_target updated_row update_breaks_check after_apply get_run transition_matches
    is_blank matches_reason_code code_pattern find any all select update ◌>>=◌ begin connect step_at
    classify_existing_transition classify_failed_transition outcome_with_run
served_row = refl

served-IsConsistent : IsConsistent served
served-IsConsistent = serve-IsConsistent accept calls (quiet empty) empty-IsConsistent tt

serve-IsConsistent_example : IsConsistent (serve accept calls flaky).1.store
serve-IsConsistent_example =
    serve-IsConsistent accept calls flaky empty-IsConsistent (λ s c. c, (λ s c. c, (λ s c. c, tt)))

-- The Run has succeeded, and an operator wants to run it again.
abbrev ended_row : RunRow
ended_row = record run_row { status = succeeded; revision = 2; ended_at = some 400 }

abbrev ended : Database
ended = record served { runs = ended_row ∷ [] }

abbrev reopen : TransitionCommand
reopen = record start {
  transition_request_id = "RTR-9";
  expected_status = succeeded;
  expected_revision = pos 2;
}

ended_meets : (find_run "RUN-1" ended ≡ some ended_row) × (is_terminal ended_row.status ≡ true)
unfolding serve run_call create_original_run find_run_by_trigger_event inbox_event_exists
    create_or_classify after_check after_insert initial_run initial_transition
    insert_run_with_initial_transition insert_run insert_transition run_checks run_keys_free
    run_parents_exist transition_checks transition_keys_free to_contract validate_run contract_of
    lifecycle_of schema_valid identity_schema provenance_schema lifecycle_schema identity_consistent
    times_ordered transition_run existing_or find_transition_by_request with_current find_run
    after_plan plan_transition plan_from planned_start is_legal member legal_transitions is_terminal
    terminal_statuses after_candidate candidate transition_update transition_row apply_transition
    update_run is_target updated_row update_breaks_check after_apply get_run transition_matches
    is_blank matches_reason_code code_pattern find any all select update ◌>>=◌ begin connect step_at
    classify_existing_transition classify_failed_transition outcome_with_run
ended_meets = (refl, refl)

serve_keeps_ended_example :
    find_run "RUN-1"
      (serve accept (transition (inputs 500 "RTN-9") reopen ∷ []) (quiet ended)).1.store
    ≡ some ended_row
serve_keeps_ended_example =
    serve_keeps_ended accept (transition (inputs 500 "RTN-9") reopen ∷ []) (quiet ended) "RUN-1"
      ended_row ended_meets.0 ended_meets.1 tt

serve_keeps_transitions_example :
    find_transition_by_request "RTR-1" (serve accept calls (quiet started)).1.store ≡ some stored
serve_keeps_transitions_example =
    serve_keeps_transitions accept calls (quiet started) "RTR-1" stored started-stored.0 tt

applied-IsStored_example : IsStored start started
applied-IsStored_example =
    applied-IsStored accept (inputs 200 "RTN-1") start (quiet created) result tt started_ok.0
      started_ok.1

retry_is_identical_example : retried.outcome ≡ duplicate_identical
retry_is_identical_example =
    retry_is_identical accept (inputs 300 "RTN-2") start (quiet started) retried
      (stored, started-stored.0, started-stored.1) tt retried_ok

-- Another operator wants to cancel the Run at the revision that `start` expects.
abbrev rival : TransitionCommand
rival = record start { transition_request_id = "RTR-2"; to_status = cancelled }

abbrev lost : RunOperationResult
lost = value (transition_run accept (inputs 300 "RTN-2") rival (quiet served)).0

lost_ok : (transition_run accept (inputs 300 "RTN-2") rival (quiet served)).0 ≡ ok lost
unfolding serve run_call create_original_run find_run_by_trigger_event inbox_event_exists
    create_or_classify after_check after_insert initial_run initial_transition
    insert_run_with_initial_transition insert_run insert_transition run_checks run_keys_free
    run_parents_exist transition_checks transition_keys_free to_contract validate_run contract_of
    lifecycle_of schema_valid identity_schema provenance_schema lifecycle_schema identity_consistent
    times_ordered transition_run existing_or find_transition_by_request with_current find_run
    after_plan plan_transition plan_from planned_start is_legal member legal_transitions is_terminal
    terminal_statuses after_candidate candidate transition_update transition_row apply_transition
    update_run is_target updated_row update_breaks_check after_apply get_run transition_matches
    is_blank matches_reason_code code_pattern find any all select update ◌>>=◌ begin connect step_at
    classify_existing_transition classify_failed_transition outcome_with_run
lost_ok = refl

started-served : started ≡ served
unfolding serve run_call create_original_run find_run_by_trigger_event inbox_event_exists
    create_or_classify after_check after_insert initial_run initial_transition
    insert_run_with_initial_transition insert_run insert_transition run_checks run_keys_free
    run_parents_exist transition_checks transition_keys_free to_contract validate_run contract_of
    lifecycle_of schema_valid identity_schema provenance_schema lifecycle_schema identity_consistent
    times_ordered transition_run existing_or find_transition_by_request with_current find_run
    after_plan plan_transition plan_from planned_start is_legal member legal_transitions is_terminal
    terminal_statuses after_candidate candidate transition_update transition_row apply_transition
    update_run is_target updated_row update_breaks_check after_apply get_run transition_matches
    is_blank matches_reason_code code_pattern find any all select update ◌>>=◌ begin connect step_at
    classify_existing_transition classify_failed_transition outcome_with_run
started-served = refl

loser_is_not_applied_example : lost.outcome ≢ applied
loser_is_not_applied_example =
    loser_is_not_applied accept (inputs 200 "RTN-1") (inputs 300 "RTN-2") start rival
      (quiet created) (quiet served) result lost refl refl
      (λ e. false≢true ((=s_iff "RTR-1" "RTR-2").1 e)) tt started_ok.0 started_ok.1
      (λ id t h. rw (← started-served) h) served-IsConsistent tt tt lost_ok

-- The facts that the commands meet on these tables.
rival_meets :
    (find_transition_by_request "RTR-2" served ≡ none)
    × (run_row.status ≡ running)
    × (to_contract accept run_row ≡ ok (contract_of run_row))
unfolding serve run_call create_original_run find_run_by_trigger_event inbox_event_exists
    create_or_classify after_check after_insert initial_run initial_transition
    insert_run_with_initial_transition insert_run insert_transition run_checks run_keys_free
    run_parents_exist transition_checks transition_keys_free to_contract validate_run contract_of
    lifecycle_of schema_valid identity_schema provenance_schema lifecycle_schema identity_consistent
    times_ordered transition_run existing_or find_transition_by_request with_current find_run
    after_plan plan_transition plan_from planned_start is_legal member legal_transitions is_terminal
    terminal_statuses after_candidate candidate transition_update transition_row apply_transition
    update_run is_target updated_row update_breaks_check after_apply get_run transition_matches
    is_blank matches_reason_code code_pattern find any all select update ◌>>=◌ begin connect step_at
    classify_existing_transition classify_failed_transition outcome_with_run
rival_meets = (refl, refl, refl)

stale_conflicts_example : transition_run accept (inputs 300 "RTN-2") rival (quiet served) ≡ (
  ok (record { outcome = concurrency_conflict; run = some (contract_of run_row) }),
  quiet served,
)
stale_conflicts_example =
    stale_conflicts accept (inputs 300 "RTN-2") rival served run_row (contract_of run_row)
      rival_meets.0 served_row (inl (λ e. cc (rival_meets.1, e))) rival_meets.2

abbrev created_row : RunRow
created_row = row_of (find_run "RUN-1" created)

abbrev plan : TransitionPlan
plan = plan_from start none 200 0 (some 200)

abbrev moved : Database
moved = record created {
  runs =
      update (is_target (transition_update start plan 200))
        (updated_row (transition_update start plan 200)) created.runs;
}

start_meets :
    (find_transition_by_request "RTR-1" created ≡ none)
    × (find_run "RUN-1" created ≡ some created_row)
    × (is_stale accept start created_row ≡ false)
    × (plan_transition start created_row.started_at 200 ≡ ok plan)
    × (to_contract accept (candidate start created_row plan 200)
        ≡ ok (contract_of (candidate start created_row plan 200)))
    × (update_run (transition_update start plan 200) created ≡ ok moved)
    × (insert_transition (transition_row (inputs 200 "RTN-1") start plan 200) moved ≡ ok started)
unfolding serve run_call create_original_run find_run_by_trigger_event inbox_event_exists
    create_or_classify after_check after_insert initial_run initial_transition
    insert_run_with_initial_transition insert_run insert_transition run_checks run_keys_free
    run_parents_exist transition_checks transition_keys_free to_contract validate_run contract_of
    lifecycle_of schema_valid identity_schema provenance_schema lifecycle_schema identity_consistent
    times_ordered transition_run existing_or find_transition_by_request with_current find_run
    after_plan plan_transition plan_from planned_start is_legal member legal_transitions is_terminal
    terminal_statuses after_candidate candidate transition_update transition_row apply_transition
    update_run is_target updated_row update_breaks_check after_apply get_run transition_matches
    is_blank matches_reason_code code_pattern find any all select update ◌>>=◌ begin connect step_at
    classify_existing_transition classify_failed_transition outcome_with_run
start_meets = (refl, refl, refl, refl, refl, refl, refl)

transition_applies_example : transition_run accept (inputs 200 "RTN-1") start (quiet created) ≡ (
  ok (record {
    outcome = applied;
    run = some (contract_of (candidate start created_row plan 200));
  }),
  quiet started,
)
transition_applies_example =
    transition_applies accept (inputs 0 "RTN-1") start created created_row 200 plan
      (contract_of (candidate start created_row plan 200)) moved started start_meets.0 start_meets.1
      start_meets.2 start_meets.3 start_meets.4 start_meets.5 start_meets.6
