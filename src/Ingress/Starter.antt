-- ===== src/Ingress/Starter.antt =====
-- event_ingress/run_starter.py.
use factory_ops.Common.{String, Option, none, some, Bool, ◌=s◌, not, if◌then◌else◌}
use factory_ops.Session.{
  Result, ok, err, run_creation_rejected, persistence_integrity_error, run_start_integrity_error,
  lift, attempt, ◌>>=◌,
}
use factory_ops.Database.{Action}
use factory_ops.Ingress.RuntimeConfig.{AgentRuntimeConfig, to_provenance}
use factory_ops.Ingress.Model.{DecodedEvent, RunStartOutcome, created, already_started}
use factory_ops.Run.Model.{
  OperationOutcome, applied, duplicate_identical, duplicate_conflicting, concurrency_conflict,
  OriginalRunCommand,
}
use factory_ops.Run.Contract.{RunContract}
use factory_ops.Run.Service.{create_original_run}
use factory_ops.Run.Service.Calls.{Inputs, RunOperationResult}

pub record RunStartResult : Type 0 where
  pub outcome : RunStartOutcome
  pub run_id : String

-- `_identity`, of a contract that `_to_contract` built: its sections and texts are there.
unfoldable pub identity : Option RunContract → Result (String × String)
identity none = err (run_start_integrity_error "persisted Run Contract is missing")
identity (some run) = ok (run.identity.run_id, run.provenance.incident_id)

unfoldable pub start_outcome : OperationOutcome → Result RunStartOutcome
start_outcome applied = ok created
start_outcome duplicate_identical = ok already_started
start_outcome duplicate_conflicting = ok already_started
start_outcome concurrency_conflict =
    err (run_start_integrity_error "unexpected original Run outcome")

unfoldable pub with_run_id : String → Result RunStartOutcome → Result RunStartResult
with_run_id run_id (ok outcome) = ok (record { outcome = outcome; run_id = run_id })
with_run_id run_id (err e) = err e

unfoldable pub checked_start :
    DecodedEvent → OperationOutcome → Result (String × String) → Result RunStartResult
checked_start event outcome (err e) = err e
checked_start event outcome (ok (run_id, incident_id)) =
    if not (incident_id =s event.incident_id)
    then err
        (run_start_integrity_error "persisted Run Incident does not match the trusted Inbox event")
    else with_run_id run_id (start_outcome outcome)

-- After `create_original_run`: its handler, or the checks of its result.
unfoldable pub after_creation : DecodedEvent → Result RunOperationResult → Result RunStartResult
after_creation event (err (persistence_integrity_error m)) = err (run_start_integrity_error m)
after_creation event (err (run_creation_rejected m)) = err (run_start_integrity_error m)
after_creation event (err e) = err e
after_creation event (ok result) = checked_start event result.outcome (identity result.run)

abbrev pub original_command : AgentRuntimeConfig → DecodedEvent → OriginalRunCommand
original_command config event = record {
  trigger_event_id = event.event_id;
  provenance = to_provenance config event.incident_id;
}

module _ (matches : String → String → Bool) where
  unfoldable pub ensure_original_run :
      AgentRuntimeConfig → Inputs → DecodedEvent → Action RunStartResult
  ensure_original_run config inputs event = do
    result ← attempt (create_original_run matches inputs (original_command config event))
    lift (after_creation event result)
