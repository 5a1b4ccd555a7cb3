-- ===== src/Coordinator/Finished.antt =====
-- The start of a coordinator for a Run that has ended.
use factory_ops.Common.{
  ◌≡◌, refl, String, none, some, =s_iff, is_start_request, Bool, true, false, arith, present,
}
use factory_ops.Session.{ok, err, persistence_integrity_error, ◌>>=◌, connect, begin, step_at}
use factory_ops.Database.{Database}
use factory_ops.Run.Model.{Instant, RunRow}
use factory_ops.Run.Contract.{
  RunContract, lifecycle_of, contract_of, lifecycle_schema, schema_valid, validate_run,
}
use factory_ops.Run.Contract as Runs
use factory_ops.Run.Rules.{is_terminal}
use factory_ops.Run.Repository.{find_run}
use factory_ops.Run.Quiet.{quiet}
use factory_ops.Run.Service.Calls.{aware}
use factory_ops.Execution.Contract.{Libraries, ExecutionContract, to_contract}
use factory_ops.Coordinator.Model.{StartCoordinatorCommand, StartPayload}
use factory_ops.Coordinator.Repository.{find_receipt, started_run}
use factory_ops.Coordinator.Service.{
  StartInputs, execution_row, receipt_or, validated, with_run, start_coordinator,
}

-- The Contract gives a Run with a terminal status an end.
terminal-ended :
    (matches : String → String → Bool) (run : RunRow) (contract : RunContract)
    → is_terminal run.status ≡ true
    → Runs.to_contract matches run ≡ ok contract
    → present run.ended_at ≡ true
unfolding is_terminal Runs.to_contract validate_run schema_valid lifecycle_schema lifecycle_of
    contract_of
terminal-ended matches run contract terminal h = ground arith

-- A RUNNING candidate with an end breaks the Contract.
ended-invalid :
    (matches : String → String → Bool) (id : String) (at : Instant) (run : RunRow)
    → present run.ended_at ≡ true
    → schema_valid matches (contract_of (started_run id at run)) ≡ false
unfolding schema_valid lifecycle_schema lifecycle_of contract_of started_run
ended-invalid matches id at run h = ground arith

ended-refused :
    (matches : String → String → Bool) (id : String) (at : Instant) (run : RunRow)
    → schema_valid matches (contract_of (started_run id at run)) ≡ false
    → Runs.to_contract matches (started_run id at run)
      ≡ err (persistence_integrity_error "stored Run violates Contract")
unfolding Runs.to_contract validate_run
ended-refused matches id at run h = ground arith

module _ (x : Libraries) (digest : StartPayload → String) where
  validated-ended :
      (inputs : StartInputs) (c : StartCoordinatorCommand) (run : RunRow) (at : Instant)
      (e : ExecutionContract)
      → present run.ended_at ≡ true
      → to_contract x (execution_row x digest c run inputs.execution_id at) ≡ ok e
      → validated x digest inputs c run at
        ≡ err (persistence_integrity_error "stored Run violates Contract")
  unfolding validated
  validated-ended inputs c run at e h valid =
      let refused =
        ended-refused x.matches inputs.execution_id at run
          (ended-invalid x.matches inputs.execution_id at run h) in
      rw (valid, refused) refl

  -- With no other session, a well-formed start with a new request, for a stored Run that has a
  -- terminal status and satisfies its Contract, raises PersistenceIntegrityError with the message
  -- that the stored Run violates its Contract, and changes nothing, when the row of the new
  -- Execution is valid.
  pub ended_run_is_refused :
      (inputs : StartInputs) (c : StartCoordinatorCommand) (run : RunRow) (at : Instant)
      (contract : RunContract) (e : ExecutionContract) (db : Database)
      → c.command_version ≡ "1.0.0"
      → is_start_request c.start_request_id ≡ true
      → find_receipt c.start_request_id db ≡ none
      → find_run c.run_id db ≡ some run
      → is_terminal run.status ≡ true
      → Runs.to_contract x.matches run ≡ ok contract
      → inputs.clock ≡ aware at
      → to_contract x (execution_row x digest c run inputs.execution_id at) ≡ ok e
      → start_coordinator x digest inputs c (quiet db)
        ≡ (err (persistence_integrity_error "stored Run violates Contract"), quiet db)
  unfolding start_coordinator receipt_or with_run ◌>>=◌ connect begin step_at validated
  ended_run_is_refused inputs c run at contract e db version request new found terminal stored clock
        valid =
      let has_end = terminal-ended x.matches run contract terminal stored in
      let supported = (=s_iff c.command_version "1.0.0").1 version in
      rw (supported, request, new, found, clock, validated-ended inputs c run at e has_end valid)
        refl
