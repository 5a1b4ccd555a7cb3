-- ===== src/Run/Service/Calls.antt =====
-- What the operations of run_lifecycle/service.py share: results, rendering, reads.
use factory_ops.Common.{String, Option, none, some, Bool, if◌then◌else◌}
use factory_ops.Session.{Result, ok, err, value_error, lift, connect, ◌>>=◌}
use factory_ops.Database.{Action}
use factory_ops.Run.Model.{
  Instant, OperationOutcome, duplicate_identical, duplicate_conflicting, RunRow,
}
use factory_ops.Run.Contract.{RunContract, to_contract}
use factory_ops.Run.Repository.{find_run}

-- What `datetime` the clock returns: with or without a time zone.
pub data ClockReading : Type 0 where
  aware naive : Instant → ClockReading

-- `_now`
abbrev pub now : ClockReading → Result Instant
now (aware t) = ok t
now (naive t) = err (value_error "clock must return a timezone-aware UTC datetime")

-- The values of `_clock`, `_run_id_factory`, `_transition_id_factory` and
-- `_transition_request_id_factory` in one call.
pub record Inputs : Type 0 where
  pub clock : ClockReading
  pub run_id : String
  pub transition_id : String
  pub transition_request_id : String

-- `RunOperationResult` and `TransitionOperationResult`
pub record RunOperationResult : Type 0 where
  pub outcome : OperationOutcome
  pub run : Option RunContract

abbrev pub duplicate_outcome : Bool → OperationOutcome
duplicate_outcome same = if same then duplicate_identical else duplicate_conflicting

abbrev pub with_outcome : OperationOutcome → Result RunContract → Result RunOperationResult
with_outcome o (ok c) = ok (record { outcome = o; run = some c })
with_outcome o (err e) = err e

module _ (matches : String → String → Bool) where
  abbrev pub render : Option RunRow → Result (Option RunContract)
  render none = ok none
  render (some row) = optional (to_contract matches row)
    where
      optional : Result RunContract → Result (Option RunContract)
      optional (ok c) = ok (some c)
      optional (err e) = err e

  unfoldable pub get_run : String → Action (Option RunContract)
  get_run run_id = do row ← connect (find_run run_id); lift (render row)

  unfoldable pub outcome_with_run : OperationOutcome → String → Action RunOperationResult
  outcome_with_run o run_id = do run ← get_run run_id; lift (ok (record { outcome = o; run = run }))
