-- ===== src/Coordinator/Repository.antt =====
-- coordinator_start/repository.py: the transaction that starts a coordinator, with the constraints of
-- migration 005 on its receipts.
use factory_ops.Common.{
  String, Option, none, some, ◌∷◌, Bool, ◌&&◌, not, ◌==◌, ◌=s◌, any, find, select, update, length,
  absent,
}
use factory_ops.Session.{
  Result, ok, err, integrity_error, operational_error, run_missing, run_not_startable,
}
use factory_ops.Session.Statements.{◌>>=◌, ◌>>◌, guard, statements}
use factory_ops.Database.{Database, Tx}
use factory_ops.Run.Model.{Instant, pending, running, same_status, RunRow, RunTransition}
use factory_ops.Run.Repository.{find_run, run_exists, run_checks, insert_transition}
use factory_ops.Execution.Model.{ExecutionRow, ExecutionTransition}
use factory_ops.Execution.Constraints.{execution_exists}
use factory_ops.Execution.Repository.{insert_execution}
use factory_ops.Execution.Repository as Executions
use factory_ops.Coordinator.Model.{StartReceipt}

abbrev pub has_start_request : String → StartReceipt → Bool
has_start_request id receipt = receipt.start_request_id =s id

-- `find_receipt`
unfoldable pub find_receipt : String → Database → Option StartReceipt
find_receipt request_id db = find (has_start_request request_id) db.start_receipts

-- A Run that has not started yet.
unfoldable pub is_startable : RunRow → Bool
is_startable run =
    same_status run.status pending
    && run.revision == 0
    && absent run.coordinator_execution_id
    && run.agent_execution_count == 0

-- The SET clause, for the coordinator's execution at this instant.
unfoldable pub started_run : String → Instant → RunRow → RunRow
started_run execution_id at run = record run {
  status = running;
  revision = 1;
  updated_at = at;
  started_at = some at;
  status_reason_code = some "COORDINATOR_STARTED";
  status_reason_message = some "Coordinator execution started";
  coordinator_execution_id = some execution_id;
  agent_execution_count = 1;
}

-- The WHERE clause.
unfoldable pub is_start_target : String → RunRow → Bool
unfolding is_startable
is_start_target run_id run = run.run_id =s run_id && is_startable run

unfoldable pub update_started : String → String → Instant → Database → Result Database
update_started run_id execution_id at db = do
  guard
      (not (
        any (λ r. is_start_target run_id r && not (run_checks (started_run execution_id at r)))
          db.runs))
      operational_error
  guard (execution_exists db execution_id) integrity_error
  guard (length (select (is_start_target run_id) db.runs) == 1) (run_not_startable run_id)
  ok (record db { runs = update (is_start_target run_id) (started_run execution_id at) db.runs })

-- The primary and unique keys.
unfoldable pub receipt_keys_free : StartReceipt → Database → Bool
receipt_keys_free receipt db =
    not (any (has_start_request receipt.start_request_id) db.start_receipts)
    && not (any (λ r. r.run_id =s receipt.run_id) db.start_receipts)
    && not (any (λ r. r.execution_id =s receipt.execution_id) db.start_receipts)

unfoldable pub insert_receipt : StartReceipt → Database → Result Database
insert_receipt receipt db = do
  guard (receipt_keys_free receipt db) integrity_error
  guard (run_exists db receipt.run_id && execution_exists db receipt.execution_id) integrity_error
  ok (record db { start_receipts = receipt ∷ db.start_receipts })

-- The tests of the locked Run.
abbrev pub startable : String → Option RunRow → Result (Unit {0})
startable run_id none = err (run_missing run_id)
startable run_id (some run) = guard (is_startable run) (run_not_startable run_id)

unfoldable pub start_statements :
    String
    → ExecutionRow
    → ExecutionTransition
    → RunTransition
    → StartReceipt
    → Database
    → Result Database
start_statements run_id execution execution_history run_history receipt db = do
  startable run_id (find_run run_id db)
  inserted ← insert_execution execution db
  recorded ← Executions.insert_transition execution_history inserted
  started ← update_started run_id execution.execution_id receipt.created_at recorded
  moved ← insert_transition run_history started
  insert_receipt receipt moved

-- `start`
unfoldable pub start :
    String → ExecutionRow → ExecutionTransition → RunTransition → StartReceipt → Tx (Unit {0})
start run_id execution execution_history run_history receipt =
    statements (start_statements run_id execution execution_history run_history receipt)
