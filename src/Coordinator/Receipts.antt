-- ===== src/Coordinator/Receipts.antt =====
-- What a receipt of a start means, under interference: the other sessions may do anything but
-- overwrite stored receipts.
use factory_ops.Common.{
  ◌≡◌, ◌≢◌, refl, ◌∙◌, String, Option, none, some, ◌∷◌, Bool, true, arith, =s_iff, find, not, ◌=s◌,
  is_start_request, pos,
}
use factory_ops.Session.{Exception, World, ok, err, integrity_error, run_not_startable, lift}
use factory_ops.Session.Keeps.{Keeps, IsStable, Guided, Keeps-lift, keeps_rules}
use factory_ops.Session.Ensures.{
  Ensures, Ensures-lift, Ensures-raise, Ensures-if, Ensures-bind, Ensures-attempt, Ensures-connect,
}
use factory_ops.Session.Lookup.{found_or-Ensures}
use factory_ops.Session.Statements.{bind-ok}
use factory_ops.Database.{Database, Action}
use factory_ops.Run.Model.{
  Instant, RunRow, RunTransition, OperationOutcome, applied, concurrency_conflict,
  duplicate_identical,
}
use factory_ops.Run.Repository.{find_run}
use factory_ops.Run.Repository as Runs
use factory_ops.Run.Service.Calls.{duplicate_outcome, get_run}
use factory_ops.Run.Service.Keeps.{get_run-Keeps}
use factory_ops.Execution.Model.{ExecutionRow, ExecutionTransition}
use factory_ops.Execution.Contract.{Libraries, compute_execution_key}
use factory_ops.Execution.Repository.{find_by_key, insert_execution}
use factory_ops.Execution.Repository as Executions
use factory_ops.Execution.Service.Calls.{now}
use factory_ops.Execution.Service.Keeps.{get_execution-Keeps}
use factory_ops.Coordinator.Model.{StartCoordinatorCommand, StartPayload, StartReceipt}
use factory_ops.Coordinator.Repository.{
  find_receipt, update_started, insert_receipt, receipt_keys_free, startable, start_statements,
  start,
}
use factory_ops.Coordinator.Service.{
  StartInputs, StartResult, payload_of, execution_row, execution_history, run_history, receipt_of,
  coordinator_of, maybe_execution, result, from_receipt, receipt_or, conflict_with, after_competing,
  after_start, validated, with_run, start_coordinator,
}

-- Stored receipts are not overwritten.
abbrev pub ExtendsReceipts : Database → Database → Type 0
ExtendsReceipts s s' =
    (id : String) (r : StartReceipt) → find_receipt id s ≡ some r → find_receipt id s' ≡ some r

insert_receipt-ok :
    (r : StartReceipt) (db db' : Database)
    → insert_receipt r db ≡ ok db'
    → (receipt_keys_free r db ≡ true) × (db' ≡ record db { start_receipts = r ∷ db.start_receipts })
unfolding insert_receipt
insert_receipt-ok r db db' h = ground arith

pub start-ok :
    (id : String) (e : ExecutionRow) (eh : ExecutionTransition) (rh : RunTransition)
    (r : StartReceipt) (db : Database)
    → (start id e eh rh r db).0 ≡ ok tt
    → (moved : Database) × (insert_receipt r moved ≡ ok (start id e eh rh r db).1)
unfolding start start_statements
start-ok id e eh rh r db h =
    let made = committed h in
    let (u, checked, h1) = bind-ok (startable id (find_run id db)) _ _ made in
    let (inserted, h2, h3) = bind-ok (insert_execution e db) _ _ h1 in
    let (recorded, h4, h5) = bind-ok (Executions.insert_transition eh inserted) _ _ h3 in
    let (started, h6, h7) =
      bind-ok (update_started id e.execution_id r.created_at recorded) _ _ h5 in
    let (moved, h8, h9) = bind-ok (Runs.insert_transition rh started) _ _ h7 in (moved, h9)
  where
    committed :
        (start id e eh rh r db).0 ≡ ok tt
        → start_statements id e eh rh r db ≡ ok (start id e eh rh r db).1
    committed q = ground arith

insert_receipt-finds :
    (r : StartReceipt) (db db' : Database)
    → insert_receipt r db ≡ ok db'
    → find_receipt r.start_request_id db' ≡ some r
unfolding find_receipt find
insert_receipt-finds r db db' h =
    rw ((insert_receipt-ok r db db' h).1, (=s_iff r.start_request_id r.start_request_id).1 refl)

module _ (x : Libraries) (digest : StartPayload → String) where
  -- A receipt of this very command is stored.
  abbrev pub IsReceived : StartCoordinatorCommand → Database → Type 0
  IsReceived c s =
      (r : StartReceipt) × (find_receipt c.start_request_id s ≡ some r)
      × ((r.payload_sha256 =s digest (payload_of c)) ≡ true)

  IsReceived-stable : (c : StartCoordinatorCommand) → IsStable ExtendsReceipts (IsReceived c)
  IsReceived-stable c s s' g (r, f, m) = (r, g c.start_request_id r f, m)

  start-IsReceived :
      (inputs : StartInputs) (c : StartCoordinatorCommand) (run : RunRow) (at : Instant)
      (s : Database) (a : Unit)
      → (start c.run_id
          (execution_row x digest c run inputs.execution_id at)
          (execution_history inputs at)
          (run_history inputs c at)
          (receipt_of x digest inputs c at)
          s).0
        ≡ ok a
      → IsReceived c
          (start c.run_id
            (execution_row x digest c run inputs.execution_id at)
            (execution_history inputs at)
            (run_history inputs c at)
            (receipt_of x digest inputs c at)
            s).1
  start-IsReceived inputs c run at s a h =
      let (moved, e) =
        start-ok c.run_id (execution_row x digest c run inputs.execution_id at)
          (execution_history inputs at) (run_history inputs c at) (receipt_of x digest inputs c at)
          s h in
      (
        receipt_of x digest inputs c at,
        unfold receipt_of in insert_receipt-finds (receipt_of x digest inputs c at) moved _ e,
        unfold receipt_of in (=s_iff (digest (payload_of c)) (digest (payload_of c))).1 refl,
      )

  maybe_execution-Keeps :
      (P : Database → Type 0) (o : Option String)
      → IsStable ExtendsReceipts P
      → Keeps ExtendsReceipts P (maybe_execution x digest o)
  maybe_execution-Keeps P none stable = search keeps_rules
  maybe_execution-Keeps P (some id) stable = search (keeps_rules, get_execution-Keeps)

  module _ {P : Database → Type 0} (stable : IsStable ExtendsReceipts P)
      {Q : StartResult → Database → Type 0} where
    result-Ensures :
        (o : OperationOutcome) (id : String) (e : Option String)
        → ((r : StartResult) → r.outcome ≡ o → (s : Database) → P s → Q r s)
        → Ensures ExtendsReceipts P Q (result x digest o id e)
    unfolding result
    result-Ensures o id e q =
        Ensures-bind (get_run x.matches id) _ (get_run-Keeps x.matches ExtendsReceipts P stable id)
          λ run.
            Ensures-bind (maybe_execution x digest (coordinator_of x digest e run)) _
              (maybe_execution-Keeps P (coordinator_of x digest e run) stable)
              λ execution.
                Ensures-lift (ok (record { outcome = o; run = run; execution = execution }))
                  (λ r h s p. q r (ground arith) s p)

    receipt_or-Ensures :
        (c : StartCoordinatorCommand) (k : Action StartResult)
        → ((t : StartReceipt) (s0 : Database)
            → P s0
            → find_receipt c.start_request_id s0 ≡ some t
            → (r : StartResult)
            → r.outcome ≡ duplicate_outcome (t.payload_sha256 =s digest (payload_of c))
            → (s : Database) → P s
            → Q r s)
        → ((s0 : Database)
            → P s0
            → find_receipt c.start_request_id s0 ≡ none
            → Ensures ExtendsReceipts P Q k)
        → Ensures ExtendsReceipts P Q (receipt_or x digest c k)
    unfolding receipt_or from_receipt
    receipt_or-Ensures c k found missing =
        found_or-Ensures (find_receipt c.start_request_id) _ k stable
          (λ t s p e.
            result-Ensures (duplicate_outcome (t.payload_sha256 =s digest (payload_of c))) t.run_id
              (some t.execution_id) (found t s p e))
          missing

  retried :
      (inputs : StartInputs) (c : StartCoordinatorCommand)
      → Ensures ExtendsReceipts
          (IsReceived c)
          (λ r _. r.outcome ≡ duplicate_identical)
          (start_coordinator x digest inputs c)
  unfolding start_coordinator
  retried inputs c = Ensures-if (not (c.command_version =s "1.0.0")) _ _ (Ensures-raise _) (
      Ensures-if (not (is_start_request c.start_request_id)) _ _ (Ensures-raise _) (
        receipt_or-Ensures (IsReceived-stable c) c _
          (λ t s (t', f, m) e r o _ _. let same : t ≡ t' = cc in o ∙ rw (same, m) refl)
          (λ s (t, f, m) e. absurd cc)))

  -- The postcondition: APPLIED is reported with the receipt stored.
  abbrev pub HonestStart : StartCoordinatorCommand → StartResult → Database → Type 0
  HonestStart c r s = r.outcome ≡ applied → IsReceived c s

  abbrev Nothing : Database → Type 0
  Nothing _ = Unit {0}

  abbrev Reports : StartCoordinatorCommand → Action StartResult → Type 0
  Reports c = Ensures ExtendsReceipts Nothing (HonestStart c)

  duplicate-not_applied : (b : Bool) (o : OperationOutcome) → o ≡ duplicate_outcome b → o ≢ applied
  duplicate-not_applied b o h = ground arith

  module _ (c : StartCoordinatorCommand) where
    conflict-Reports :
        (id : String) (e : Option String) → Reports c (result x digest concurrency_conflict id e)
    conflict-Reports id e =
        result-Ensures (λ s s' g p. tt) concurrency_conflict id e (λ r o s p a. ground arith)

    receipt_or-Reports :
        (k : Action StartResult) → Reports c k → Reports c (receipt_or x digest c k)
    receipt_or-Reports k h =
        receipt_or-Ensures (λ s s' g p. tt) c k
          (λ t s p e r o s' _ a.
            absurd
              (duplicate-not_applied (t.payload_sha256 =s digest (payload_of c)) r.outcome o a))
          (λ s p e. h)

    after_competing-Reports : Reports c (after_competing x digest c)
    unfolding after_competing
    after_competing-Reports =
        found_or-Ensures (find_by_key (compute_execution_key x c.run_id "coordinator" none (pos 1)))
          (conflict_with x digest c) _ (λ s s' g p. tt)
          (λ e s p h. conflict-Reports c.run_id (some e.execution_id)) (λ s p h. Ensures-raise _)

    made-Reports :
        (inputs : StartInputs)
        → Ensures ExtendsReceipts
            (IsReceived c)
            (HonestStart c)
            (after_start x digest inputs c (ok tt))
    unfolding after_start
    made-Reports inputs =
        result-Ensures (IsReceived-stable c) applied c.run_id (some inputs.execution_id)
          (λ r o s p a. p)

    failed-Reports :
        (inputs : StartInputs) (e : Exception) → Reports c (after_start x digest inputs c (err e))
    unfolding after_start
    failed-Reports inputs (run_not_startable id) =
        receipt_or-Reports _ (conflict-Reports c.run_id none)
    failed-Reports inputs integrity_error = receipt_or-Reports _ after_competing-Reports
    failed-Reports inputs _ = Ensures-raise _

    with_run-Reports :
        (inputs : StartInputs) (run : Option RunRow) → Reports c (with_run x digest inputs c run)
    unfolding with_run
    with_run-Reports inputs none = Ensures-raise _
    with_run-Reports inputs (some run) =
        Ensures-bind (lift (now inputs.clock)) _ (Keeps-lift _) (λ at.
          Ensures-bind (lift (validated x digest inputs c run at)) _ (Keeps-lift _) (λ valid.
            Ensures-attempt ExtendsReceipts Nothing (IsReceived c) (HonestStart c) _
              (λ s s' g p. tt) (λ s _ a e. start-IsReceived inputs c run at s a e)
              (record { at = λ s p a e. tt }) (after_start x digest inputs c)
              (λ a. made-Reports inputs) (failed-Reports inputs)))

    started :
        (inputs : StartInputs)
        → Ensures ExtendsReceipts Nothing (HonestStart c) (start_coordinator x digest inputs c)
    unfolding start_coordinator
    started inputs = Ensures-if (not (c.command_version =s "1.0.0")) _ _ (Ensures-raise _) (
        Ensures-if (not (is_start_request c.start_request_id)) _ _ (Ensures-raise _) (
          receipt_or-Reports _ (
            Ensures-connect (find_run c.run_id) _ (λ s s' g p. tt)
              (λ run s p e. with_run-Reports inputs run))))

  -- A call of `start` that reports APPLIED leaves a receipt of its request stored, with the hash of its
  -- payload, when the other sessions overwrite no stored receipt.
  pub start_coordinator-IsReceived :
      (inputs : StartInputs) (c : StartCoordinatorCommand) (w : World Database) (r : StartResult)
      → Guided ExtendsReceipts w.upcoming
      → (start_coordinator x digest inputs c w).0 ≡ ok r
      → r.outcome ≡ applied
      → IsReceived c (start_coordinator x digest inputs c w).1.store
  start_coordinator-IsReceived inputs c w r g e a =
      (started c inputs).at w (record { now = tt; later = g }) r e a

  -- While a receipt of the command is stored, a call of `start` with the command that returns reports
  -- DUPLICATE_IDENTICAL, when the other sessions overwrite no stored receipt.
  pub retry_start_is_identical :
      (inputs : StartInputs) (c : StartCoordinatorCommand) (w : World Database) (r : StartResult)
      → IsReceived c w.store
      → Guided ExtendsReceipts w.upcoming
      → (start_coordinator x digest inputs c w).0 ≡ ok r
      → r.outcome ≡ duplicate_identical
  retry_start_is_identical inputs c w r h g e =
      (retried inputs c).at w (record { now = h; later = g }) r e
