-- ===== src/Worker/Admission.antt =====
-- What a started Execution of a worker implies, and what its retry returns.
use factory_ops.Common.{
  ◌≡◌, refl, ◌<◌, ◌=s◌, ◌&&◌, not, All, All-none, ◌∙◌, arith, ◌+◌, String, Option, none, some, ◌∷◌,
  true, false, =s_iff, find,
}
use factory_ops.Session.{ok}
use factory_ops.Session.Statements.{bind-ok}
use factory_ops.Database.{Database}
use factory_ops.Run.Model.{Instant, applied, duplicate_identical}
use factory_ops.Execution.Contract.{Libraries}
use factory_ops.Execution.Repository.{insert_execution}
use factory_ops.Execution.Repository as Executions
use factory_ops.Task.Model.{
  pending, succeeded, same_status, same_status_iff, TaskRow, TaskDependency, LeaseRow,
}
use factory_ops.Task.LeaseTable.{find_lease}
use factory_ops.Task.Repository.{insert_transition}
use factory_ops.Worker.Model.{
  StartWorkerExecutionCommand, WorkerExecutionResult, StartRequestRow, StartIds,
}
use factory_ops.Worker.Repository.{
  find_start_request, lock_task, holds_lease, has_open_dependency, is_open, insert_start_request,
  running_execution, created_history, started_history, update_started, task_history,
}
use factory_ops.Worker.Transaction.{
  admitted, key_of, classify_request, request_row, write_start, start_statements, applied_result,
  start_transaction,
}

-- The lease is there, the caller's, and ends after the instant.
abbrev pub HoldsLease : String → String → Instant → Option LeaseRow → Type 0
HoldsLease owner_id token at o =
    (l : LeaseRow) × (o ≡ some l)
    × (l.owner_id ≡ owner_id)
    × (l.lease_token ≡ token)
    × (at < l.expires_at)

-- Each stored Task that this one depends on has succeeded.
abbrev pub DependenciesSucceeded : String → Database → Type 0
DependenciesSucceeded task_id db =
    All
      (λ (d : TaskDependency).
        d.task_id ≡ task_id
        → All (λ (t : TaskRow). t.task_id ≡ d.dependency_task_id → t.status ≡ succeeded) db.tasks)
      db.task_dependencies

-- The Task waits at revision 0, its lease is the caller's beyond the instant, and what it depends on
-- has succeeded.
abbrev pub IsAdmitted : StartWorkerExecutionCommand → Instant → Database → Type 0
IsAdmitted c at db =
    (task : TaskRow) × (lock_task c.task_id db ≡ some task)
    × (task.status ≡ pending)
    × (task.revision ≡ 0)
    × HoldsLease c.owner_id c.lease_token at (find_lease c.task_id db)
    × DependenciesSucceeded c.task_id db

pub holds_lease-HoldsLease :
    (owner_id token : String) (at : Instant) (o : Option LeaseRow)
    → holds_lease owner_id token at o ≡ true
    → HoldsLease owner_id token at o
unfolding holds_lease
holds_lease-HoldsLease owner_id token at none h = absurd cc
holds_lease-HoldsLease owner_id token at (some l) h =
    let owner : (l.owner_id =s owner_id) ≡ true = ground arith in
    let held : (l.lease_token =s token) ≡ true = ground arith in
    let later : at < l.expires_at = ground arith in
    (l, refl, (=s_iff l.owner_id owner_id).0 owner, (=s_iff l.lease_token token).0 held, later)

closed-succeeded :
    (d : TaskDependency) (t : TaskRow)
    → (t.task_id =s d.dependency_task_id && not (same_status t.status succeeded)) ≡ false
    → t.task_id ≡ d.dependency_task_id
    → t.status ≡ succeeded
closed-succeeded d t h e =
    let same : (t.task_id =s d.dependency_task_id) ≡ true =
      (=s_iff t.task_id d.dependency_task_id).1 e in
    let done : same_status t.status succeeded ≡ true = ground arith in
    (same_status_iff t.status succeeded).0 done

has_open_dependency-DependenciesSucceeded :
    (task_id : String) (db : Database)
    → has_open_dependency task_id db ≡ false
    → DependenciesSucceeded task_id db
unfolding has_open_dependency
has_open_dependency-DependenciesSucceeded task_id db h =
    All-none (λ (d : TaskDependency). d.task_id =s task_id && is_open db d) _
      (λ d closed e. All-none _ _ (closed-succeeded d) db.tasks (no_open d closed e))
      db.task_dependencies h
  where
    no_open :
        (d : TaskDependency)
        → (d.task_id =s task_id && is_open db d) ≡ false
        → d.task_id ≡ task_id
        → is_open db d ≡ false
    no_open d closed e =
        let same : (d.task_id =s task_id) ≡ true = (=s_iff d.task_id task_id).1 e in ground arith

admitted-IsAdmitted :
    (c : StartWorkerExecutionCommand) (at : Instant) (db : Database) (o : Option TaskRow)
    (task : TaskRow)
    → admitted c at db o ≡ ok task
    → (o ≡ some task)
      × (task.status ≡ pending)
      × (task.revision ≡ 0)
      × (holds_lease c.owner_id c.lease_token at (find_lease c.task_id db) ≡ true)
      × (has_open_dependency c.task_id db ≡ false)
unfolding admitted
admitted-IsAdmitted c at db none task h = cc
admitted-IsAdmitted c at db (some t) task h = ground arith

insert_start_request-finds :
    (row : StartRequestRow) (db db' : Database)
    → insert_start_request row db ≡ ok db'
    → find_start_request row.request_id db' ≡ some row
unfolding insert_start_request find_start_request find
insert_start_request-finds row db db' h =
    let made : db' ≡ record db { worker_starts = row ∷ db.worker_starts } = ground arith in
    rw (made, (=s_iff row.request_id row.request_id).1 refl)

module _ (x : Libraries) (hash : StartWorkerExecutionCommand → String) where
  write_start-finds :
      (ids : StartIds) (c : StartWorkerExecutionCommand) (at : Instant) (task : TaskRow)
      (db db' : Database)
      → write_start x hash ids c at task db ≡ ok db'
      → find_start_request c.request_id db' ≡ some (request_row x hash ids c at)
  unfolding write_start request_row
  write_start-finds ids c at task db db' h =
      let (inserted, h1, k1) =
        bind-ok
          (insert_execution (running_execution c ids.execution_id (key_of x hash c task) task at)
            db)
          _ _ h in
      let (created, h2, k2) =
        bind-ok (Executions.insert_transition (created_history ids at) inserted) _ _ k1 in
      let (running, h3, k3) =
        bind-ok (Executions.insert_transition (started_history ids c.owner_id at) created) _ _ k2 in
      let (started, h4, k4) =
        bind-ok (update_started task.task_id ids.execution_id (task.attempt_count + 1) at running) _
          _ k3 in
      let (moved, h5, k5) =
        bind-ok
          (insert_transition (task_history ids task.task_id (task.attempt_count + 1) c.owner_id at)
            started)
          _ _ k4 in
      insert_start_request-finds (request_row x hash ids c at) moved db' k5

  fresh-ok :
      (ids : StartIds) (c : StartWorkerExecutionCommand) (at : Instant) (db : Database)
      (r : WorkerExecutionResult)
      → (start_transaction x hash ids c at db).0 ≡ ok r
      → r.outcome ≡ applied
      → (r ≡ applied_result x hash ids c)
        × (start_statements x hash ids c at db ≡ ok (start_transaction x hash ids c at db).1)
  unfolding start_transaction classify_request
  fresh-ok ids c at db r h a = ground arith

  -- When the transaction of `start` reports APPLIED, the Task was PENDING at revision 0, its lease was
  -- the caller's and ends after the clock of the call, and no dependency of it was other than
  -- SUCCEEDED.
  pub start_transaction-IsAdmitted :
      (ids : StartIds) (c : StartWorkerExecutionCommand) (at : Instant) (db : Database)
      (r : WorkerExecutionResult)
      → (start_transaction x hash ids c at db).0 ≡ ok r
      → r.outcome ≡ applied
      → IsAdmitted c at db
  start_transaction-IsAdmitted ids c at db r h a =
      let (same, made) = fresh-ok ids c at db r h a in
      let (task, checked, written) = bind-ok (admitted c at db (lock_task c.task_id db)) _ _ made in
      let (found, waits, zero, held, closed) =
        admitted-IsAdmitted c at db (lock_task c.task_id db) task checked in
      (
        task,
        found,
        waits,
        zero,
        holds_lease-HoldsLease c.owner_id c.lease_token at (find_lease c.task_id db) held,
        has_open_dependency-DependenciesSucceeded c.task_id db closed,
      )

  replayed :
      (ids ids' : StartIds) (c : StartWorkerExecutionCommand) (at at' : Instant) (s : Database)
      → find_start_request c.request_id s ≡ some (request_row x hash ids c at)
      → start_transaction x hash ids' c at' s
        ≡ (ok (record (applied_result x hash ids c) { outcome = duplicate_identical }), s)
  unfolding start_transaction classify_request request_row
  replayed ids ids' c at at' s found = rw (found, (=s_iff (hash c) (hash c)).1 refl) refl

  -- After the transaction of `start` has reported APPLIED, the transaction of the same command, at any
  -- later clock and with any identifiers, reports DUPLICATE_IDENTICAL with the Task and the Execution
  -- of the first, and changes nothing.
  pub start_transaction-replays :
      (ids ids' : StartIds) (c : StartWorkerExecutionCommand) (at at' : Instant) (db : Database)
      (r : WorkerExecutionResult)
      → (start_transaction x hash ids c at db).0 ≡ ok r
      → r.outcome ≡ applied
      → start_transaction x hash ids' c at' (start_transaction x hash ids c at db).1 ≡ (
        ok (record r { outcome = duplicate_identical }),
        (start_transaction x hash ids c at db).1,
      )
  start_transaction-replays ids ids' c at at' db r h a =
      let (same, made) = fresh-ok ids c at db r h a in
      let (task, checked, written) = bind-ok (admitted c at db (lock_task c.task_id db)) _ _ made in
      let found = write_start-finds ids c at task db _ written in
      replayed ids ids' c at at' (start_transaction x hash ids c at db).1 found ∙ rw same refl
