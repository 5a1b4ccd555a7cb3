-- ===== src/Worker/Completion/Admission.antt =====
-- What a completion of a worker implies.
use factory_ops.Common.{
  ◌≡◌, =s_iff, ◌=s◌, same_option, same_option_iff, refl, arith, String, Option, none, some, List,
  [], ◌∷◌, Bool, true, false, any, select, not,
}
use factory_ops.Session.{ok}
use factory_ops.Session.Statements.{bind-ok}
use factory_ops.Database.{Database}
use factory_ops.Run.Model.{Instant, applied}
use factory_ops.Execution.Contract.{Libraries}
use factory_ops.Execution.Model.{ExecutionRow}
use factory_ops.Execution.Model as E
use factory_ops.Execution.Repository.{find_execution}
use factory_ops.Execution.Repository as Executions
use factory_ops.Task.Model.{running, same_status, same_status_iff, TaskRow}
use factory_ops.Task.LeaseTable.{find_lease}
use factory_ops.Task.Repository.{insert_transition}
use factory_ops.Worker.Model.{
  CompleteWorkerExecutionCommand, WorkerExecutionResult, CompletionRequestRow, CompletionIds,
}
use factory_ops.Worker.Repository.{lock_task, holds_lease}
use factory_ops.Worker.Admission.{HoldsLease, holds_lease-HoldsLease}
use factory_ops.Worker.Completion.{completion_history, finished_history}
use factory_ops.Worker.Completion.Transaction.{
  update_finished, update_task_finished, is_consumed, delete_lease, insert_completion,
  is_running_pair, completable, classify_completion, completion_row, write_completion,
  complete_statements, complete_transaction,
}

-- Task and Execution are RUNNING and name each other, in one Run.
abbrev pub RunsWith : CompleteWorkerExecutionCommand → TaskRow → ExecutionRow → Type 0
RunsWith c task e =
    (task.status ≡ running)
    × (task.current_execution_id ≡ some c.execution_id)
    × (e.status ≡ E.running)
    × (e.task_id ≡ some c.task_id)
    × (e.run_id ≡ task.run_id)

-- The Task and the Execution run for each other, and the lease is the caller's beyond the instant.
abbrev pub IsCompletable : CompleteWorkerExecutionCommand → Instant → Database → Type 0
IsCompletable c at db =
    (task : TaskRow) × (e : ExecutionRow) × (lock_task c.task_id db ≡ some task)
    × (find_execution c.execution_id db ≡ some e)
    × RunsWith c task e
    × HoldsLease c.owner_id c.lease_token at (find_lease c.task_id db)

is_running_pair-RunsWith :
    (c : CompleteWorkerExecutionCommand) (task : TaskRow) (e : ExecutionRow)
    → is_running_pair c task e ≡ true
    → RunsWith c task e
unfolding is_running_pair
is_running_pair-RunsWith c task e h =
    let task_runs : same_status task.status running ≡ true = ground arith in
    let current : same_option task.current_execution_id (some c.execution_id) ≡ true =
      ground arith in
    let runs : E.same_status e.status E.running ≡ true = ground arith in
    let owned : same_option e.task_id (some c.task_id) ≡ true = ground arith in
    let one_run : (e.run_id =s task.run_id) ≡ true = ground arith in
    (
      (same_status_iff task.status running).0 task_runs,
      (same_option_iff task.current_execution_id (some c.execution_id)).0 current,
      (E.same_status_iff e.status E.running).0 runs,
      (same_option_iff e.task_id (some c.task_id)).0 owned,
      (=s_iff e.run_id task.run_id).0 one_run,
    )

completable-IsCompletable :
    (c : CompleteWorkerExecutionCommand) (at : Instant) (db : Database) (o : Option TaskRow)
    (p : Option ExecutionRow) (task : TaskRow)
    → completable c at db o p ≡ ok task
    → (e : ExecutionRow) × (o ≡ some task)
      × (p ≡ some e)
      × (is_running_pair c task e ≡ true)
      × (holds_lease c.owner_id c.lease_token at (find_lease c.task_id db) ≡ true)
unfolding completable
completable-IsCompletable c at db none p task h = absurd cc
completable-IsCompletable c at db (some t) none task h = absurd cc
completable-IsCompletable c at db (some t) (some e) task h =
    let same : t ≡ task = ground arith in
    let pair : is_running_pair c t e ≡ true = ground arith in
    let held : holds_lease c.owner_id c.lease_token at (find_lease c.task_id db) ≡ true =
      ground arith in
    (e, cc, refl, cc, held)

select-none : {A : Type 0} (p : A → Bool) (xs : List A) → any p (select (λ y. not (p y)) xs) ≡ false
unfolding any select
select-none p [] = refl
select-none p (y ∷ ys) = let rest = select-none p ys in ground arith

delete_lease-frees :
    (c : CompleteWorkerExecutionCommand) (at : Instant) (db db' : Database)
    → delete_lease c at db ≡ ok db'
    → any (is_consumed c at) db'.leases ≡ false
unfolding delete_lease
delete_lease-frees c at db db' h =
    let made : db' ≡ record db { leases = select (λ l. not (is_consumed c at l)) db.leases } =
      ground arith in
    rw (made) (select-none (is_consumed c at) db.leases)

insert_completion-leases :
    (row : CompletionRequestRow) (db db' : Database)
    → insert_completion row db ≡ ok db'
    → db'.leases ≡ db.leases
unfolding insert_completion
insert_completion-leases row db db' h = ground arith

module _ (x : Libraries) (hash : CompleteWorkerExecutionCommand → String) where
  write_completion-frees :
      (ids : CompletionIds) (c : CompleteWorkerExecutionCommand) (at : Instant) (task : TaskRow)
      (db db' : Database)
      → write_completion x hash ids c at task db ≡ ok db'
      → any (is_consumed c at) db'.leases ≡ false
  unfolding write_completion
  write_completion-frees ids c at task db db' h =
      let (finished, h1, k1) = bind-ok (update_finished c at db) _ _ h in
      let (recorded, h2, k2) =
        bind-ok
          (Executions.insert_transition (completion_history x ids c c.execution_id at) finished) _ _
          k1 in
      let (moved, h3, k3) = bind-ok (update_task_finished c at recorded) _ _ k2 in
      let (told, h4, k4) =
        bind-ok (insert_transition (finished_history ids c task at) moved) _ _ k3 in
      let (freed, h5, k5) = bind-ok (delete_lease c at told) _ _ k4 in
      rw (insert_completion-leases (completion_row x hash c at) freed db' k5)
        (delete_lease-frees c at told freed h5)

  fresh-ok :
      (ids : CompletionIds) (c : CompleteWorkerExecutionCommand) (at : Instant) (db : Database)
      (r : WorkerExecutionResult)
      → (complete_transaction x hash ids c at db).0 ≡ ok r
      → r.outcome ≡ applied
      → complete_statements x hash ids c at db ≡ ok (complete_transaction x hash ids c at db).1
  unfolding complete_transaction classify_completion
  fresh-ok ids c at db r h a = ground arith

  -- When the transaction of `complete` reports APPLIED, the Task and the Execution were RUNNING for
  -- each other, the lease of the Task was the caller's and ends after the clock of the call, and no
  -- lease of the caller on the Task with this token that ends after that clock is left.
  pub complete_transaction-IsCompletable :
      (ids : CompletionIds) (c : CompleteWorkerExecutionCommand) (at : Instant) (db : Database)
      (r : WorkerExecutionResult)
      → (complete_transaction x hash ids c at db).0 ≡ ok r
      → r.outcome ≡ applied
      → IsCompletable c at db
        × (any (is_consumed c at) (complete_transaction x hash ids c at db).1.leases ≡ false)
  complete_transaction-IsCompletable ids c at db r h a =
      let (task, checked, written) =
        bind-ok (completable c at db (lock_task c.task_id db) (find_execution c.execution_id db)) _
          _ (fresh-ok ids c at db r h a) in
      let (e, found, stored, pair, held) =
        completable-IsCompletable c at db (lock_task c.task_id db)
          (find_execution c.execution_id db) task checked in
      (
        (
          task,
          e,
          found,
          stored,
          is_running_pair-RunsWith c task e pair,
          holds_lease-HoldsLease c.owner_id c.lease_token at (find_lease c.task_id db) held,
        ),
        write_completion-frees ids c at task db _ written,
      )
