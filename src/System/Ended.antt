-- ===== src/System/Ended.antt =====
-- Tasks and Executions that have ended, under the calls of the three lifecycle services: no transition
-- leaves a terminal status.
use factory_ops.Common.{
  ◌≡◌, refl, ap, ◌∙◌, String, some, List, ◌∷◌, true, false, arith, find, update,
}
use factory_ops.Session.{World, Tx, ok}
use factory_ops.Session.Keeps.{Guided, TxKeeps}
use factory_ops.Database.{Database}
use factory_ops.Versioned.Lookup.{find-update, find-insert}
use factory_ops.Run.Repository as R
use factory_ops.Execution.Model.{ExecutionRow, ExecutionTransition}
use factory_ops.Execution.Model as EM
use factory_ops.Execution.Rules as EX
use factory_ops.Execution.Contract.{Libraries}
use factory_ops.Execution.Constraints.{has_execution_id}
use factory_ops.Execution.Repository.{find_execution}
use factory_ops.Execution.Repository as ER
use factory_ops.Execution.Consistency as EC
use factory_ops.Task.Model.{TaskRow, TaskTransition}
use factory_ops.Task.Model as TM
use factory_ops.Task.Rules as TX
use factory_ops.Task.Constraints.{has_task_id}
use factory_ops.Task.Repository as TR
use factory_ops.Task.Consistency as TC
use factory_ops.System.Frame.{
  SameExecutions, SameTasks, apply_run-Leaves, create_run-Leaves, apply_execution-Leaves,
  create_execution-Leaves, apply_task-Leaves, create_task-Leaves,
}
use factory_ops.System.Serve.{Request, serve, serve-Keeps}

-- The row of a Task, and that of an Execution, has ended.
abbrev EndedTask : String → TaskRow → Database → Type 0
EndedTask id row s = (find (has_task_id id) s.tasks ≡ some row) × (TX.is_terminal row.status ≡ true)

abbrev EndedExecution : String → ExecutionRow → Database → Type 0
EndedExecution id row s = (find_execution id s ≡ some row) × (EX.is_terminal row.status ≡ true)

-- Other sessions leave such rows.
abbrev pub LeavesTasks : Database → Database → Type 0
LeavesTasks s s' =
    (id : String) (row : TaskRow)
    → find (has_task_id id) s.tasks ≡ some row
    → TX.is_terminal row.status ≡ true
    → find (has_task_id id) s'.tasks ≡ some row

abbrev pub LeavesExecutions : Database → Database → Type 0
LeavesExecutions s s' =
    (id : String) (row : ExecutionRow)
    → find_execution id s ≡ some row
    → EX.is_terminal row.status ≡ true
    → find_execution id s' ≡ some row

task_source : (a b : TM.TaskStatus) → TX.is_legal a b ≡ true → TX.is_terminal a ≡ false
unfolding TX.is_legal TX.is_terminal
task_source a b h = ground arith

execution_source : (a b : EM.ExecutionStatus) → EX.is_legal a b ≡ true → EX.is_terminal a ≡ false
unfolding EX.is_legal EX.is_terminal
execution_source a b h = ground arith

task_missed :
    (u : TR.TransitionUpdate) (row : TaskRow)
    → TX.is_legal u.expected_status u.to_status ≡ true
    → TX.is_terminal row.status ≡ true
    → TR.is_target u row ≡ false
unfolding TR.is_target
task_missed u row legal ended = ground (
  arith,
  TM.same_status_iff row.status u.expected_status,
  task_source u.expected_status u.to_status legal,
)

execution_missed :
    (u : ER.ExecutionUpdate) (row : ExecutionRow)
    → EX.is_legal u.expected_status u.to_status ≡ true
    → EX.is_terminal row.status ≡ true
    → ER.is_target u row ≡ false
unfolding ER.is_target
execution_missed u row legal ended = ground (
  arith,
  EM.same_status_iff row.status u.expected_status,
  execution_source u.expected_status u.to_status legal,
)

module _ (id : String) (row : TaskRow) where
  -- A transaction that leaves the table.
  leaves-EndedTask :
      (body : Tx Database (Unit {0}))
      → ((s : Database) → (body s).0 ≡ ok tt → SameTasks s (body s).1)
      → TxKeeps (EndedTask id row) body
  leaves-EndedTask body same = record {
    at = λ s (f, ended) a e. (ap (find (has_task_id id)) (same s e).0 ∙ f, ended);
  }

  apply_task-EndedTask :
      (u : TR.TransitionUpdate) (t : TaskTransition)
      → TC.Records u t
      → TxKeeps (EndedTask id row) (TR.apply_transition u t)
  unfolding TR.updated_row
  apply_task-EndedTask u t m = record {
    at = λ s (f, ended) a e.
        let (mid, hu, ht) = TC.apply_transition-ok u t s e in
        let rows : (TR.apply_transition u t s).1.tasks
            ≡ update (TR.is_target u) (TR.updated_row u) s.tasks =
          ap (λ (d : Database). d.tasks) (TC.insert_transition-ok t mid _ ht).4
          ∙ ap (λ (d : Database). d.tasks) (TC.update_task-ok u s mid hu).1 in
        let missed = task_missed u row m.5 ended in
        (
          ap (find (has_task_id id)) rows
              ∙ find-update (has_task_id id) (TR.is_target u) (TR.updated_row u) s.tasks row
                  (λ r. refl) missed f,
          ended,
        );
  }

  create_task-EndedTask :
      (r : TaskRow) (ds : List String) (t : TaskTransition)
      → TxKeeps (EndedTask id row) (TR.create r ds t)
  create_task-EndedTask r ds t = record {
    at = λ s (f, ended) a e.
        let (mid, linked, hr, same, ht) = TC.create-ok r ds t s e in
        let (fresh, request, key, made) = TC.insert_task-ok r s mid hr in
        let rows : (TR.create r ds t s).1.tasks ≡ r ∷ s.tasks =
          ap (λ (d : Database). d.tasks) (TC.insert_transition-ok t linked _ ht).4
          ∙ ap (λ (d : Database). d.tasks) same
          ∙ ap (λ (d : Database). d.tasks) made in
        (
          ap (find (has_task_id id)) rows
              ∙ find-insert (λ (x : TaskRow). x.task_id) id r row s.tasks fresh f,
          ended,
        );
  }

module _ (id : String) (row : ExecutionRow) where
  -- A transaction that leaves the table.
  leaves-EndedExecution :
      (body : Tx Database (Unit {0}))
      → ((s : Database) → (body s).0 ≡ ok tt → SameExecutions s (body s).1)
      → TxKeeps (EndedExecution id row) body
  unfolding find_execution
  leaves-EndedExecution body same = record {
    at = λ s (f, ended) a e. (ap (find (has_execution_id id)) (same s e).0 ∙ f, ended);
  }

  apply_execution-EndedExecution :
      (u : ER.ExecutionUpdate) (t : ExecutionTransition)
      → EC.Records u t
      → TxKeeps (EndedExecution id row) (ER.apply u t)
  unfolding find_execution ER.updated_row
  apply_execution-EndedExecution u t m = record {
    at = λ s (f, ended) a e.
        let (mid, hu, ht) = EC.apply-ok u t s e in
        let rows : (ER.apply u t s).1.executions
            ≡ update (ER.is_target u) (ER.updated_row u) s.executions =
          ap (λ (d : Database). d.executions) (EC.insert_transition-ok t mid _ ht).4
          ∙ ap (λ (d : Database). d.executions) (EC.update_execution-ok u s mid hu).1 in
        let missed = execution_missed u row m.5 ended in
        (
          ap (find (has_execution_id id)) rows
              ∙ find-update (has_execution_id id) (ER.is_target u) (ER.updated_row u) s.executions
                  row (λ r. refl) missed f,
          ended,
        );
  }

  create_execution-EndedExecution :
      (r : ExecutionRow) (t : ExecutionTransition) → TxKeeps (EndedExecution id row) (ER.create r t)
  unfolding find_execution
  create_execution-EndedExecution r t = record {
    at = λ s (f, ended) a e.
        let (mid, hr, ht) = EC.create-ok r t s e in
        let (fresh, key, made) = EC.insert_execution-ok r s mid hr in
        let rows : (ER.create r t s).1.executions ≡ r ∷ s.executions =
          ap (λ (d : Database). d.executions) (EC.insert_transition-ok t mid _ ht).4
          ∙ ap (λ (d : Database). d.executions) made in
        (
          ap (find (has_execution_id id)) rows
              ∙ find-insert (λ (x : ExecutionRow). x.execution_id) id r row s.executions fresh f,
          ended,
        );
  }

-- Any sequence of calls of the three lifecycle services leaves the row of a Task with a terminal
-- status as it is, while the other sessions leave the rows of such Tasks.
pub serve_keeps_ended_task :
    (x : Libraries) (requests : List Request) (w : World Database) (id : String) (row : TaskRow)
    → find (has_task_id id) w.store.tasks ≡ some row
    → TX.is_terminal row.status ≡ true
    → Guided LeavesTasks w.upcoming
    → find (has_task_id id) (serve x requests w).1.store.tasks ≡ some row
serve_keeps_ended_task x requests w id row f ended g =
    let k =
      serve-Keeps x LeavesTasks (EndedTask id row) (λ s s' r p. (r id row p.0 p.1, p.1))
        (λ u t m.
          leaves-EndedTask id row (R.apply_transition u t) (λ s e. (apply_run-Leaves u t s e).1))
        (λ r t b.
          leaves-EndedTask id row (R.insert_run_with_initial_transition r t)
            (λ s e. (create_run-Leaves r t b s e).1))
        (λ u t m.
          leaves-EndedTask id row (ER.apply u t) (λ s e. (apply_execution-Leaves u t s e).1))
        (λ r t b.
          leaves-EndedTask id row (ER.create r t) (λ s e. (create_execution-Leaves r t s e).1))
        (apply_task-EndedTask id row) (λ r ds t b. create_task-EndedTask id row r ds t) requests in
    (k.at w (record { now = (f, ended); later = g })).now.0

-- Any sequence of calls of the three lifecycle services leaves the row of an Execution with a
-- terminal status as it is, its result and its failure included, while the other sessions leave the
-- rows of such Executions.
pub serve_keeps_ended_execution :
    (x : Libraries) (requests : List Request) (w : World Database) (id : String)
    (row : ExecutionRow)
    → find_execution id w.store ≡ some row
    → EX.is_terminal row.status ≡ true
    → Guided LeavesExecutions w.upcoming
    → find_execution id (serve x requests w).1.store ≡ some row
serve_keeps_ended_execution x requests w id row f ended g =
    let k =
      serve-Keeps x LeavesExecutions (EndedExecution id row) (λ s s' r p. (r id row p.0 p.1, p.1))
        (λ u t m.
          leaves-EndedExecution id row (R.apply_transition u t)
            (λ s e. (apply_run-Leaves u t s e).0))
        (λ r t b.
          leaves-EndedExecution id row (R.insert_run_with_initial_transition r t)
            (λ s e. (create_run-Leaves r t b s e).0))
        (apply_execution-EndedExecution id row)
        (λ r t b. create_execution-EndedExecution id row r t)
        (λ u t m.
          leaves-EndedExecution id row (TR.apply_transition u t)
            (λ s e. (apply_task-Leaves u t s e).1))
        (λ r ds t b.
          leaves-EndedExecution id row (TR.create r ds t)
            (λ s e. (create_task-Leaves r ds t s e).1))
        requests in
    (k.at w (record { now = (f, ended); later = g })).now.0
