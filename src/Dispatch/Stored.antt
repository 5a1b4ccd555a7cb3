-- ===== src/Dispatch/Stored.antt =====
-- What the transaction of coordinator_task_dispatch/repository.py stores when it goes through.
use factory_ops.Common.{
  ℕ, suc, ◌≡◌, refl, sym, ap, ◌∙◌, String, Option, some, List, [], ◌∷◌, true, false, =s_iff, any,
  find, arith, All,
}
use factory_ops.Session.{ok, coordinator_execution_rejected}
use factory_ops.Session.Keeps.{TxKeeps}
use factory_ops.Session.Statements.{bind-ok, guard}
use factory_ops.Database.{Database}
use factory_ops.Run.Repository.{run_exists}
use factory_ops.Execution.Model.{ExecutionRow, ExecutionTransition}
use factory_ops.Execution.Repository.{find_execution}
use factory_ops.Execution.Repository as Executions
use factory_ops.Task.Model.{TaskRow, TaskTransition}
use factory_ops.Task.Constraints.{has_task_id}
use factory_ops.Task.Consistency.{insert_task-ok, insert_transition-ok}
use factory_ops.Task.Repository.{insert_task, insert_dependency, dependencies_of, find_by_request}
use factory_ops.Dispatch.Repository.{
  may_dispatch, in_same_run, start_owner, update_waiting, link_dependencies, dispatch_statements,
  dispatch,
}
use factory_ops.Dispatch.Links.{link_to, linked, IsOwned, linked-read, linked-IsOwned, IsOwned-cons}

-- Each dependency belongs to a stored Task: a foreign key of migration 003.
abbrev pub HasOwners : Database → Type 0
HasOwners db = All (IsOwned db.tasks) db.task_dependencies

start_owner-ok :
    (owner : Option ExecutionRow) (id : String) (h : ExecutionTransition) (db db' : Database)
    → start_owner owner id h db ≡ ok db'
    → (db'.tasks ≡ db.tasks) × (db'.task_dependencies ≡ db.task_dependencies)
unfolding start_owner update_waiting Executions.insert_transition
start_owner-ok owner id h db db' e = ground arith

insert_dependency-adds :
    (task : String) (n : ℕ) (d : String) (db db' : Database)
    → insert_dependency (link_to task n d) db ≡ ok db'
    → (db'.tasks ≡ db.tasks) × (db'.task_dependencies ≡ link_to task n d ∷ db.task_dependencies)
unfolding insert_dependency
insert_dependency-adds task n d db db' h = ground arith

link_dependencies-ok :
    (task : TaskRow) (n : ℕ) (ds : List String) (db db' : Database)
    → link_dependencies task n ds db ≡ ok db'
    → (db'.tasks ≡ db.tasks)
      × (db'.task_dependencies ≡ linked task.task_id n ds db.task_dependencies)
unfolding link_dependencies linked
link_dependencies-ok task n [] db db' h = ground arith
link_dependencies-ok task n (d ∷ ds) db db' h =
    let (u, same, h1) =
      bind-ok
        (guard (in_same_run task.run_id (find (has_task_id d) db.tasks))
          (coordinator_execution_rejected "dependency Task must exist in same Run"))
        _ db' h in
    let (mid, first, rest) =
      bind-ok (insert_dependency (link_to task.task_id n d) db)
        (λ next. link_dependencies task (suc n) ds next) db' h1 in
    let (tasks, rows) = insert_dependency-adds task.task_id n d db mid first in
    let (tasks', rows') = link_dependencies-ok task (suc n) ds mid db' rest in
    (tasks' ∙ tasks, rows' ∙ ap (linked task.task_id (suc n) ds) rows)

-- The tables of Tasks that a dispatch leaves.
pub dispatch-ok :
    (task : TaskRow) (ds : List String) (t : TaskTransition) (h : ExecutionTransition)
    (db : Database)
    → (dispatch task ds t h db).0 ≡ ok tt
    → (any (has_task_id task.task_id) db.tasks ≡ false)
      × ((dispatch task ds t h db).1.tasks ≡ task ∷ db.tasks)
      × ((dispatch task ds t h db).1.task_dependencies
          ≡ linked task.task_id 0 ds db.task_dependencies)
unfolding dispatch dispatch_statements
dispatch-ok task ds t h db e =
    let made = committed e in
    let (u, may, h1) =
      bind-ok
        (guard (may_dispatch task (find_execution task.created_by_execution_id db))
          (coordinator_execution_rejected "Coordinator execution must be RUNNING and share Run"))
        _ _ made in
    let (v, parent, h2) =
      bind-ok
        (guard (run_exists db task.run_id)
          (coordinator_execution_rejected "parent Run does not exist"))
        _ _ h1 in
    let (started, hs, h3) =
      bind-ok
        (start_owner (find_execution task.created_by_execution_id db) task.created_by_execution_id h
          db)
        _ _ h2 in
    let (created, hc, h4) = bind-ok (insert_task task started) _ _ h3 in
    let (joined, hl, h5) = bind-ok (link_dependencies task 0 ds created) _ _ h4 in
    let (tasks, rows) =
      start_owner-ok (find_execution task.created_by_execution_id db) task.created_by_execution_id h
        db started hs in
    let (fresh, request, key, inserted) = insert_task-ok task started created hc in
    let (tasks', rows') = link_dependencies-ok task 0 ds created joined hl in
    let last = (insert_transition-ok t joined (dispatch task ds t h db).1 h5).4 in
    (
      ap (any (has_task_id task.task_id)) (sym tasks) ∙ fresh,
      ap (λ (d : Database). d.tasks) last
          ∙ tasks'
          ∙ ap (λ (d : Database). d.tasks) inserted
          ∙ ap (λ rs. task ∷ rs) tasks,
      ap (λ (d : Database). d.task_dependencies) last
          ∙ rows'
          ∙ ap (λ (d : Database). linked task.task_id 0 ds d.task_dependencies) inserted
          ∙ ap (linked task.task_id 0 ds) rows,
    )
  where
    committed :
        (dispatch task ds t h db).0 ≡ ok tt
        → dispatch_statements task ds t h db ≡ ok (dispatch task ds t h db).1
    committed q = ground arith

module _ (task : TaskRow) (ds : List String) (t : TaskTransition) (h : ExecutionTransition) where
  pub dispatch-HasOwners : TxKeeps HasOwners (dispatch task ds t h)
  dispatch-HasOwners = record {
    at = λ db owned a e.
        let (fresh, tasks, rows) = dispatch-ok task ds t h db e in
        rw (tasks, rows)
          (linked-IsOwned task.task_id 0 ds (task ∷ db.tasks) db.task_dependencies (known db)
            (IsOwned-cons task db.tasks db.task_dependencies owned));
  }
    where
      known : (db : Database) → any (has_task_id task.task_id) (task ∷ db.tasks) ≡ true
      known db = unfold any in rw ((=s_iff task.task_id task.task_id).1 refl) refl

  -- The Task is found by its request, with its dependencies in order.
  pub dispatch-find :
      (db : Database)
      → HasOwners db
      → (dispatch task ds t h db).0 ≡ ok tt
      → find_by_request task.task_request_id (dispatch task ds t h db).1
        ≡ some (record { row = task; dependency_task_ids = ds })
  unfolding find_by_request dependencies_of find
  dispatch-find db owned e =
      let (fresh, tasks, rows) = dispatch-ok task ds t h db e in
      rw
        (
          tasks,
          (=s_iff task.task_request_id task.task_request_id).1 refl,
          rows,
          linked-read task.task_id ds db.tasks db.task_dependencies fresh owned,
        )
        refl
