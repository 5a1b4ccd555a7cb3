-- ===== src/Task/Order.antt =====
-- The dependencies of task_lifecycle/repository.py have no cycle: each points to a Task that was
-- stored before.
use factory_ops.Common.{
  ℕ, suc, ◌≡◌, refl, sym, ap, ◌∙◌, String, List, [], ◌∷◌, Bool, true, false, ◌&&◌, if◌then◌else◌,
  ◌=s◌, =s_iff, any, find, arith, All, All-map, Bool-cases, inl, inr,
}
use mathlib.Core.Bool.{false≢true}
use mathlib.Core.Path.{subst}
use factory_ops.Run.Repository.{run_exists}
use factory_ops.Session.{parent_run_missing, Result, ok, err}
use factory_ops.Session.Statements.{◌>>◌, guard, commit, bind-ok}
use factory_ops.Database.{Database}
use factory_ops.Task.Model.{TaskRow, TaskDependency, TaskTransition}
use factory_ops.Task.Constraints.{has_task_id, task_keys_free}
use factory_ops.Task.Repository.{
  same_run, check_dependencies, insert_task, insert_dependency, insert_dependencies,
  insert_transition, create_statements, create,
}

-- A Task of this Run stands in the rows.
abbrev pub in_run : String → String → TaskRow → Bool
in_run run_id task_id row = row.task_id =s task_id && row.run_id =s run_id

-- The newest row of the first Task has a row of the second one, of the same Run, behind it.
unfoldable pub is_older : String → String → List TaskRow → Bool
is_older task dependency [] = false
is_older task dependency (row ∷ rows) =
    let rest = is_older task dependency rows in
    if row.task_id =s task then any (in_run row.run_id dependency) rows else rest

abbrev pub IsOrdered : Database → Type 0
IsOrdered db =
    All (λ d. is_older d.task_id d.dependency_task_id db.tasks ≡ true) db.task_dependencies

older_known :
    (task dependency : String) (rows : List TaskRow)
    → is_older task dependency rows ≡ true
    → any (has_task_id task) rows ≡ true
unfolding is_older any
older_known task dependency [] h = h
older_known task dependency (row ∷ rows) h = ground (arith, older_known task dependency rows)

-- A new Task leaves the order of the old ones.
older-cons :
    (new : TaskRow) (task dependency : String) (rows : List TaskRow)
    → any (has_task_id new.task_id) rows ≡ false
    → is_older task dependency rows ≡ true
    → is_older task dependency (new ∷ rows) ≡ true
unfolding is_older
older-cons new task dependency rows fresh h = elim (Bool-cases (new.task_id =s task)) [
  | inl same ↦ absurd (
      false≢true (
        sym fresh
        ∙ ap (λ id. any (has_task_id id) rows) ((=s_iff new.task_id task).0 same)
        ∙ older_known task dependency rows h))
  | inr other ↦ rw other h
]

found_in_run :
    (run_id dependency : String) (rows : List TaskRow)
    → same_run dependency run_id (find (has_task_id dependency) rows) ≡ ok tt
    → any (in_run run_id dependency) rows ≡ true
unfolding find any
found_in_run run_id dependency [] h = cc
found_in_run run_id dependency (row ∷ rows) h = ground (arith, found_in_run run_id dependency rows)

-- The dependencies that passed the checks.
checked_in_run :
    (dependencies : List String) (run_id : String) (db : Database)
    → check_dependencies dependencies run_id db ≡ ok tt
    → All (λ d. any (in_run run_id d) db.tasks ≡ true) dependencies
unfolding check_dependencies
checked_in_run [] run_id db h = tt
checked_in_run (d ∷ ds) run_id db h =
    let (here, there) =
      both (same_run d run_id (find (has_task_id d) db.tasks)) (check_dependencies ds run_id db)
        h in
    (found_in_run run_id d db.tasks here, checked_in_run ds run_id db there)
  where
    both : (m k : Result (Unit {0})) → (m >> k) ≡ ok tt → (m ≡ ok tt) × (k ≡ ok tt)
    both m k e = ground arith

insert_dependency-ok :
    (d : TaskDependency) (db db' : Database)
    → insert_dependency d db ≡ ok db'
    → db' ≡ record db { task_dependencies = d ∷ db.task_dependencies }
unfolding insert_dependency
insert_dependency-ok d db db' h = ground arith

-- Linking a Task to Tasks that are older.
insert_dependencies-IsOrdered :
    (task : String) (n : ℕ) (ds : List String) (db db' : Database)
    → insert_dependencies task n ds db ≡ ok db'
    → All (λ d. is_older task d db.tasks ≡ true) ds
    → IsOrdered db
    → IsOrdered db'
unfolding insert_dependencies
insert_dependencies-IsOrdered task n [] db db' h older o =
    let same : db ≡ db' = cc in subst IsOrdered same o
insert_dependencies-IsOrdered task n (d ∷ ds) db db' h older o =
    let link : TaskDependency = record { task_id = task; dependency_task_id = d; ordinal = n } in
    let (mid, first, rest) =
      bind-ok (insert_dependency link db) (λ next. insert_dependencies task (suc n) ds next) db'
        h in
    let made = insert_dependency-ok link db mid first in
    insert_dependencies-IsOrdered task (suc n) ds mid db' rest
      (subst (λ (x : Database). All (λ y. is_older task y x.tasks ≡ true) ds) (sym made) older.1)
      (subst IsOrdered (sym made) (older.0, o))

insert_task-ok :
    (r : TaskRow) (db db' : Database)
    → insert_task r db ≡ ok db'
    → (any (has_task_id r.task_id) db.tasks ≡ false) × (db' ≡ record db { tasks = r ∷ db.tasks })
unfolding insert_task task_keys_free
insert_task-ok r db db' h = ground arith

insert_transition-ok :
    (t : TaskTransition) (db db' : Database)
    → insert_transition t db ≡ ok db'
    → db' ≡ record db { task_transitions = t ∷ db.task_transitions }
unfolding insert_transition
insert_transition-ok t db db' h = ground arith

-- A new Task has the Tasks of its Run behind it.
new-older :
    (r : TaskRow) (d : String) (rows : List TaskRow)
    → any (in_run r.run_id d) rows ≡ true
    → is_older r.task_id d (r ∷ rows) ≡ true
unfolding is_older
new-older r d rows h = rw ((=s_iff r.task_id r.task_id).1 refl) h

create_statements-IsOrdered :
    (task : TaskRow) (ds : List String) (t : TaskTransition) (db db' : Database)
    → create_statements task ds t db ≡ ok db'
    → IsOrdered db
    → IsOrdered db'
unfolding create_statements
create_statements-IsOrdered task ds t db db' h o =
    let (u, parent, h1) = bind-ok (guard (run_exists db task.run_id) parent_run_missing) _ db' h in
    let (v, checked, h2) = bind-ok (check_dependencies ds task.run_id db) _ db' h1 in
    let (created, inserted, h3) = bind-ok (insert_task task db) _ db' h2 in
    let (linked, links, last) = bind-ok (insert_dependencies task.task_id 0 ds created) _ db' h3 in
    let (fresh, made) = insert_task-ok task db created inserted in
    let older =
      All-map (λ d. any (in_run task.run_id d) db.tasks ≡ true)
        (λ d. is_older task.task_id d (task ∷ db.tasks) ≡ true)
        (λ d behind. new-older task d db.tasks behind) ds
        (checked_in_run ds task.run_id db checked) in
    let kept =
      All-map (λ (d : TaskDependency). is_older d.task_id d.dependency_task_id db.tasks ≡ true)
        (λ (d : TaskDependency). is_older d.task_id d.dependency_task_id (task ∷ db.tasks) ≡ true)
        (λ d before. older-cons task d.task_id d.dependency_task_id db.tasks fresh before)
        db.task_dependencies o in
    subst IsOrdered (sym (insert_transition-ok t linked db' last)) (
      insert_dependencies-IsOrdered task.task_id 0 ds created linked links
        (subst (λ (x : Database). All (λ d. is_older task.task_id d x.tasks ≡ true) ds) (sym made)
          older)
        (subst IsOrdered (sym made) kept))

-- The creation of a Task that goes through keeps each dependency pointing to a Task of the same Run
-- that was stored before, so that the dependencies have no cycle.
pub create-IsOrdered :
    (task : TaskRow) (dependencies : List String) (t : TaskTransition) (db : Database)
    → (create task dependencies t db).0 ≡ ok tt
    → IsOrdered db
    → IsOrdered (create task dependencies t db).1
unfolding create
create-IsOrdered task ds t db h o = committed (create_statements task ds t db) refl h
  where
    committed :
        (r : Result Database)
        → create_statements task ds t db ≡ r
        → (commit db r).0 ≡ ok tt
        → IsOrdered (commit db r).1
    committed (ok db') e h = create_statements-IsOrdered task ds t db db' e o
    committed (err x) e h = o
