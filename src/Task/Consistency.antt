-- ===== src/Task/Consistency.antt =====
-- The invariant of the tables of Tasks and their history, and the two write transactions that keep
-- it.
use factory_ops.Common.{
  Bool, ◌+◌, ◌≡◌, refl, ap, sym, ◌∙◌, some, ◌∷◌, [], List, suc, true, false, arith, =s_iff, any,
  select, update, length, String, ℕ, Option, ◌=s◌,
}
use factory_ops.Session.{ok, parent_run_missing}
use factory_ops.Session.Keeps.{TxKeeps}
use factory_ops.Session.Statements.{bind-ok, guard}
use factory_ops.Database.{Database}
use factory_ops.Versioned
use factory_ops.Versioned.{Schema, IsMove, IsBirth, Apart, same_request, clashes}
use factory_ops.Versioned.Locked.{move-IsConsistent, birth-IsConsistent, any-update, Apart-update}
use factory_ops.Run.Repository.{run_exists}
use factory_ops.Task.Model.{
  TaskStatus, pending, same_status_iff, TaskRow, TaskDependency, TaskTransition,
}
use factory_ops.Task.Rules.{is_legal}
use factory_ops.Task.Constraints.{
  has_task_id, has_task_request, task_keys_free, transition_checks, transition_keys_free,
}
use factory_ops.Task.Repository.{
  check_dependencies, insert_task, insert_dependency, insert_dependencies, insert_transition,
  create_statements, create, TransitionUpdate, is_target, updated_row, update_task,
  apply_transition,
}

abbrev pub schema : Schema TaskStatus TaskRow TaskTransition
schema = record {
  key = λ r. r.task_id;
  status = λ r. r.status;
  revision = λ r. r.revision;
  owner = λ t. t.task_id;
  request = λ t. t.transition_request_id;
  from_status = λ t. t.from_status;
  to_status = λ t. t.to_status;
  from_revision = λ t. t.from_revision;
  to_revision = λ t. t.to_revision;
  legal = is_legal;
  first = pending;
}

abbrev pub same_task_request : TaskRow → TaskRow → Bool
same_task_request r q = has_task_request r.task_request_id q

abbrev pub same_task_key : TaskRow → TaskRow → Bool
same_task_key r q = q.task_key =s r.task_key

pub record IsConsistent (db : Database) : Type 0 where
  pub versioned : Versioned.IsConsistent schema db.tasks db.task_transitions
  pub task_requests : Apart same_task_request db.tasks
  pub task_keys : Apart same_task_key db.tasks

-- The parameters of a transaction record a legal step.
abbrev pub Records : TransitionUpdate → TaskTransition → Type 0
Records u t =
    (t.task_id ≡ u.task_id)
    × (t.from_status ≡ some u.expected_status)
    × (t.from_revision ≡ some u.expected_revision)
    × (t.to_status ≡ u.to_status)
    × (t.to_revision ≡ u.to_revision)
    × (is_legal u.expected_status u.to_status ≡ true)

pub insert_transition-ok :
    (t : TaskTransition) (db db' : Database)
    → insert_transition t db ≡ ok db'
    → (any (has_task_id t.task_id) db.tasks ≡ true)
      × (any (same_request schema t) db.task_transitions ≡ false)
      × (any (clashes schema t) db.task_transitions ≡ false)
      × (transition_checks t ≡ true)
      × (db' ≡ record db { task_transitions = t ∷ db.task_transitions })
unfolding insert_transition transition_keys_free
insert_transition-ok t db db' h = ground arith

pub update_task-ok :
    (u : TransitionUpdate) (db db' : Database)
    → update_task u db ≡ ok db'
    → (length (select (is_target u) db.tasks) ≡ 1)
      × (db' ≡ record db { tasks = update (is_target u) (updated_row u) db.tasks })
unfolding update_task
update_task-ok u db db' h = ground arith

pub insert_task-ok :
    (r : TaskRow) (db db' : Database)
    → insert_task r db ≡ ok db'
    → (any (has_task_id r.task_id) db.tasks ≡ false)
      × (any (same_task_request r) db.tasks ≡ false)
      × (any (same_task_key r) db.tasks ≡ false)
      × (db' ≡ record db { tasks = r ∷ db.tasks })
unfolding insert_task task_keys_free
insert_task-ok r db db' h = ground arith

pub apply_transition-ok :
    (u : TransitionUpdate) (t : TaskTransition) (db : Database)
    → (apply_transition u t db).0 ≡ ok tt
    → (mid : Database) × (update_task u db ≡ ok mid)
      × (insert_transition t mid ≡ ok (apply_transition u t db).1)
unfolding apply_transition
apply_transition-ok u t db h = ground arith

insert_dependency-ok :
    (d : TaskDependency) (db db' : Database)
    → insert_dependency d db ≡ ok db'
    → db' ≡ record db { task_dependencies = d ∷ db.task_dependencies }
unfolding insert_dependency
insert_dependency-ok d db db' h = ground arith

-- What the statements on the dependencies leave alone.
abbrev pub SameTasks : Database → Database → Type 0
SameTasks db db' = (db' ≡ record db { task_dependencies = db'.task_dependencies })

insert_dependencies-SameTasks :
    (task : String) (n : ℕ) (ds : List String) (db db' : Database)
    → insert_dependencies task n ds db ≡ ok db'
    → SameTasks db db'
unfolding insert_dependencies
insert_dependencies-SameTasks task n [] db db' h = let same : db ≡ db' = cc in rw (← same) refl
insert_dependencies-SameTasks task n (d ∷ ds) db db' h =
    let link : TaskDependency = record { task_id = task; dependency_task_id = d; ordinal = n } in
    let (mid, first, rest) =
      bind-ok (insert_dependency link db) (λ next. insert_dependencies task (suc n) ds next) db'
        h in
    insert_dependencies-SameTasks task (suc n) ds mid db' rest
    ∙ ap (λ (m : Database). record m { task_dependencies = db'.task_dependencies })
        (insert_dependency-ok link db mid first)

pub create-ok :
    (r : TaskRow) (ds : List String) (t : TaskTransition) (db : Database)
    → (create r ds t db).0 ≡ ok tt
    → (mid : Database) × (linked : Database) × (insert_task r db ≡ ok mid)
      × SameTasks mid linked
      × (insert_transition t linked ≡ ok (create r ds t db).1)
unfolding create create_statements
create-ok r ds t db h =
    let made = committed h in
    let (u, parent, h1) = bind-ok (guard (run_exists db r.run_id) parent_run_missing) _ _ made in
    let (v, checked, h2) = bind-ok (check_dependencies ds r.run_id db) _ _ h1 in
    let (mid, inserted, h3) = bind-ok (insert_task r db) _ _ h2 in
    let (linked, links, last) = bind-ok (insert_dependencies r.task_id 0 ds mid) _ _ h3 in
    (mid, linked, inserted, insert_dependencies-SameTasks r.task_id 0 ds mid linked links, last)
  where
    committed : (create r ds t db).0 ≡ ok tt → create_statements r ds t db ≡ ok (create r ds t db).1
    committed e = ground arith

-- The CHECK on the revisions of a transition.
step-revision :
    (u : TransitionUpdate) (t : TaskTransition)
    → Records u t
    → transition_checks t ≡ true
    → t.to_revision ≡ u.expected_revision + 1
unfolding transition_checks
step-revision u t m h = ground arith

target-facts :
    (u : TransitionUpdate) (r : TaskRow)
    → is_target u r ≡ true
    → (r.task_id ≡ u.task_id) × (r.status ≡ u.expected_status) × (r.revision ≡ u.expected_revision)
unfolding is_target
target-facts u r h =
    ground (arith, =s_iff r.task_id u.task_id, same_status_iff r.status u.expected_status)

any_id-update :
    (u : TransitionUpdate) (db : Database) (id : String)
    → any (has_task_id id) (update (is_target u) (updated_row u) db.tasks)
      ≡ any (has_task_id id) db.tasks
unfolding updated_row
any_id-update u db id =
    any-update (has_task_id id) (is_target u) (updated_row u) db.tasks (λ r. refl)

module _ (u : TransitionUpdate) (t : TaskTransition) (m : Records u t) where
  Records-IsMove : transition_checks t ≡ true → IsMove schema (is_target u) (updated_row u) t
  unfolding updated_row
  Records-IsMove h = record {
    key = λ r. refl;
    before = λ r hit.
        let (id, status, revision) = target-facts u r hit in
        let step = step-revision u t m h in
        (
          id ∙ sym m.0,
          m.1 ∙ ap {B = Option TaskStatus} some (sym status),
          m.2 ∙ ap {B = Option ℕ} some (sym revision),
          rw (step, revision) refl,
          rw (status, m.3) (m.5),
        );
    after = λ r hit. (sym m.3, sym m.4);
  }

  applied-IsConsistent :
      (db mid db' : Database)
      → IsConsistent db
      → update_task u db ≡ ok mid
      → insert_transition t mid ≡ ok db'
      → IsConsistent db'
  unfolding updated_row
  applied-IsConsistent db mid db' c hu ht =
      let (one, em) = update_task-ok u db mid hu in
      let (exists, request, slot, checked, e) = insert_transition-ok t mid db' ht in
      rw e (
        rw em (record {
          versioned =
              move-IsConsistent schema (is_target u) (updated_row u) t db.task_transitions
                (Records-IsMove checked) db.tasks one
                (ap (λ (d : Database). any (same_request schema t) d.task_transitions) (sym em)
                  ∙ request)
                (ap (λ (d : Database). any (clashes schema t) d.task_transitions) (sym em) ∙ slot)
                (sym (any_id-update u db t.task_id)
                  ∙ ap (λ (d : Database). any (has_task_id t.task_id) d.tasks) (sym em)
                  ∙ exists)
                c.versioned;
          task_requests =
              Apart-update same_task_request (is_target u) (updated_row u) db.tasks (λ r q. refl)
                (λ r q. refl) c.task_requests;
          task_keys =
              Apart-update same_task_key (is_target u) (updated_row u) db.tasks (λ r q. refl)
                (λ r q. refl) c.task_keys;
        }))

  pub apply_transition-IsConsistent : TxKeeps IsConsistent (apply_transition u t)
  apply_transition-IsConsistent = record {
    at = λ db c a e.
        let (mid, hu, ht) = apply_transition-ok u t db e in
        applied-IsConsistent db mid (apply_transition u t db).1 c hu ht;
  }

module _ (r : TaskRow) (ds : List String) (t : TaskTransition) (b : IsBirth schema r t) where
  created-IsConsistent :
      (db mid linked db' : Database)
      → IsConsistent db
      → insert_task r db ≡ ok mid
      → SameTasks mid linked
      → insert_transition t linked ≡ ok db'
      → IsConsistent db'
  created-IsConsistent db mid linked db' c hr same ht =
      let (fresh, request_fresh, key_fresh, em) = insert_task-ok r db mid hr in
      let (exists, request, slot, checked, e) = insert_transition-ok t linked db' ht in
      let steps : linked.task_transitions ≡ db.task_transitions =
        ap (λ (d : Database). d.task_transitions) same
        ∙ ap (λ (d : Database). d.task_transitions) em in
      let rows : linked.tasks ≡ r ∷ db.tasks =
        ap (λ (d : Database). d.tasks) same ∙ ap (λ (d : Database). d.tasks) em in
      rw e (
        rw (rows, steps)
          (record {
            versioned =
                birth-IsConsistent schema r t b db.tasks db.task_transitions fresh
                  (ap (any (same_request schema t)) (sym steps) ∙ request)
                  (ap (any (clashes schema t)) (sym steps) ∙ slot) c.versioned;
            task_requests = (request_fresh, c.task_requests);
            task_keys = (key_fresh, c.task_keys);
          }))

  pub create-IsConsistent : TxKeeps IsConsistent (create r ds t)
  create-IsConsistent = record {
    at = λ db c a e.
        let (mid, linked, hr, same, ht) = create-ok r ds t db e in
        created-IsConsistent db mid linked (create r ds t db).1 c hr same ht;
  }
