-- ===== src/Execution/Consistency.antt =====
-- The invariant of the two tables of Executions, and the two write transactions that keep it.
use factory_ops.Common.{
  Bool, ◌+◌, ◌≡◌, refl, ap, sym, ◌∙◌, some, ◌∷◌, true, false, arith, =s_iff, any, select, update,
  length, String, ℕ, Option,
}
use factory_ops.Session.{ok}
use factory_ops.Session.Keeps.{TxKeeps}
use factory_ops.Database.{Database}
use factory_ops.Versioned
use factory_ops.Versioned.{Schema, IsMove, IsBirth, Apart, same_request, clashes}
use factory_ops.Versioned.Locked.{move-IsConsistent, birth-IsConsistent, any-update, Apart-update}
use factory_ops.Execution.Model.{
  ExecutionStatus, pending, same_status_iff, ExecutionRow, ExecutionTransition,
}
use factory_ops.Execution.Rules.{is_legal}
use factory_ops.Execution.Constraints.{
  has_execution_id, execution_exists, execution_keys_free, transition_checks, transition_keys_free,
  has_key,
}
use factory_ops.Execution.Repository.{
  insert_execution, insert_transition, create_statements, create, ExecutionUpdate, is_target,
  updated_row, update_execution, apply_statements, apply,
}

abbrev pub schema : Schema ExecutionStatus ExecutionRow ExecutionTransition
schema = record {
  key = λ r. r.execution_id;
  status = λ r. r.status;
  revision = λ r. r.revision;
  owner = λ t. t.execution_id;
  request = λ t. t.transition_request_id;
  from_status = λ t. t.from_status;
  to_status = λ t. t.to_status;
  from_revision = λ t. t.from_revision;
  to_revision = λ t. t.to_revision;
  legal = is_legal;
  first = pending;
}

abbrev pub same_execution_key : ExecutionRow → ExecutionRow → Bool
same_execution_key r q = has_key r.execution_key q

pub record IsConsistent (db : Database) : Type 0 where
  pub versioned : Versioned.IsConsistent schema db.executions db.execution_transitions
  pub execution_keys : Apart same_execution_key db.executions

-- The parameters of a transaction record a legal step.
abbrev pub Records : ExecutionUpdate → ExecutionTransition → Type 0
Records u t =
    (t.execution_id ≡ u.execution_id)
    × (t.from_status ≡ some u.expected_status)
    × (t.from_revision ≡ some u.expected_revision)
    × (t.to_status ≡ u.to_status)
    × (t.to_revision ≡ u.to_revision)
    × (is_legal u.expected_status u.to_status ≡ true)

pub insert_transition-ok :
    (t : ExecutionTransition) (db db' : Database)
    → insert_transition t db ≡ ok db'
    → (execution_exists db t.execution_id ≡ true)
      × (any (same_request schema t) db.execution_transitions ≡ false)
      × (any (clashes schema t) db.execution_transitions ≡ false)
      × (transition_checks t ≡ true)
      × (db' ≡ record db { execution_transitions = t ∷ db.execution_transitions })
unfolding insert_transition transition_keys_free
insert_transition-ok t db db' h = ground arith

pub update_execution-ok :
    (u : ExecutionUpdate) (db db' : Database)
    → update_execution u db ≡ ok db'
    → (length (select (is_target u) db.executions) ≡ 1)
      × (db' ≡ record db { executions = update (is_target u) (updated_row u) db.executions })
unfolding update_execution
update_execution-ok u db db' h = ground arith

pub insert_execution-ok :
    (r : ExecutionRow) (db db' : Database)
    → insert_execution r db ≡ ok db'
    → (execution_exists db r.execution_id ≡ false)
      × (any (same_execution_key r) db.executions ≡ false)
      × (db' ≡ record db { executions = r ∷ db.executions })
unfolding insert_execution execution_keys_free
insert_execution-ok r db db' h = ground arith

pub apply-ok :
    (u : ExecutionUpdate) (t : ExecutionTransition) (db : Database)
    → (apply u t db).0 ≡ ok tt
    → (mid : Database) × (update_execution u db ≡ ok mid)
      × (insert_transition t mid ≡ ok (apply u t db).1)
unfolding apply apply_statements
apply-ok u t db h = ground arith

pub create-ok :
    (r : ExecutionRow) (t : ExecutionTransition) (db : Database)
    → (create r t db).0 ≡ ok tt
    → (mid : Database) × (insert_execution r db ≡ ok mid)
      × (insert_transition t mid ≡ ok (create r t db).1)
unfolding create create_statements
create-ok r t db h = ground arith

-- The CHECK on the revisions of a transition.
step-revision :
    (u : ExecutionUpdate) (t : ExecutionTransition)
    → Records u t
    → transition_checks t ≡ true
    → t.to_revision ≡ u.expected_revision + 1
unfolding transition_checks
step-revision u t m h = ground arith

target-facts :
    (u : ExecutionUpdate) (r : ExecutionRow)
    → is_target u r ≡ true
    → (r.execution_id ≡ u.execution_id)
      × (r.status ≡ u.expected_status)
      × (r.revision ≡ u.expected_revision)
unfolding is_target
target-facts u r h =
    ground (arith, =s_iff r.execution_id u.execution_id, same_status_iff r.status u.expected_status)

any_id-update :
    (u : ExecutionUpdate) (db : Database) (id : String)
    → any (has_execution_id id) (update (is_target u) (updated_row u) db.executions)
      ≡ execution_exists db id
unfolding updated_row
any_id-update u db id =
    any-update (has_execution_id id) (is_target u) (updated_row u) db.executions (λ r. refl)

module _ (u : ExecutionUpdate) (t : ExecutionTransition) (m : Records u t) where
  Records-IsMove : transition_checks t ≡ true → IsMove schema (is_target u) (updated_row u) t
  unfolding updated_row
  Records-IsMove h = record {
    key = λ r. refl;
    before = λ r hit.
        let (id, status, revision) = target-facts u r hit in
        let step = step-revision u t m h in
        (
          id ∙ sym m.0,
          m.1 ∙ ap {B = Option ExecutionStatus} some (sym status),
          m.2 ∙ ap {B = Option ℕ} some (sym revision),
          rw (step, revision) refl,
          rw (status, m.3) (m.5),
        );
    after = λ r hit. (sym m.3, sym m.4);
  }

  applied-IsConsistent :
      (db mid db' : Database)
      → IsConsistent db
      → update_execution u db ≡ ok mid
      → insert_transition t mid ≡ ok db'
      → IsConsistent db'
  unfolding updated_row
  applied-IsConsistent db mid db' c hu ht =
      let (one, em) = update_execution-ok u db mid hu in
      let (exists, request, slot, checked, e) = insert_transition-ok t mid db' ht in
      rw e (
        rw em (record {
          versioned =
              move-IsConsistent schema (is_target u) (updated_row u) t db.execution_transitions
                (Records-IsMove checked) db.executions one
                (ap (λ (d : Database). any (same_request schema t) d.execution_transitions) (sym em)
                  ∙ request)
                (ap (λ (d : Database). any (clashes schema t) d.execution_transitions) (sym em)
                  ∙ slot)
                (sym (any_id-update u db t.execution_id)
                  ∙ ap (λ (d : Database). execution_exists d t.execution_id) (sym em)
                  ∙ exists)
                c.versioned;
          execution_keys =
              Apart-update same_execution_key (is_target u) (updated_row u) db.executions
                (λ r q. refl) (λ r q. refl) c.execution_keys;
        }))

  pub apply-IsConsistent : TxKeeps IsConsistent (apply u t)
  apply-IsConsistent = record {
    at = λ db c a e.
        let (mid, hu, ht) = apply-ok u t db e in
        applied-IsConsistent db mid (apply u t db).1 c hu ht;
  }

module _ (r : ExecutionRow) (t : ExecutionTransition) (b : IsBirth schema r t) where
  inserted-IsConsistent :
      (db mid db' : Database)
      → IsConsistent db
      → insert_execution r db ≡ ok mid
      → insert_transition t mid ≡ ok db'
      → IsConsistent db'
  inserted-IsConsistent db mid db' c hr ht =
      let (fresh, key, em) = insert_execution-ok r db mid hr in
      let (exists, request, slot, checked, e) = insert_transition-ok t mid db' ht in
      rw e (
        rw em (record {
          versioned =
              birth-IsConsistent schema r t b db.executions db.execution_transitions fresh
                (ap (λ (d : Database). any (same_request schema t) d.execution_transitions) (sym em)
                  ∙ request)
                (ap (λ (d : Database). any (clashes schema t) d.execution_transitions) (sym em)
                  ∙ slot)
                c.versioned;
          execution_keys = (key, c.execution_keys);
        }))

  pub create-IsConsistent : TxKeeps IsConsistent (create r t)
  create-IsConsistent = record {
    at = λ db c a e.
        let (mid, hr, ht) = create-ok r t db e in
        inserted-IsConsistent db mid (create r t db).1 c hr ht;
  }
