-- ===== src/Task/Guarantees.antt =====
-- What a client of task_lifecycle/service.py may rely on, whatever the other sessions do between its
-- transactions and wherever a connection is lost.
use factory_ops.Common.{
  ◌≡◌, ◌∙◌, ap, sym, String, some, List, [], ◌∷◌, Bool, true, arith, ◌=s◌, =s_iff, find, any,
  Bool-cases, inl, inr,
}
use mathlib.Core.Bool.{false≢true}
use factory_ops.Session.{ok, World}
use factory_ops.Session.Keeps.{Guided, TxKeeps}
use factory_ops.Database.{Database}
use factory_ops.Versioned.{IsBirth}
use factory_ops.Run.Model.{applied, duplicate_identical}
use factory_ops.Task.Model.{TransitionCommand, TaskRow, TaskTransition}
use factory_ops.Task.Repository.{
  find_transition, insert_transition, create, apply_transition, TransitionUpdate,
}
use factory_ops.Task.Constraints.{has_request}
use factory_ops.Task.Consistency.{
  schema, Records, insert_transition-ok, update_task-ok, insert_task-ok, apply_transition-ok,
  create-ok,
}
use factory_ops.Task.Service.{Inputs, OperationResult, transition_task}
use factory_ops.Task.Service.Applied.{Extends, IsStored, retry}
use factory_ops.Task.Service.Stores.{applied_stores}

-- A call of `transition_task` that reports APPLIED leaves a transition stored that matches its
-- command, when the other sessions overwrite no stored transition.
pub applied_task-IsStored :
    (matches : String → String → Bool) (sha256 : String → String) (inputs : Inputs)
    (c : TransitionCommand) (w : World Database) (r : OperationResult)
    → Guided Extends w.upcoming
    → (transition_task matches sha256 inputs c w).0 ≡ ok r
    → r.outcome ≡ applied
    → IsStored c (transition_task matches sha256 inputs c w).1.store
applied_task-IsStored matches sha256 inputs c w r g e a =
    (applied_stores matches sha256 inputs c).at w (record { now = tt; later = g }) r e a

-- While the transition of a command is stored, a call with the command that returns reports
-- DUPLICATE_IDENTICAL, when the other sessions overwrite no stored transition.
pub retry_task_is_identical :
    (matches : String → String → Bool) (sha256 : String → String) (inputs : Inputs)
    (c : TransitionCommand) (w : World Database) (r : OperationResult)
    → IsStored c w.store
    → Guided Extends w.upcoming
    → (transition_task matches sha256 inputs c w).0 ≡ ok r
    → r.outcome ≡ duplicate_identical
retry_task_is_identical matches sha256 inputs c w r h g e =
    (retry matches sha256 inputs c).at w (record { now = h; later = g }) r e

abbrev pub KeepsTransition : String → TaskTransition → Database → Type 0
KeepsTransition id t s = find_transition id s ≡ some t

find-any :
    (id : String) (ts : List TaskTransition) (t : TaskTransition)
    → find (has_request id) ts ≡ some t
    → any (has_request id) ts ≡ true
unfolding find any
find-any id [] t h = cc
find-any id (q ∷ qs) t h = ground (arith, find-any id qs t)

-- A new transition has a request of its own.
insert-KeepsTransition :
    (id : String) (t new : TaskTransition) (db db' : Database)
    → KeepsTransition id t db
    → insert_transition new db ≡ ok db'
    → KeepsTransition id t db'
unfolding find_transition find
insert-KeepsTransition id t new db db' h e =
    let (exists, request, slot, checked, made) = insert_transition-ok new db db' e in
    rw (made) (elim (Bool-cases (new.transition_request_id =s id)) [
      | inl same ↦ absurd (
          false≢true (
            sym request
            ∙ ap (λ i. any (has_request i) db.task_transitions)
                ((=s_iff new.transition_request_id id).0 same)
            ∙ find-any id db.task_transitions t h))
      | inr other ↦ rw other h
    ])

module _ (id : String) (t : TaskTransition) where
  pub apply_transition-KeepsTransition :
      (u : TransitionUpdate) (new : TaskTransition)
      → Records u new
      → TxKeeps (KeepsTransition id t) (apply_transition u new)
  apply_transition-KeepsTransition u new m = record {
    at = λ db h a e.
        let (mid, hu, ht) = apply_transition-ok u new db e in
        let still : mid.task_transitions ≡ db.task_transitions =
          ap (λ (d : Database). d.task_transitions) (update_task-ok u db mid hu).1 in
        insert-KeepsTransition id t new mid (apply_transition u new db).1
          (unfold find_transition in rw (still) h) ht;
  }

  pub create-KeepsTransition :
      (r : TaskRow) (ds : List String) (new : TaskTransition)
      → IsBirth schema r new
      → TxKeeps (KeepsTransition id t) (create r ds new)
  create-KeepsTransition r ds new b = record {
    at = λ db h a e.
        let (mid, linked, hr, same, ht) = create-ok r ds new db e in
        let still : linked.task_transitions ≡ db.task_transitions =
          ap (λ (d : Database). d.task_transitions) same
          ∙ ap (λ (d : Database). d.task_transitions) (insert_task-ok r db mid hr).3 in
        insert-KeepsTransition id t new linked (create r ds new db).1
          (unfold find_transition in rw (still) h) ht;
  }
