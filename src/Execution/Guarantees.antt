-- ===== src/Execution/Guarantees.antt =====
-- What a client of execution_lifecycle/service.py may rely on, whatever the other sessions do
-- between its transactions and wherever a connection is lost.
use factory_ops.Common.{
  ◌≡◌, ◌≢◌, ◌∙◌, ap, sym, refl, String, some, List, [], ◌∷◌, Bool, true, false, arith, ◌=s◌, =s_iff,
  find, any, Bool-cases, inl, inr, ◌&&◌,
}
use mathlib.Core.Bool.{false≢true}
use factory_ops.Session.{ok, World}
use factory_ops.Session.Keeps.{Guided, TxKeeps}
use factory_ops.Database.{Database}
use factory_ops.Versioned.{IsBirth}
use factory_ops.Run.Model.{applied, duplicate_identical, duplicate_conflicting}
use factory_ops.Execution.Model.{
  TransitionCommand, ExecutionRow, ExecutionTransition, ExecutionFailure,
}
use factory_ops.Execution.Contract.{Libraries}
use factory_ops.Execution.Repository.{
  find_transition, insert_transition, create, apply, ExecutionUpdate,
}
use factory_ops.Execution.Constraints.{has_request}
use factory_ops.Execution.Consistency.{
  schema, Records, insert_transition-ok, update_execution-ok, insert_execution-ok, apply-ok,
  create-ok,
}
use factory_ops.Execution.Service.{Inputs, OperationResult, transition_execution}
use factory_ops.Execution.Service.Applied.{Extends, IsStored, IsStored-stable, texts_kept, retry}
use factory_ops.Execution.Service.Stores.{applied_stores}

-- A call of `transition_execution` that reports APPLIED leaves a transition stored with the request
-- and the Execution of its command, which matches the command exactly if the JSON columns return the
-- texts of its result and its failure as they were printed, when the other sessions overwrite no
-- stored transition.
pub applied_execution-IsStored :
    (x : Libraries) (inputs : Inputs) (c : TransitionCommand) (w : World Database)
    (r : OperationResult)
    → Guided Extends w.upcoming
    → (transition_execution x inputs c w).0 ≡ ok r
    → r.outcome ≡ applied
    → IsStored x c (transition_execution x inputs c w).1.store
applied_execution-IsStored x inputs c w r g e a =
    (applied_stores x inputs c).at w (record { now = tt; later = g }) r e a

classified :
    (x : Libraries) (inputs : Inputs) (c : TransitionCommand) (w : World Database)
    (r : OperationResult)
    → IsStored x c w.store
    → Guided Extends w.upcoming
    → (transition_execution x inputs c w).0 ≡ ok r
    → ((texts_kept x c ≡ true → r.outcome ≡ duplicate_identical)
        × (texts_kept x c ≡ false → r.outcome ≡ duplicate_conflicting))
classified x inputs c w r h g e =
    let o = (retry x inputs c).at w (record { now = h; later = g }) r e in
    (λ k. o ∙ rw k refl, λ k. o ∙ rw k refl)

-- After a call has reported APPLIED, a later call with the same command that returns reports
-- DUPLICATE_IDENTICAL when the JSON columns return the texts of its result and its failure as they
-- were printed, and DUPLICATE_CONFLICTING when they do not. The other sessions overwrite no stored
-- transition, during the calls and between them.
pub applied_retry_is_classified :
    (x : Libraries) (inputs inputs' : Inputs) (c : TransitionCommand) (w v : World Database)
    (r q : OperationResult)
    → Guided Extends w.upcoming
    → (transition_execution x inputs c w).0 ≡ ok r
    → r.outcome ≡ applied
    → Extends (transition_execution x inputs c w).1.store v.store
    → Guided Extends v.upcoming
    → (transition_execution x inputs' c v).0 ≡ ok q
    → ((texts_kept x c ≡ true → q.outcome ≡ duplicate_identical)
        × (texts_kept x c ≡ false → q.outcome ≡ duplicate_conflicting))
applied_retry_is_classified x inputs inputs' c w v r q gw er ar lasts gv eq =
    classified x inputs' c v q
      (IsStored-stable x c (transition_execution x inputs c w).1.store v.store lasts
        (applied_execution-IsStored x inputs c w r gw er ar))
      gv eq

-- After a call to FAILED has reported APPLIED, a later call with the same command that returns
-- reports DUPLICATE_CONFLICTING, if the JSON column returns the text of its failure in another form
-- than it was printed, such as with its keys in another order. The other sessions overwrite no
-- stored transition, during the calls and between them.
pub reordered_failure_conflicts :
    (x : Libraries) (inputs inputs' : Inputs) (c : TransitionCommand) (f : ExecutionFailure)
    (w v : World Database) (r q : OperationResult)
    → c.failure ≡ some f
    → x.json_column (x.failure_text f) ≢ x.failure_text f
    → Guided Extends w.upcoming
    → (transition_execution x inputs c w).0 ≡ ok r
    → r.outcome ≡ applied
    → Extends (transition_execution x inputs c w).1.store v.store
    → Guided Extends v.upcoming
    → (transition_execution x inputs' c v).0 ≡ ok q
    → q.outcome ≡ duplicate_conflicting
reordered_failure_conflicts x inputs inputs' c f w v r q hf changed gw er ar lasts gv eq =
    (applied_retry_is_classified x inputs inputs' c w v r q gw er ar lasts gv eq).1
      (unfold texts_kept in rw (hf, differs) (and-false _))
  where
    and-false : (b : Bool) → (b && false) ≡ false
    and-false b = ground arith

    differs : (x.json_column (x.failure_text f) =s x.failure_text f) ≡ false
    differs = ground (arith, =s_iff (x.json_column (x.failure_text f)) (x.failure_text f))

abbrev pub KeepsTransition : String → ExecutionTransition → Database → Type 0
KeepsTransition id t s = find_transition id s ≡ some t

find-any :
    (id : String) (ts : List ExecutionTransition) (t : ExecutionTransition)
    → find (has_request id) ts ≡ some t
    → any (has_request id) ts ≡ true
unfolding find any
find-any id [] t h = cc
find-any id (q ∷ qs) t h = ground (arith, find-any id qs t)

-- A new transition has a request of its own.
insert-KeepsTransition :
    (id : String) (t new : ExecutionTransition) (db db' : Database)
    → KeepsTransition id t db
    → insert_transition new db ≡ ok db'
    → KeepsTransition id t db'
unfolding find_transition find
insert-KeepsTransition id t new db db' h e =
    let (exists, request, slot, checked, made) = insert_transition-ok new db db' e in
    rw (made) (elim (Bool-cases (new.transition_request_id =s id)) [
      | inl same ↦ absurd (
          false≢true (
            sym request
            ∙ ap (λ i. any (has_request i) db.execution_transitions)
                ((=s_iff new.transition_request_id id).0 same)
            ∙ find-any id db.execution_transitions t h))
      | inr other ↦ rw other h
    ])

module _ (id : String) (t : ExecutionTransition) where
  pub apply-KeepsTransition :
      (u : ExecutionUpdate) (new : ExecutionTransition)
      → Records u new
      → TxKeeps (KeepsTransition id t) (apply u new)
  apply-KeepsTransition u new m = record {
    at = λ db h a e.
        let (mid, hu, ht) = apply-ok u new db e in
        let still : mid.execution_transitions ≡ db.execution_transitions =
          ap (λ (d : Database). d.execution_transitions) (update_execution-ok u db mid hu).1 in
        insert-KeepsTransition id t new mid (apply u new db).1
          (unfold find_transition in rw (still) h) ht;
  }

  pub create-KeepsTransition :
      (r : ExecutionRow) (new : ExecutionTransition)
      → IsBirth schema r new
      → TxKeeps (KeepsTransition id t) (create r new)
  create-KeepsTransition r new b = record {
    at = λ db h a e.
        let (mid, hr, ht) = create-ok r new db e in
        let still : mid.execution_transitions ≡ db.execution_transitions =
          ap (λ (d : Database). d.execution_transitions) (insert_execution-ok r db mid hr).2 in
        insert-KeepsTransition id t new mid (create r new db).1
          (unfold find_transition in rw (still) h) ht;
  }
