-- ===== src/Run/Guarantees.antt =====
-- What a client of run_lifecycle/service.py may rely on, whatever the other sessions do between
-- its transactions and wherever a connection is lost.
use factory_ops.Common.{
  ◌≡◌, sym, ap, ◌∙◌, String, some, List, [], ◌∷◌, Bool, true, arith, ◌=s◌, =s_iff, find, any,
  Bool-cases, inl, inr,
}
use mathlib.Core.Bool.{false≢true}
use factory_ops.Session.{Result, ok, World, attempt, pure, ◌>>=◌}
use factory_ops.Session.Keeps.{
  Guided, Keeps, TxKeeps, IsStable, keeps_rules, Keeps-bind, Keeps-attempt, Keeps-pure,
}
use factory_ops.Database.{Database, Action}
use factory_ops.Run.Model.{
  applied, duplicate_identical, RunRow, RunTransition, TransitionCommand, OriginalRunCommand,
  ReplayRunCommand,
}
use factory_ops.Run.Repository.{
  find_transition_by_request, has_request, TransitionUpdate, insert_transition, apply_transition,
  insert_run_with_initial_transition,
}
use factory_ops.Run.Consistency.{IsConsistent, IsMove}
use factory_ops.Run.Consistency.Writes.{
  IsBirth, apply_transition-IsConsistent, apply_transition-ok, insert_run-IsConsistent,
  insert_run_with_initial_transition-ok, insert_transition-ok, update_run-ok, insert_run-ok,
}
use factory_ops.Run.Service.Calls.{Inputs, RunOperationResult}
use factory_ops.Run.Service.{create_original_run, create_replay_run}
use factory_ops.Run.Service.{transition_run}
use factory_ops.Run.Service.Keeps.{
  transition_run-Keeps, create_original_run-Keeps, create_replay_run-Keeps,
}
use factory_ops.Run.Service.Applied.{Extends, IsStored, retry}
use factory_ops.Run.Service.Stores.{applied_stores}

-- One call of the service, with the values that its clock and factories return.
pub data Call : Type 0 where
  create_original : Inputs → OriginalRunCommand → Call
  create_replay : Inputs → ReplayRunCommand → Call
  transition : Inputs → TransitionCommand → Call

unfoldable pub run_call : (String → String → Bool) → Call → Action RunOperationResult
run_call matches (create_original inputs command) = create_original_run matches inputs command
run_call matches (create_replay inputs command) = create_replay_run matches inputs command
run_call matches (transition inputs command) = transition_run matches inputs command

-- A client that makes the calls one after the other, and goes on after an exception.
unfoldable pub serve :
    (String → String → Bool) → List Call → Action (List (Result RunOperationResult))
unfolding run_call
serve matches [] = pure []
serve matches (call ∷ calls) = do
  result ← attempt (run_call matches call)
  results ← serve matches calls
  pure (result ∷ results)

-- Other sessions keep the two tables of Runs consistent.
abbrev pub Respects : Database → Database → Type 0
Respects s s' = IsConsistent s → IsConsistent s'

module _ (matches : String → String → Bool) (rely : Database → Database → Type 0)
    (P : Database → Type 0) (stable : IsStable rely P)
    (moves : (u : TransitionUpdate) (t : RunTransition)
      → IsMove u t
      → TxKeeps P (apply_transition u t))
    (births : (r : RunRow) (t : RunTransition)
      → IsBirth r t
      → TxKeeps P (insert_run_with_initial_transition r t)) where
  run_call-Keeps : (call : Call) → Keeps rely P (run_call matches call)
  unfolding run_call
  run_call-Keeps (create_original inputs c) =
      create_original_run-Keeps matches rely P stable births inputs c
  run_call-Keeps (create_replay inputs c) =
      create_replay_run-Keeps matches rely P stable births inputs c
  run_call-Keeps (transition inputs c) = transition_run-Keeps matches rely P stable moves inputs c

  pub serve-Keeps : (calls : List Call) → Keeps rely P (serve matches calls)
  unfolding serve
  serve-Keeps [] = search keeps_rules
  serve-Keeps (call ∷ calls) =
      Keeps-bind _ _ (Keeps-attempt _ (run_call-Keeps call))
        (λ r. Keeps-bind _ _ (serve-Keeps calls) (λ rs. Keeps-pure _))

-- Any sequence of calls, each creating or moving a Run, leaves the tables of Runs consistent when
-- they were consistent before and the other sessions keep them so: keys are unique, each
-- transition belongs to a stored Run, and the history of each Run is a chain of legal transitions
-- from PENDING at revision 0 to its status and revision.
pub serve-IsConsistent :
    (matches : String → String → Bool) (calls : List Call) (w : World Database)
    → IsConsistent w.store
    → Guided Respects w.upcoming
    → IsConsistent (serve matches calls w).1.store
serve-IsConsistent matches calls w c g =
    let k =
      serve-Keeps matches Respects IsConsistent (λ s s' r p. r p) apply_transition-IsConsistent
        insert_run-IsConsistent calls in
    (k.at w (record { now = c; later = g })).now

abbrev pub KeepsTransition : String → RunTransition → Database → Type 0
KeepsTransition id t s = find_transition_by_request id s ≡ some t

find-any :
    (id : String) (ts : List RunTransition) (t : RunTransition)
    → find (has_request id) ts ≡ some t
    → any (has_request id) ts ≡ true
unfolding find any
find-any id [] t h = cc
find-any id (x ∷ xs) t h = ground (arith, find-any id xs t)

-- A new transition has a request of its own.
insert-KeepsTransition :
    (id : String) (t new : RunTransition) (db db' : Database)
    → KeepsTransition id t db
    → insert_transition new db ≡ ok db'
    → KeepsTransition id t db'
unfolding find_transition_by_request find
insert-KeepsTransition id t new db db' h e =
    let (exists, request, slot, made) = insert_transition-ok new db db' e in
    rw (made) (elim (Bool-cases (new.transition_request_id =s id)) [
      | inl same ↦ absurd (
          false≢true (
            sym request
            ∙ ap (λ i. any (has_request i) db.run_transitions)
                ((=s_iff new.transition_request_id id).0 same)
            ∙ find-any id db.run_transitions t h))
      | inr other ↦ rw other h
    ])

module _ (id : String) (t : RunTransition) where
  pub moves-KeepsTransition :
      (u : TransitionUpdate) (new : RunTransition)
      → IsMove u new
      → TxKeeps (KeepsTransition id t) (apply_transition u new)
  moves-KeepsTransition u new m = record {
    at = λ db h a e.
        let (mid, hu, ht) = apply_transition-ok u new db e in
        let still : mid.run_transitions ≡ db.run_transitions =
          ap (λ (d : Database). d.run_transitions) (update_run-ok u db mid hu).1 in
        insert-KeepsTransition id t new mid (apply_transition u new db).1
          (unfold find_transition_by_request in rw (still) h) ht;
  }

  births-KeepsTransition :
      (r : RunRow) (new : RunTransition)
      → IsBirth r new
      → TxKeeps (KeepsTransition id t) (insert_run_with_initial_transition r new)
  births-KeepsTransition r new b = record {
    at = λ db h a e.
        let (mid, hr, ht) = insert_run_with_initial_transition-ok r new b db e in
        let still : mid.run_transitions ≡ db.run_transitions =
          ap (λ (d : Database). d.run_transitions) (insert_run-ok r db mid hr).1 in
        insert-KeepsTransition id t new mid (insert_run_with_initial_transition r new db).1
          (unfold find_transition_by_request in rw (still) h) ht;
  }

-- No sequence of calls overwrites a stored transition, while the other sessions overwrite none.
pub serve_keeps_transitions :
    (matches : String → String → Bool) (calls : List Call) (w : World Database) (id : String)
    (t : RunTransition)
    → find_transition_by_request id w.store ≡ some t
    → Guided Extends w.upcoming
    → find_transition_by_request id (serve matches calls w).1.store ≡ some t
serve_keeps_transitions matches calls w id t h g =
    let k =
      serve-Keeps matches Extends (KeepsTransition id t) (λ s s' r p. r id t p)
        (moves-KeepsTransition id t) (births-KeepsTransition id t) calls in
    (k.at w (record { now = h; later = g })).now

-- A call of `transition_run` that reports APPLIED leaves a transition stored that matches its
-- command, when the other sessions overwrite no stored transition.
pub applied-IsStored :
    (matches : String → String → Bool) (inputs : Inputs) (c : TransitionCommand)
    (w : World Database) (r : RunOperationResult)
    → Guided Extends w.upcoming
    → (transition_run matches inputs c w).0 ≡ ok r
    → r.outcome ≡ applied
    → IsStored c (transition_run matches inputs c w).1.store
applied-IsStored matches inputs c w r g e a =
    (applied_stores matches inputs c).at w (record { now = tt; later = g }) r e a

-- While a transition that matches the command is stored, a call with the command that returns
-- reports DUPLICATE_IDENTICAL, when the other sessions overwrite no stored transition.
pub retry_is_identical :
    (matches : String → String → Bool) (inputs : Inputs) (c : TransitionCommand)
    (w : World Database) (r : RunOperationResult)
    → IsStored c w.store
    → Guided Extends w.upcoming
    → (transition_run matches inputs c w).0 ≡ ok r
    → r.outcome ≡ duplicate_identical
retry_is_identical matches inputs c w r h g e =
    (retry matches inputs c).at w (record { now = h; later = g }) r e
