-- ===== src/Execution/Service/Applied.antt =====
-- What a stored transition of a command is, and what a retry of the command returns. The other
-- sessions may do anything but overwrite stored transitions.
use factory_ops.Common.{
  ◌≡◌, refl, ◌∙◌, String, Option, none, some, Bool, true, ◌&&◌, arith, =s_iff, same_option, find,
  same_int, unsigned_column,
}
use factory_ops.Session.{ok}
use factory_ops.Session.Keeps.{IsStable}
use factory_ops.Session.Ensures.{Ensures, Ensures-lift, Ensures-bind}
use factory_ops.Session.Lookup.{found_or-Ensures}
use factory_ops.Database.{Database, Action}
use factory_ops.Run.Model.{Instant, OperationOutcome}
use factory_ops.Run.Service.Calls.{duplicate_outcome}
use factory_ops.Execution.Model.{
  same_status_iff, TransitionCommand, TransitionPlan, ExecutionTransition,
}
use factory_ops.Execution.Rules.{plan_transition}
use factory_ops.Execution.Rules.Plan.{planned, plan_transition_iff}
use factory_ops.Execution.Contract.{Libraries}
use factory_ops.Execution.Constraints.{transition_checks}
use factory_ops.Execution.Repository.{find_transition, insert_transition, apply}
use factory_ops.Execution.Consistency.{apply-ok, insert_transition-ok}
use factory_ops.Execution.Service.{
  Inputs, OperationResult, printed, history, outcome_with_execution, get_execution,
  execution_update, transition_row, transition_matches, classify_transition, existing_or,
  transition_execution,
}
use factory_ops.Execution.Service.Keeps.{get_execution-Keeps}

-- Stored transitions are not overwritten.
abbrev pub Extends : Database → Database → Type 0
Extends s s' =
    (id : String) (t : ExecutionTransition)
    → find_transition id s ≡ some t
    → find_transition id s' ≡ some t

-- Whether the JSON columns return the texts of the command as they were printed.
unfoldable pub texts_kept : Libraries → TransitionCommand → Bool
texts_kept x c =
    same_option (printed (λ r. x.json_column (x.result_text r)) c.result)
      (printed x.result_text c.result)
    && same_option (printed (λ f. x.json_column (x.failure_text f)) c.failure)
        (printed x.failure_text c.failure)

-- The transition of this command is stored, and compares as the JSON columns let it.
abbrev pub IsStored : Libraries → TransitionCommand → Database → Type 0
IsStored x c s =
    (t : ExecutionTransition) × (find_transition c.transition_request_id s ≡ some t)
    × (t.execution_id ≡ c.execution_id)
    × (transition_matches x c t ≡ texts_kept x c)

pub IsStored-stable : (x : Libraries) (c : TransitionCommand) → IsStable Extends (IsStored x c)
IsStored-stable x c s s' g (t, f, own, m) = (t, g c.transition_request_id t f, own, m)

-- The CHECK on the revisions refuses a negative one.
checked-revision :
    (x : Libraries) (inputs : Inputs) (c : TransitionCommand) (current : Option Instant)
    (at : Instant)
    → transition_checks (transition_row x inputs c (planned c current at) at) ≡ true
    → same_int (unsigned_column c.expected_revision) c.expected_revision ≡ true
unfolding transition_checks transition_row history planned
checked-revision x inputs c current at h = ground arith

transition_row-matches :
    (x : Libraries) (inputs : Inputs) (c : TransitionCommand) (p : TransitionPlan) (at : Instant)
    → same_int (unsigned_column c.expected_revision) c.expected_revision ≡ true
    → transition_matches x c (transition_row x inputs c p at) ≡ texts_kept x c
unfolding transition_matches transition_row history texts_kept
transition_row-matches x inputs c p at h = ground (
  arith,
  =s_iff c.execution_id c.execution_id,
  same_status_iff c.expected_status c.expected_status,
  same_status_iff c.to_status c.to_status,
  =s_iff c.actor_kind c.actor_kind,
  =s_iff c.actor_id c.actor_id,
  =s_iff c.reason_code c.reason_code,
  =s_iff c.reason_message c.reason_message,
)

insert_transition-finds :
    (t : ExecutionTransition) (db db' : Database)
    → insert_transition t db ≡ ok db'
    → find_transition t.transition_request_id db' ≡ some t
unfolding find_transition find
insert_transition-finds t db db' h = rw (
  (insert_transition-ok t db db' h).4,
  (=s_iff t.transition_request_id t.transition_request_id).1 refl,
)

module _ (x : Libraries) (inputs : Inputs) (c : TransitionCommand) (current : Option Instant)
    (at : Instant) (p : TransitionPlan) (h : plan_transition c current at ≡ ok p) where
  pub apply-IsStored :
      (s : Database) (a : Unit)
      → (apply (execution_update c p at) (transition_row x inputs c p at) s).0 ≡ ok a
      → IsStored x c (apply (execution_update c p at) (transition_row x inputs c p at) s).1
  apply-IsStored s a e =
      let t = transition_row x inputs c p at in
      let (mid, hu, ht) = apply-ok (execution_update c p at) t s e in
      let checks = (insert_transition-ok t mid (apply (execution_update c p at) t s).1 ht).3 in
      let same = ((plan_transition_iff c current at p).0 h).1 in
      (
        t,
        unfold transition_row history in
            insert_transition-finds t mid (apply (execution_update c p at) t s).1 ht,
        unfold transition_row history in refl,
        transition_row-matches x inputs c p at
            (checked-revision x inputs c current at (rw same at checks)),
      )

module _ (x : Libraries) {P : Database → Type 0} (stable : IsStable Extends P)
    {Q : OperationResult → Database → Type 0} where
  pub outcome_with_execution-Ensures :
      (o : OperationOutcome) (id : String)
      → ((r : OperationResult) → r.outcome ≡ o → (s : Database) → P s → Q r s)
      → Ensures Extends P Q (outcome_with_execution x o id)
  unfolding outcome_with_execution
  outcome_with_execution-Ensures o id q =
      Ensures-bind (get_execution x id) _ (get_execution-Keeps x Extends P stable id) λ e.
        Ensures-lift (ok (record { outcome = o; execution = e }))
          (λ r h s p. q r (ground arith) s p)

  -- A found transition with the request of `c` is classified by whether it matches `c`.
  pub existing_or-Ensures :
      (c : TransitionCommand) (k : Action OperationResult)
      → ((t : ExecutionTransition) (s0 : Database)
          → P s0
          → find_transition c.transition_request_id s0 ≡ some t
          → (r : OperationResult) → r.outcome ≡ duplicate_outcome (transition_matches x c t)
          → (s : Database) → P s
          → Q r s)
      → ((s0 : Database)
          → P s0
          → find_transition c.transition_request_id s0 ≡ none
          → Ensures Extends P Q k)
      → Ensures Extends P Q (existing_or x c k)
  unfolding existing_or classify_transition
  existing_or-Ensures c k found missing =
      found_or-Ensures (find_transition c.transition_request_id) _ k stable
        (λ t s p e.
          outcome_with_execution-Ensures (duplicate_outcome (transition_matches x c t))
            t.execution_id (found t s p e))
        missing

-- While the transition of a command is stored, each call of `transition_execution` with the command
-- that returns reports a duplicate: an identical one exactly if the JSON columns return the texts of
-- its result and its failure as they were printed. The other sessions overwrite no stored
-- transition, and the connection may be lost anywhere.
pub retry :
    (x : Libraries) (inputs : Inputs) (c : TransitionCommand)
    → Ensures Extends
        (IsStored x c)
        (λ r _. r.outcome ≡ duplicate_outcome (texts_kept x c))
        (transition_execution x inputs c)
unfolding transition_execution
retry x inputs c =
    existing_or-Ensures x (IsStored-stable x c) c _
      (λ t s (t', f, own, m) e r o _ _. let same : t ≡ t' = cc in o ∙ rw (same, m) refl)
      (λ s (t, f, own, m) e. absurd cc)
