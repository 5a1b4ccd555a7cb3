-- ===== src/Task/Service/Applied.antt =====
-- What a stored transition of a command is, and what a retry of the command returns. The other
-- sessions may do anything but overwrite stored transitions.
use factory_ops.Common.{
  ◌≡◌, refl, ◌∙◌, String, none, some, Bool, true, ◌+◌, arith, =s_iff, same_option, same_option_iff,
  find, not, ◌||◌, sym, next, ◌==◌, ℤ, same_int, unsigned_column,
}
use factory_ops.Session.{ok}
use factory_ops.Session.Keeps.{IsStable}
use factory_ops.Session.Ensures.{Ensures, Ensures-lift, Ensures-bind}
use factory_ops.Session.Lookup.{found_or-Ensures}
use factory_ops.Database.{Database, Action}
use factory_ops.Run.Model.{Instant, OperationOutcome, duplicate_identical}
use factory_ops.Run.Service.Calls.{duplicate_outcome}
use factory_ops.Task.Model.{
  TaskStatus, pending, running, succeeded, failed, cancelled, skipped, same_status_iff,
  TransitionCommand, TransitionPlan, TaskTransition,
}
use factory_ops.Task.Rules.{Attempt, plan_transition}
use factory_ops.Task.Rules.Plan.{IsTaskPlan, plan_transition-IsTaskPlan}
use factory_ops.Task.Constraints.{transition_checks}
use factory_ops.Task.Repository.{find_transition, insert_transition, apply_transition}
use factory_ops.Task.Consistency.{apply_transition-ok, insert_transition-ok}
use factory_ops.Task.Service.{
  Inputs, OperationResult, names_execution, transition_values, outcome_with_task, get_task,
  transition_update, transition_row, transition_matches, classify_transition, existing_or,
  transition_task,
}
use factory_ops.Task.Service.Keeps.{get_task-Keeps}

-- Stored transitions are not overwritten.
abbrev pub Extends : Database → Database → Type 0
Extends s s' =
    (id : String) (t : TaskTransition)
    → find_transition id s ≡ some t
    → find_transition id s' ≡ some t

-- The transition of this very command is stored.
abbrev pub IsStored : TransitionCommand → Database → Type 0
IsStored c s =
    (t : TaskTransition) × (find_transition c.transition_request_id s ≡ some t)
    × (transition_matches c t ≡ true)

pub IsStored-stable : (c : TransitionCommand) → IsStable Extends (IsStored c)
IsStored-stable c s s' g (t, f, m) = (t, g c.transition_request_id t f, m)

-- The CHECK on the revisions refuses a negative one.
checked-revision :
    (inputs : Inputs) (c : TransitionCommand) (p : TransitionPlan) (at : Instant)
    → p.to_revision ≡ next c.expected_revision
    → transition_checks (transition_row inputs c p at) ≡ true
    → same_int (unsigned_column c.expected_revision) c.expected_revision ≡ true
unfolding transition_checks transition_row transition_values
checked-revision inputs c p at e h = checks c.expected_revision (rw e at h)
  where
    checks :
        (z : ℤ)
        → (unsigned_column (next z) == unsigned_column z + 1) ≡ true
        → same_int (unsigned_column z) z ≡ true
    checks z k = ground arith

-- A plan that names an execution names that of the command.
planned-execution :
    (c : TransitionCommand) (a : Attempt) (at : Instant) (p : TransitionPlan)
    → plan_transition c a at ≡ ok p
    → (not (names_execution c.to_status) || same_option p.current_execution_id c.execution_id)
      ≡ true
planned-execution c a at p h = named c.to_status refl
  where
    q : IsTaskPlan c a at p
    q = plan_transition-IsTaskPlan c a at p h

    same :
        p.current_execution_id ≡ c.execution_id
        → (s : TaskStatus)
        → (not (names_execution s) || same_option p.current_execution_id c.execution_id) ≡ true
    same e s = ground (arith, same_option_iff p.current_execution_id c.execution_id)

    named :
        (s : TaskStatus)
        → c.to_status ≡ s
        → (not (names_execution s) || same_option p.current_execution_id c.execution_id) ≡ true
    named running e = same ((q.new_attempt e).1) running
    named succeeded e =
        same ((q.same_attempt (rw e (ground arith))).1 ∙ sym (q.completed e).0) succeeded
    named failed e = same ((q.same_attempt (rw e (ground arith))).1 ∙ sym (q.broken e).0) failed
    named pending e = refl
    named cancelled e = refl
    named skipped e = refl

transition_row-matches :
    (inputs : Inputs) (c : TransitionCommand) (a : Attempt) (p : TransitionPlan) (at : Instant)
    → plan_transition c a at ≡ ok p
    → same_int (unsigned_column c.expected_revision) c.expected_revision ≡ true
    → transition_matches c (transition_row inputs c p at) ≡ true
unfolding transition_matches transition_row transition_values
transition_row-matches inputs c a p at planned h = ground (
  arith,
  planned-execution c a at p planned,
  =s_iff c.task_id c.task_id,
  same_status_iff c.expected_status c.expected_status,
  same_status_iff c.to_status c.to_status,
  =s_iff c.actor_kind c.actor_kind,
  =s_iff c.actor_id c.actor_id,
  =s_iff c.reason_code c.reason_code,
  =s_iff c.reason_message c.reason_message,
  same_option_iff c.completion_execution_id c.completion_execution_id,
  same_option_iff c.failure_code c.failure_code,
  same_option_iff c.failure_message c.failure_message,
  same_option_iff c.failure_recoverability c.failure_recoverability,
)

insert_transition-finds :
    (t : TaskTransition) (db db' : Database)
    → insert_transition t db ≡ ok db'
    → find_transition t.transition_request_id db' ≡ some t
unfolding find_transition find
insert_transition-finds t db db' h = rw (
  (insert_transition-ok t db db' h).4,
  (=s_iff t.transition_request_id t.transition_request_id).1 refl,
)

module _ (inputs : Inputs) (c : TransitionCommand) (current : Attempt) (at : Instant)
    (p : TransitionPlan) (h : plan_transition c current at ≡ ok p) where
  pub apply_transition-IsStored :
      (s : Database) (a : Unit)
      → (apply_transition (transition_update c p at) (transition_row inputs c p at) s).0 ≡ ok a
      → IsStored c (apply_transition (transition_update c p at) (transition_row inputs c p at) s).1
  apply_transition-IsStored s a e =
      let t = transition_row inputs c p at in
      let (mid, hu, ht) = apply_transition-ok (transition_update c p at) t s e in
      let checks =
        (insert_transition-ok t mid (apply_transition (transition_update c p at) t s).1 ht).3 in
      (
        t,
        unfold transition_row transition_values in
            insert_transition-finds t mid (apply_transition (transition_update c p at) t s).1 ht,
        transition_row-matches inputs c current p at h (
            checked-revision inputs c p at (plan_transition-IsTaskPlan c current at p h).revision
              checks),
      )

module _ (matches : String → String → Bool) (sha256 : String → String) {P : Database → Type 0}
    (stable : IsStable Extends P) {Q : OperationResult → Database → Type 0} where
  pub outcome_with_task-Ensures :
      (o : OperationOutcome) (id : String)
      → ((r : OperationResult) → r.outcome ≡ o → (s : Database) → P s → Q r s)
      → Ensures Extends P Q (outcome_with_task matches sha256 o id)
  unfolding outcome_with_task
  outcome_with_task-Ensures o id q =
      Ensures-bind (get_task matches sha256 id) _
        (get_task-Keeps matches sha256 Extends P stable id)
        λ e.
          Ensures-lift (ok (record { outcome = o; task = e })) (λ r h s p. q r (ground arith) s p)

  -- A found transition with the request of `c` is classified by whether it matches `c`.
  pub existing_or-Ensures :
      (c : TransitionCommand) (k : Action OperationResult)
      → ((t : TaskTransition) (s0 : Database)
          → P s0
          → find_transition c.transition_request_id s0 ≡ some t
          → (r : OperationResult) → r.outcome ≡ duplicate_outcome (transition_matches c t)
          → (s : Database) → P s
          → Q r s)
      → ((s0 : Database)
          → P s0
          → find_transition c.transition_request_id s0 ≡ none
          → Ensures Extends P Q k)
      → Ensures Extends P Q (existing_or matches sha256 c k)
  unfolding existing_or classify_transition
  existing_or-Ensures c k found missing =
      found_or-Ensures (find_transition c.transition_request_id) _ k stable
        (λ t s p e.
          outcome_with_task-Ensures (duplicate_outcome (transition_matches c t)) t.task_id
            (found t s p e))
        missing

-- While the transition of a command is stored, each call of `transition_task` with the command that
-- returns reports DUPLICATE_IDENTICAL, whatever else the other sessions do to the database and
-- wherever a connection is lost.
pub retry :
    (matches : String → String → Bool) (sha256 : String → String) (inputs : Inputs)
    (c : TransitionCommand)
    → Ensures Extends
        (IsStored c)
        (λ r _. r.outcome ≡ duplicate_identical)
        (transition_task matches sha256 inputs c)
unfolding transition_task
retry matches sha256 inputs c =
    existing_or-Ensures matches sha256 (IsStored-stable c) c _
      (λ t s (t', f, m) e r o _ _. let same : t ≡ t' = cc in o ∙ rw (same, m) refl)
      (λ s (t, f, m) e. absurd cc)
