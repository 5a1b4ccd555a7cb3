-- ===== src/Task/Service/Stores.antt =====
-- `transition_task` of task_lifecycle/service.py reports APPLIED only for a stored
-- transition.
use factory_ops.Common.{String, ◌≡◌, ◌≢◌, refl, Option, none, some, Bool, arith}
use factory_ops.Session.{Exception, Result, ok, err, integrity_error, conditional_update_miss, lift}
use factory_ops.Session.Keeps.{Keeps-lift}
use factory_ops.Session.Ensures.{
  Ensures, Ensures-lift, Ensures-raise, Ensures-if, Ensures-bind, Ensures-attempt, Ensures-connect,
}
use factory_ops.Database.{Database, Action}
use factory_ops.Run.Model.{Instant, OperationOutcome, applied, concurrency_conflict}
use factory_ops.Run.Service.Calls.{duplicate_outcome}
use factory_ops.Task.Model.{TransitionCommand, TransitionPlan}
use factory_ops.Task.Rules.{Attempt, plan_transition}
use factory_ops.Task.Contract.{TaskContract, to_contract}
use factory_ops.Task.Repository.{StoredTask, find_task}
use factory_ops.Task.Service.{
  Inputs, now, OperationResult, current_attempt, with_outcome, transition_matches, existing_or,
  after_apply, after_candidate, after_plan, with_current, transition_task, is_stale,
}
use factory_ops.Task.Service.Applied.{
  Extends, IsStored, IsStored-stable, outcome_with_task-Ensures, existing_or-Ensures,
  apply_transition-IsStored,
}

abbrev Anything : Database → Type 0
Anything _ = Unit {0}

-- The postcondition: APPLIED is reported with the transition stored.
abbrev Honest : TransitionCommand → OperationResult → Database → Type 0
Honest c r s = r.outcome ≡ applied → IsStored c s

duplicate-not_applied : (b : Bool) (o : OperationOutcome) → o ≡ duplicate_outcome b → o ≢ applied
duplicate-not_applied b o h = ground arith

module _ (matches : String → String → Bool) (sha256 : String → String) (c : TransitionCommand) where
  abbrev Reports : Action OperationResult → Type 0
  Reports = Ensures Extends Anything (Honest c)

  existing_or-Reports :
      (k : Action OperationResult) → Reports k → Reports (existing_or matches sha256 c k)
  existing_or-Reports k h =
      existing_or-Ensures matches sha256 (λ s s' g p. tt) c k
        (λ t s p e r o s' _ a.
          absurd (duplicate-not_applied (transition_matches c t) r.outcome o a))
        (λ s p e. h)

  conflict-Reports :
      (r : Result TaskContract) → Reports (lift (with_outcome concurrency_conflict r))
  conflict-Reports (ok e) = Ensures-lift _ (λ r h s p a. ground arith)
  conflict-Reports (err e) = Ensures-raise e

  made-Reports : Ensures Extends (IsStored c) (Honest c) (after_apply matches sha256 c (ok tt))
  unfolding after_apply
  made-Reports =
      outcome_with_task-Ensures matches sha256 (IsStored-stable c) applied c.task_id
        (λ r e s p a. p)

  failed-Reports : (e : Exception) → Reports (after_apply matches sha256 c (err e))
  unfolding after_apply
  failed-Reports conditional_update_miss = existing_or-Reports _ (
      outcome_with_task-Ensures matches sha256 (λ s s' g p. tt) concurrency_conflict c.task_id
        (λ r e s p a. ground arith))
  failed-Reports integrity_error = existing_or-Reports _ (Ensures-raise _)
  failed-Reports _ = Ensures-raise _

  module _ (inputs : Inputs) where
    after_candidate-Reports :
        (current : Attempt) (at : Instant) (p : TransitionPlan)
        → plan_transition c current at ≡ ok p
        → (r : Result TaskContract) → Reports (after_candidate matches sha256 inputs c p at r)
    unfolding after_candidate
    after_candidate-Reports current at p h (ok _) =
        Ensures-attempt Extends Anything (IsStored c) (Honest c) _ (λ s s' g p. tt)
          (λ s _ a e. apply_transition-IsStored inputs c current at p h s a e)
          (record { at = λ s p a e. tt }) (after_apply matches sha256 c) (λ a. made-Reports)
          failed-Reports
    after_candidate-Reports current at p h (err e) = Ensures-raise _

    after_plan-Reports :
        (row : StoredTask) (at : Instant) (r : Result TransitionPlan)
        → plan_transition c (current_attempt row.row) at ≡ r
        → Reports (after_plan matches sha256 inputs c row at r)
    unfolding after_plan
    after_plan-Reports row at (ok p) h = after_candidate-Reports (current_attempt row.row) at p h _
    after_plan-Reports row at (err e) h = existing_or-Reports _ (Ensures-raise _)

    with_current-Reports :
        (row : Option StoredTask) → Reports (with_current matches sha256 inputs c row)
    unfolding with_current
    with_current-Reports none = existing_or-Reports _ (Ensures-raise _)
    with_current-Reports (some row) =
        Ensures-if (is_stale c row.row) _ _
          (existing_or-Reports _ (conflict-Reports (to_contract matches sha256 row)))
          (Ensures-bind (lift (now inputs.clock)) _ (Keeps-lift _)
            (λ at. after_plan-Reports row at (plan_transition c (current_attempt row.row) at) refl))

-- A call of `transition_task` that reports APPLIED leaves the transition of its command stored,
-- for its Task, whatever the other sessions do between its transactions, as long as they do not
-- overwrite stored transitions.
pub applied_stores :
    (matches : String → String → Bool) (sha256 : String → String) (inputs : Inputs)
    (c : TransitionCommand)
    → Ensures Extends Anything (Honest c) (transition_task matches sha256 inputs c)
unfolding transition_task
applied_stores matches sha256 inputs c = existing_or-Reports matches sha256 c _ (
    Ensures-connect (find_task c.task_id) _ (λ s s' g p. tt)
      (λ row s p e. with_current-Reports matches sha256 c inputs row))
