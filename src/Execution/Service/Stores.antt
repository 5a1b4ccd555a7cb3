-- ===== src/Execution/Service/Stores.antt =====
-- `transition_execution` of execution_lifecycle/service.py reports APPLIED only for a stored
-- transition.
use factory_ops.Common.{◌≡◌, ◌≢◌, refl, Option, none, some, Bool, arith}
use factory_ops.Session.{Exception, Result, ok, err, integrity_error, conditional_update_miss, lift}
use factory_ops.Session.Keeps.{Keeps-lift}
use factory_ops.Session.Ensures.{
  Ensures, Ensures-lift, Ensures-raise, Ensures-if, Ensures-bind, Ensures-attempt, Ensures-connect,
}
use factory_ops.Database.{Database, Action}
use factory_ops.Run.Model.{Instant, OperationOutcome, applied, concurrency_conflict}
use factory_ops.Run.Service.Calls.{duplicate_outcome}
use factory_ops.Execution.Model.{TransitionCommand, TransitionPlan, ExecutionRow}
use factory_ops.Execution.Rules.{plan_transition}
use factory_ops.Execution.Contract.{Libraries, ExecutionContract, to_contract}
use factory_ops.Execution.Repository.{find_execution}
use factory_ops.Execution.Service.{
  Inputs, now, OperationResult, with_outcome, transition_matches, existing_or, after_apply,
  after_candidate, after_plan, with_current, transition_execution, is_stale,
}
use factory_ops.Execution.Service.Applied.{
  Extends, IsStored, IsStored-stable, outcome_with_execution-Ensures, existing_or-Ensures,
  apply-IsStored,
}

abbrev Anything : Database → Type 0
Anything _ = Unit {0}

-- The postcondition: APPLIED is reported with the transition stored.
abbrev Honest : Libraries → TransitionCommand → OperationResult → Database → Type 0
Honest x c r s = r.outcome ≡ applied → IsStored x c s

duplicate-not_applied : (b : Bool) (o : OperationOutcome) → o ≡ duplicate_outcome b → o ≢ applied
duplicate-not_applied b o h = ground arith

module _ (x : Libraries) (c : TransitionCommand) where
  abbrev Reports : Action OperationResult → Type 0
  Reports = Ensures Extends Anything (Honest x c)

  existing_or-Reports : (k : Action OperationResult) → Reports k → Reports (existing_or x c k)
  existing_or-Reports k h =
      existing_or-Ensures x (λ s s' g p. tt) c k
        (λ t s p e r o s' _ a.
          absurd (duplicate-not_applied (transition_matches x c t) r.outcome o a))
        (λ s p e. h)

  conflict-Reports :
      (r : Result ExecutionContract) → Reports (lift (with_outcome concurrency_conflict r))
  conflict-Reports (ok e) = Ensures-lift _ (λ r h s p a. ground arith)
  conflict-Reports (err e) = Ensures-raise e

  made-Reports : Ensures Extends (IsStored x c) (Honest x c) (after_apply x c (ok tt))
  unfolding after_apply
  made-Reports =
      outcome_with_execution-Ensures x (IsStored-stable x c) applied c.execution_id (λ r e s p a. p)

  failed-Reports : (e : Exception) → Reports (after_apply x c (err e))
  unfolding after_apply
  failed-Reports conditional_update_miss = existing_or-Reports _ (
      outcome_with_execution-Ensures x (λ s s' g p. tt) concurrency_conflict c.execution_id
        (λ r e s p a. ground arith))
  failed-Reports integrity_error = existing_or-Reports _ (Ensures-raise _)
  failed-Reports _ = Ensures-raise _

  module _ (inputs : Inputs) where
    after_candidate-Reports :
        (current : Option Instant) (at : Instant) (p : TransitionPlan)
        → plan_transition c current at ≡ ok p
        → (r : Result ExecutionContract) → Reports (after_candidate x inputs c p at r)
    unfolding after_candidate
    after_candidate-Reports current at p h (ok _) =
        Ensures-attempt Extends Anything (IsStored x c) (Honest x c) _ (λ s s' g p. tt)
          (λ s _ a e. apply-IsStored x inputs c current at p h s a e)
          (record { at = λ s p a e. tt }) (after_apply x c) (λ a. made-Reports) failed-Reports
    after_candidate-Reports current at p h (err e) = Ensures-raise _

    after_plan-Reports :
        (row : ExecutionRow) (at : Instant) (r : Result TransitionPlan)
        → plan_transition c row.started_at at ≡ r
        → Reports (after_plan x inputs c row at r)
    unfolding after_plan
    after_plan-Reports row at (ok p) h = after_candidate-Reports row.started_at at p h _
    after_plan-Reports row at (err e) h = existing_or-Reports _ (Ensures-raise _)

    with_current-Reports : (row : Option ExecutionRow) → Reports (with_current x inputs c row)
    unfolding with_current
    with_current-Reports none = existing_or-Reports _ (Ensures-raise _)
    with_current-Reports (some row) =
        Ensures-if (is_stale c row) _ _
          (existing_or-Reports _ (conflict-Reports (to_contract x row)))
          (Ensures-bind (lift (now inputs.clock)) _ (Keeps-lift _)
            (λ at. after_plan-Reports row at (plan_transition c row.started_at at) refl))

-- A call of `transition_execution` that reports APPLIED leaves the transition of its command stored,
-- for its Execution, whatever the other sessions do between its transactions, as long as they do not
-- overwrite stored transitions.
pub applied_stores :
    (x : Libraries) (inputs : Inputs) (c : TransitionCommand)
    → Ensures Extends Anything (Honest x c) (transition_execution x inputs c)
unfolding transition_execution
applied_stores x inputs c = existing_or-Reports x c _ (
    Ensures-connect (find_execution c.execution_id) _ (λ s s' g p. tt)
      (λ row s p e. with_current-Reports x c inputs row))
