-- ===== src/Run/Service/Stores.antt =====
-- `transition_run` of run_lifecycle/service.py reports APPLIED only for a stored transition.
use factory_ops.Common.{◌≡◌, ◌≢◌, refl, sym, ◌∙◌, String, Option, none, some, Bool, arith}
use factory_ops.Session.{
  World, Exception, Result, ok, err, integrity_error, conditional_update_miss, lift,
}
use factory_ops.Session.Keeps.{Keeps-lift}
use factory_ops.Session.Ensures.{
  Ensures, Ensures-lift, Ensures-raise, Ensures-if, Ensures-bind, Ensures-check, Ensures-attempt,
  Ensures-connect,
}
use factory_ops.Database.{Database, Action}
use factory_ops.Run.Model.{
  Instant, OperationOutcome, applied, concurrency_conflict, TransitionCommand, TransitionPlan,
  RunRow,
}
use factory_ops.Run.Rules.{plan_transition}
use factory_ops.Run.Contract.{RunContract}
use factory_ops.Run.Repository.{find_run}
use factory_ops.Run.Service.Calls.{
  Inputs, now, RunOperationResult, duplicate_outcome, get_run, outcome_with_run,
}
use factory_ops.Run.Service.Keeps.{get_run-Keeps}
use factory_ops.Run.Service.Transition.{
  transition_matches, existing_or, classify_failed_transition, after_apply, after_candidate,
  after_plan, with_current, transition_run, is_stale, transitioned_result, unless_conflict,
}
use factory_ops.Run.Service.Applied.{
  outcome_with_run-Ensures, Extends, IsStored, IsStored-stable, existing_or-Ensures,
  apply_transition-IsStored,
}

abbrev Anything : Database → Type 0
Anything _ = Unit {0}

-- The postcondition: APPLIED is reported with the transition stored.
abbrev Honest : TransitionCommand → RunOperationResult → Database → Type 0
Honest c r s = r.outcome ≡ applied → IsStored c s

duplicate-not_applied : (b : Bool) (o : OperationOutcome) → o ≡ duplicate_outcome b → o ≢ applied
duplicate-not_applied b o h = ground arith

module _ (matches : String → String → Bool) (c : TransitionCommand) where
  abbrev Reports : Action RunOperationResult → Type 0
  Reports = Ensures Extends Anything (Honest c)

  outcome_with_run-Reports :
      (o : OperationOutcome) → o ≢ applied → Reports (outcome_with_run matches o c.run_id)
  outcome_with_run-Reports o h =
      outcome_with_run-Ensures matches (λ s s' g p. tt) o c.run_id
        (λ r e s p a. absurd (h (sym e ∙ a)))

  existing_or-Reports :
      (k : Action RunOperationResult) → Reports k → Reports (existing_or matches c k)
  existing_or-Reports k h =
      existing_or-Ensures matches (λ s s' g p. tt) c k
        (λ t s p e r o s' _ a.
          absurd (duplicate-not_applied (transition_matches c t) r.outcome o a))
        (λ s p e. h)

  classify_failed_transition-Reports : Reports (classify_failed_transition matches c)
  unfolding classify_failed_transition
  classify_failed_transition-Reports =
      existing_or-Reports _ (outcome_with_run-Reports concurrency_conflict (ground arith))

  transitioned_result-Reports :
      (run : Option RunContract)
      → Ensures Extends (IsStored c) (Honest c) (transitioned_result matches run)
  transitioned_result-Reports none = Ensures-raise _
  transitioned_result-Reports (some run) =
      Ensures-lift (ok (record { outcome = applied; run = some run })) (λ r e s p a. p)

  made-Reports : Ensures Extends (IsStored c) (Honest c) (after_apply matches c (ok tt))
  unfolding after_apply
  made-Reports =
      Ensures-bind (get_run matches c.run_id) _
        (get_run-Keeps matches Extends (IsStored c) (IsStored-stable c) c.run_id)
        transitioned_result-Reports

  unless_conflict-passes :
      (r : RunOperationResult) (w : World Database) (r' : RunOperationResult)
      → (unless_conflict matches r.outcome r w).0 ≡ ok r'
      → (r ≡ r') × ((unless_conflict matches r.outcome r w).1 ≡ w)
  unless_conflict-passes r w r' e = ground arith

  failed-Reports : (e : Exception) → Reports (after_apply matches c (err e))
  unfolding after_apply
  failed-Reports conditional_update_miss = classify_failed_transition-Reports
  failed-Reports integrity_error =
      Ensures-check (Honest c) (classify_failed_transition matches c) _
        classify_failed_transition-Reports unless_conflict-passes
  failed-Reports _ = Ensures-raise _

  module _ (inputs : Inputs) where
    after_candidate-Reports :
        (current : Option Instant) (at : Instant) (p : TransitionPlan)
        → plan_transition c current at ≡ ok p
        → (r : Result RunContract) → Reports (after_candidate matches inputs c p at r)
    unfolding after_candidate
    after_candidate-Reports current at p h (ok _) =
        Ensures-attempt Extends Anything (IsStored c) (Honest c) _ (λ s s' g p. tt)
          (λ s _ a e. apply_transition-IsStored inputs c current at p h s a e)
          (record { at = λ s p a e. tt }) (after_apply matches c) (λ a. made-Reports) failed-Reports
    after_candidate-Reports current at p h (err e) = existing_or-Reports _ (Ensures-raise _)

    after_plan-Reports :
        (row : RunRow) (at : Instant) (r : Result TransitionPlan)
        → plan_transition c row.started_at at ≡ r
        → Reports (after_plan matches inputs c row at r)
    unfolding after_plan
    after_plan-Reports row at (ok p) h = after_candidate-Reports row.started_at at p h _
    after_plan-Reports row at (err e) h = existing_or-Reports _ (Ensures-raise _)

    with_current-Reports : (row : Option RunRow) → Reports (with_current matches inputs c row)
    unfolding with_current
    with_current-Reports none = existing_or-Reports _ (Ensures-raise _)
    with_current-Reports (some row) =
        Ensures-if (is_stale matches c row) _ _ classify_failed_transition-Reports (
          Ensures-bind (lift (now inputs.clock)) _ (Keeps-lift _)
            (λ at. after_plan-Reports row at (plan_transition c row.started_at at) refl))

-- A call of `transition_run` that reports APPLIED leaves the transition of its command stored, with
-- all the fields of the command, whatever the other sessions do between its transactions, as long
-- as they do not overwrite stored transitions.
pub applied_stores :
    (matches : String → String → Bool) (inputs : Inputs) (c : TransitionCommand)
    → Ensures Extends Anything (Honest c) (transition_run matches inputs c)
unfolding transition_run
applied_stores matches inputs c = existing_or-Reports matches c _ (
    Ensures-connect (find_run c.run_id) _ (λ s s' g p. tt)
      (λ row s p e. with_current-Reports matches c inputs row))
