-- ===== src/Execution/Service/Keeps.antt =====
-- What the two write transactions keep, the operations of the service keep, under any interference
-- and any lost connection.
use factory_ops.Common.{◌≡◌, refl, String, Option, none, some}
use factory_ops.Session.{Result, ok, err, integrity_error, conditional_update_miss, lift}
use factory_ops.Session.Keeps.{
  Keeps, TxKeeps, IsStable, keeps_rules, Keeps-lift, Keeps-connect, Keeps-bind, Keeps-if,
}
use factory_ops.Database.{Database, Action}
use factory_ops.Versioned.{IsBirth}
use factory_ops.Run.Model.{Instant, OperationOutcome}
use factory_ops.Session.Lookup.{found_or-Keeps}
use factory_ops.Execution.Model.{
  CreateExecutionCommand, TransitionCommand, TransitionPlan, ExecutionRow, ExecutionTransition,
}
use factory_ops.Execution.Rules.{plan_transition}
use factory_ops.Execution.Rules.Plan.{plan_transition-legal}
use factory_ops.Execution.Contract.{Libraries, ExecutionContract}
use factory_ops.Execution.Repository.{find_execution, ExecutionUpdate, apply, create}
use factory_ops.Execution.Consistency.{schema, Records}
use factory_ops.Execution.Service.{
  Inputs, now, OperationResult, get_execution, outcome_with_execution, history, initial_row,
  initial_transition, classify_creation, after_create, after_validate, create_execution,
  execution_update, transition_row, classify_transition, existing_or, after_apply, after_candidate,
  after_plan, is_stale, with_current, transition_execution,
}

pub Records-plan :
    (x : Libraries) (inputs : Inputs) (c : TransitionCommand) (current : Option Instant)
    (at : Instant) (p : TransitionPlan)
    → plan_transition c current at ≡ ok p
    → Records (execution_update c p at) (transition_row x inputs c p at)
unfolding execution_update transition_row history
Records-plan x inputs c current at p h =
    (refl, refl, refl, refl, refl, plan_transition-legal c current at p h)

IsBirth-initial :
    (x : Libraries) (inputs : Inputs) (c : CreateExecutionCommand) (key : String) (at : Instant)
    → IsBirth schema (initial_row inputs c key at) (initial_transition x inputs at)
unfolding initial_row initial_transition history
IsBirth-initial x inputs c key at = (refl, refl, refl, refl, refl, refl)

module _ (x : Libraries) (rely : Database → Database → Type 0) (P : Database → Type 0)
    (stable : IsStable rely P) where
  pub get_execution-Keeps : (id : String) → Keeps rely P (get_execution x id)
  unfolding get_execution
  get_execution-Keeps id = search keeps_rules

  pub outcome_with_execution-Keeps :
      (o : OperationOutcome) (id : String) → Keeps rely P (outcome_with_execution x o id)
  unfolding outcome_with_execution
  outcome_with_execution-Keeps o id = search (keeps_rules, get_execution-Keeps)

  classify_transition-Keeps :
      (c : TransitionCommand) (t : ExecutionTransition) → Keeps rely P (classify_transition x c t)
  unfolding classify_transition
  classify_transition-Keeps c t = search (outcome_with_execution-Keeps)

  existing_or-Keeps :
      (c : TransitionCommand) (k : Action OperationResult)
      → Keeps rely P k
      → Keeps rely P (existing_or x c k)
  unfolding existing_or
  existing_or-Keeps c k h = search (keeps_rules, found_or-Keeps, classify_transition-Keeps)

  after_apply-Keeps :
      (c : TransitionCommand) (r : Result (Unit {0})) → Keeps rely P (after_apply x c r)
  unfolding after_apply
  after_apply-Keeps c (ok _) = search (outcome_with_execution-Keeps)
  after_apply-Keeps c (err conditional_update_miss) =
      search (existing_or-Keeps, outcome_with_execution-Keeps)
  after_apply-Keeps c (err integrity_error) = search (existing_or-Keeps, keeps_rules)
  after_apply-Keeps c (err _) = search keeps_rules

  -- The writes that the caller knows to record a legal step.
  module _
      (writes : (u : ExecutionUpdate) (t : ExecutionTransition)
        → Records u t
        → TxKeeps P (apply u t))
      (inputs : Inputs) (c : TransitionCommand) where
    after_candidate-Keeps :
        (current : Option Instant) (at : Instant) (p : TransitionPlan)
        → plan_transition c current at ≡ ok p
        → (r : Result ExecutionContract) → Keeps rely P (after_candidate x inputs c p at r)
    unfolding after_candidate
    after_candidate-Keeps current at p h (ok _) =
        search (keeps_rules, after_apply-Keeps, writes, Records-plan x inputs c current at p h)
    after_candidate-Keeps current at p h (err e) = search keeps_rules

    after_plan-Keeps :
        (row : ExecutionRow) (at : Instant) (r : Result TransitionPlan)
        → plan_transition c row.started_at at ≡ r
        → Keeps rely P (after_plan x inputs c row at r)
    unfolding after_plan
    after_plan-Keeps row at (ok p) h = after_candidate-Keeps row.started_at at p h _
    after_plan-Keeps row at (err e) h = search (existing_or-Keeps, keeps_rules)

    with_current-Keeps : (row : Option ExecutionRow) → Keeps rely P (with_current x inputs c row)
    unfolding with_current
    with_current-Keeps none = search (existing_or-Keeps, keeps_rules)
    with_current-Keeps (some row) =
        Keeps-if (is_stale c row) _ _ (existing_or-Keeps c _ (Keeps-lift _)) (
          Keeps-bind (lift (now inputs.clock)) _ (Keeps-lift _)
            (λ at. after_plan-Keeps row at (plan_transition c row.started_at at) refl))

    pub transition_execution-Keeps : Keeps rely P (transition_execution x inputs c)
    unfolding transition_execution
    transition_execution-Keeps =
        existing_or-Keeps c _
          (Keeps-bind _ _ (Keeps-connect (find_execution c.execution_id) stable) with_current-Keeps)

  classify_creation-Keeps :
      (c : CreateExecutionCommand) (row : ExecutionRow) → Keeps rely P (classify_creation x c row)
  unfolding classify_creation
  classify_creation-Keeps c row = search keeps_rules

  module _
      (writes : (r : ExecutionRow) (t : ExecutionTransition)
        → IsBirth schema r t
        → TxKeeps P (create r t))
      (inputs : Inputs) (c : CreateExecutionCommand) where
    after_create-Keeps : (r : Result (Unit {0})) → Keeps rely P (after_create x inputs c r)
    unfolding after_create
    after_create-Keeps (ok _) = search (outcome_with_execution-Keeps)
    after_create-Keeps (err integrity_error) =
        search (keeps_rules, found_or-Keeps, classify_creation-Keeps)
    after_create-Keeps (err _) = search keeps_rules

    after_validate-Keeps :
        (at : Instant) (r : Result ExecutionContract)
        → Keeps rely P (after_validate x inputs c at r)
    unfolding after_validate
    after_validate-Keeps at (ok _) =
        search (keeps_rules, after_create-Keeps, writes, IsBirth-initial)
    after_validate-Keeps at (err e) = search keeps_rules

    pub create_execution-Keeps : Keeps rely P (create_execution x inputs c)
    unfolding create_execution
    create_execution-Keeps =
        search (keeps_rules, found_or-Keeps, classify_creation-Keeps, after_validate-Keeps) depth 9
