-- ===== src/Task/Service/Keeps.antt =====
-- What the two write transactions keep, the operations of the service keep, under any interference
-- and any lost connection.
use factory_ops.Common.{List, ◌≡◌, refl, String, Option, none, some, Bool}
use factory_ops.Session.{Result, ok, err, integrity_error, conditional_update_miss, lift}
use factory_ops.Session.Keeps.{
  Keeps, TxKeeps, IsStable, keeps_rules, Keeps-lift, Keeps-connect, Keeps-bind, Keeps-if,
}
use factory_ops.Database.{Database, Action}
use factory_ops.Versioned.{IsBirth}
use factory_ops.Run.Model.{Instant, OperationOutcome}
use factory_ops.Session.Lookup.{found_or-Keeps}
use factory_ops.Task.Model.{
  CreateTaskCommand, TransitionCommand, TransitionPlan, TaskRow, TaskTransition,
}
use factory_ops.Task.Rules.{Attempt, plan_transition}
use factory_ops.Task.Rules.Plan.{plan_transition-IsTaskPlan}
use factory_ops.Task.Contract.{TaskContract}
use factory_ops.Task.Repository.{StoredTask, find_task, TransitionUpdate, apply_transition, create}
use factory_ops.Task.Consistency.{schema, Records}
use factory_ops.Task.Service.{
  Inputs, now, OperationResult, get_task, outcome_with_task, transition_values, initial_row,
  initial_transition, current_attempt, classify_creation, after_create, after_validate, create_task,
  transition_update, transition_row, classify_transition, existing_or, after_apply, after_candidate,
  after_plan, is_stale, with_current, transition_task,
}

pub Records-plan :
    (inputs : Inputs) (c : TransitionCommand) (current : Attempt) (at : Instant)
    (p : TransitionPlan)
    → plan_transition c current at ≡ ok p
    → Records (transition_update c p at) (transition_row inputs c p at)
unfolding transition_update transition_row transition_values
Records-plan inputs c current at p h =
    (refl, refl, refl, refl, refl, (plan_transition-IsTaskPlan c current at p h).legal)

IsBirth-initial :
    (inputs : Inputs) (c : CreateTaskCommand) (key : String) (at : Instant)
    → IsBirth schema (initial_row inputs c key at) (initial_transition inputs at)
unfolding initial_row initial_transition transition_values
IsBirth-initial inputs c key at = (refl, refl, refl, refl, refl, refl)

module _ (matches : String → String → Bool) (sha256 : String → String)
    (rely : Database → Database → Type 0) (P : Database → Type 0) (stable : IsStable rely P) where
  pub get_task-Keeps : (id : String) → Keeps rely P (get_task matches sha256 id)
  unfolding get_task
  get_task-Keeps id = search keeps_rules

  pub outcome_with_task-Keeps :
      (o : OperationOutcome) (id : String) → Keeps rely P (outcome_with_task matches sha256 o id)
  unfolding outcome_with_task
  outcome_with_task-Keeps o id = search (keeps_rules, get_task-Keeps)

  classify_transition-Keeps :
      (c : TransitionCommand) (t : TaskTransition)
      → Keeps rely P (classify_transition matches sha256 c t)
  unfolding classify_transition
  classify_transition-Keeps c t = search (outcome_with_task-Keeps)

  existing_or-Keeps :
      (c : TransitionCommand) (k : Action OperationResult)
      → Keeps rely P k
      → Keeps rely P (existing_or matches sha256 c k)
  unfolding existing_or
  existing_or-Keeps c k h = search (keeps_rules, found_or-Keeps, classify_transition-Keeps)

  after_apply-Keeps :
      (c : TransitionCommand) (r : Result (Unit {0}))
      → Keeps rely P (after_apply matches sha256 c r)
  unfolding after_apply
  after_apply-Keeps c (ok _) = search (outcome_with_task-Keeps)
  after_apply-Keeps c (err conditional_update_miss) =
      search (existing_or-Keeps, outcome_with_task-Keeps)
  after_apply-Keeps c (err integrity_error) = search (existing_or-Keeps, keeps_rules)
  after_apply-Keeps c (err _) = search keeps_rules

  -- The writes that the caller knows to record a legal step.
  module _
      (writes : (u : TransitionUpdate) (t : TaskTransition)
        → Records u t
        → TxKeeps P (apply_transition u t))
      (inputs : Inputs) (c : TransitionCommand) where
    after_candidate-Keeps :
        (current : Attempt) (at : Instant) (p : TransitionPlan)
        → plan_transition c current at ≡ ok p
        → (r : Result TaskContract) → Keeps rely P (after_candidate matches sha256 inputs c p at r)
    unfolding after_candidate
    after_candidate-Keeps current at p h (ok _) =
        search (keeps_rules, after_apply-Keeps, writes, Records-plan inputs c current at p h)
    after_candidate-Keeps current at p h (err e) = search keeps_rules

    after_plan-Keeps :
        (row : StoredTask) (at : Instant) (r : Result TransitionPlan)
        → plan_transition c (current_attempt row.row) at ≡ r
        → Keeps rely P (after_plan matches sha256 inputs c row at r)
    unfolding after_plan
    after_plan-Keeps row at (ok p) h = after_candidate-Keeps (current_attempt row.row) at p h _
    after_plan-Keeps row at (err e) h = search (existing_or-Keeps, keeps_rules)

    with_current-Keeps :
        (row : Option StoredTask) → Keeps rely P (with_current matches sha256 inputs c row)
    unfolding with_current
    with_current-Keeps none = search (existing_or-Keeps, keeps_rules)
    with_current-Keeps (some row) =
        Keeps-if (is_stale c row.row) _ _ (existing_or-Keeps c _ (Keeps-lift _)) (
          Keeps-bind (lift (now inputs.clock)) _ (Keeps-lift _)
            (λ at. after_plan-Keeps row at (plan_transition c (current_attempt row.row) at) refl))

    pub transition_task-Keeps : Keeps rely P (transition_task matches sha256 inputs c)
    unfolding transition_task
    transition_task-Keeps =
        existing_or-Keeps c _
          (Keeps-bind _ _ (Keeps-connect (find_task c.task_id) stable) with_current-Keeps)

  classify_creation-Keeps :
      (c : CreateTaskCommand) (row : StoredTask)
      → Keeps rely P (classify_creation matches sha256 c row)
  unfolding classify_creation
  classify_creation-Keeps c row = search keeps_rules

  module _
      (writes : (r : TaskRow) (ds : List String) (t : TaskTransition)
        → IsBirth schema r t
        → TxKeeps P (create r ds t))
      (inputs : Inputs) (c : CreateTaskCommand) where
    after_create-Keeps :
        (r : Result (Unit {0})) → Keeps rely P (after_create matches sha256 inputs c r)
    unfolding after_create
    after_create-Keeps (ok _) = search (outcome_with_task-Keeps)
    after_create-Keeps (err integrity_error) =
        search (keeps_rules, found_or-Keeps, classify_creation-Keeps)
    after_create-Keeps (err _) = search keeps_rules

    after_validate-Keeps :
        (at : Instant) (r : Result TaskContract)
        → Keeps rely P (after_validate matches sha256 inputs c at r)
    unfolding after_validate
    after_validate-Keeps at (ok _) =
        search (keeps_rules, after_create-Keeps, writes, IsBirth-initial)
    after_validate-Keeps at (err e) = search keeps_rules

    pub create_task-Keeps : Keeps rely P (create_task matches sha256 inputs c)
    unfolding create_task
    create_task-Keeps =
        search (keeps_rules, found_or-Keeps, classify_creation-Keeps, after_validate-Keeps) depth 9
