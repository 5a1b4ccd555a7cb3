-- ===== src/Run/Service/Keeps.antt =====
-- What the two write transactions keep, the operations of the service keep, under any
-- interference and any lost connection.
use factory_ops.Common.{◌≡◌, refl, String, Option, none, some, Bool}
use factory_ops.Session.{Result, ok, err, integrity_error, conditional_update_miss, lift}
use factory_ops.Session.Keeps.{
  Keeps, TxKeeps, IsStable, keeps_rules, Keeps-lift, Keeps-connect, Keeps-bind, Keeps-if,
}
use factory_ops.Session.Lookup.{found_or-Keeps}
use factory_ops.Database.{Database, Action}
use factory_ops.Run.Model.{
  Instant, OperationOutcome, concurrency_conflict, TransitionCommand, TransitionPlan, RunRow,
  RunTransition, RunKind, OriginalRunCommand, ReplayRunCommand, RunProvenance,
}
use factory_ops.Run.Rules.{plan_transition}
use factory_ops.Run.Rules.Plan.{plan_transition-IsPlan}
use factory_ops.Run.Contract.{RunContract, to_contract}
use factory_ops.Run.Repository.{
  find_run, TransitionUpdate, apply_transition, insert_run_with_initial_transition,
}
use factory_ops.Run.Consistency.{IsMove}
use factory_ops.Run.Consistency.Writes.{IsBirth}
use factory_ops.Run.Service.Calls.{Inputs, now, RunOperationResult, get_run, outcome_with_run}
use factory_ops.Run.Service.Create.{
  initial_run, initial_transition, classify_existing_creation, created_result, after_insert,
  after_check, create_or_classify, create_original_run, after_lineage, create_replay_run,
}
use factory_ops.Run.Service.Transition.{
  transition_update, transition_row, classify_existing_transition, existing_or,
  classify_failed_transition, after_apply, after_candidate, after_plan, with_current,
  transition_run, is_stale, transitioned_result, unless_conflict,
}

pub IsMove-plan :
    (inputs : Inputs) (c : TransitionCommand) (current : Option Instant) (at : Instant)
    (p : TransitionPlan)
    → plan_transition c current at ≡ ok p
    → IsMove (transition_update c p at) (transition_row inputs c p at)
unfolding transition_update transition_row
IsMove-plan inputs c current at p h =
    let q = plan_transition-IsPlan c current at p h in
    (refl, refl, refl, refl, refl, q.to_revision, rw (q.from_status, q.to_status) at (q.legal))

module _ (matches : String → String → Bool) (rely : Database → Database → Type 0)
    (P : Database → Type 0) (stable : IsStable rely P) where
  pub get_run-Keeps : (id : String) → Keeps rely P (get_run matches id)
  unfolding get_run
  get_run-Keeps id = search keeps_rules

  pub outcome_with_run-Keeps :
      (o : OperationOutcome) (id : String) → Keeps rely P (outcome_with_run matches o id)
  unfolding outcome_with_run
  outcome_with_run-Keeps o id = search (keeps_rules, get_run-Keeps)

  classify_existing_transition-Keeps :
      (c : TransitionCommand) (t : RunTransition)
      → Keeps rely P (classify_existing_transition matches c t)
  unfolding classify_existing_transition
  classify_existing_transition-Keeps c t = search (outcome_with_run-Keeps)

  existing_or-Keeps :
      (c : TransitionCommand) (k : Action RunOperationResult)
      → Keeps rely P k
      → Keeps rely P (existing_or matches c k)
  unfolding existing_or
  existing_or-Keeps c k h = search (keeps_rules, found_or-Keeps, classify_existing_transition-Keeps)

  pub classify_failed_transition-Keeps :
      (c : TransitionCommand) → Keeps rely P (classify_failed_transition matches c)
  unfolding classify_failed_transition
  classify_failed_transition-Keeps c = search (existing_or-Keeps, outcome_with_run-Keeps)

  transitioned_result-Keeps :
      (run : Option RunContract) → Keeps rely P (transitioned_result matches run)
  transitioned_result-Keeps none = search keeps_rules
  transitioned_result-Keeps (some run) = search keeps_rules

  unless_conflict-Keeps :
      (o : OperationOutcome) (r : RunOperationResult) → Keeps rely P (unless_conflict matches o r)
  unless_conflict-Keeps concurrency_conflict r = search keeps_rules
  unless_conflict-Keeps _ r = search keeps_rules

  after_apply-Keeps :
      (c : TransitionCommand) (r : Result (Unit {0})) → Keeps rely P (after_apply matches c r)
  unfolding after_apply
  after_apply-Keeps c (ok _) = search (keeps_rules, get_run-Keeps, transitioned_result-Keeps)
  after_apply-Keeps c (err conditional_update_miss) = search (classify_failed_transition-Keeps)
  after_apply-Keeps c (err integrity_error) =
      search (keeps_rules, classify_failed_transition-Keeps, unless_conflict-Keeps)
  after_apply-Keeps c (err _) = search keeps_rules

  -- The writes that the caller knows to be moves.
  module _
      (writes : (u : TransitionUpdate) (t : RunTransition)
        → IsMove u t
        → TxKeeps P (apply_transition u t))
      (inputs : Inputs) (c : TransitionCommand) where
    after_candidate-Keeps :
        (current : Option Instant) (at : Instant) (p : TransitionPlan)
        → plan_transition c current at ≡ ok p
        → (r : Result RunContract) → Keeps rely P (after_candidate matches inputs c p at r)
    unfolding after_candidate
    after_candidate-Keeps current at p h (ok _) =
        search (keeps_rules, after_apply-Keeps, writes, IsMove-plan inputs c current at p h)
    after_candidate-Keeps current at p h (err e) = search (existing_or-Keeps, keeps_rules)

    after_plan-Keeps :
        (row : RunRow) (at : Instant) (r : Result TransitionPlan)
        → plan_transition c row.started_at at ≡ r
        → Keeps rely P (after_plan matches inputs c row at r)
    unfolding after_plan
    after_plan-Keeps row at (ok p) h = after_candidate-Keeps row.started_at at p h _
    after_plan-Keeps row at (err e) h = search (existing_or-Keeps, keeps_rules)

    with_current-Keeps : (row : Option RunRow) → Keeps rely P (with_current matches inputs c row)
    unfolding with_current
    with_current-Keeps none = search (existing_or-Keeps, keeps_rules)
    with_current-Keeps (some row) =
        Keeps-if (is_stale matches c row) _ _ (classify_failed_transition-Keeps c) (
          Keeps-bind (lift (now inputs.clock)) _ (Keeps-lift _)
            (λ at. after_plan-Keeps row at (plan_transition c row.started_at at) refl))

    pub transition_run-Keeps : Keeps rely P (transition_run matches inputs c)
    unfolding transition_run
    transition_run-Keeps =
        existing_or-Keeps c _
          (Keeps-bind _ _ (Keeps-connect (find_run c.run_id) stable) with_current-Keeps)

IsBirth-initial :
    (inputs : Inputs) (kind : RunKind) (provenance : RunProvenance) (at : Instant) (root : String)
    (trigger replayed_from request : Option String)
    → IsBirth
        (initial_run inputs.run_id kind provenance at root trigger replayed_from request)
        (initial_transition inputs at)
unfolding initial_run initial_transition
IsBirth-initial inputs kind provenance at root trigger replayed_from request =
    (refl, refl, refl, refl, refl, refl)

module _ (matches : String → String → Bool) (rely : Database → Database → Type 0)
    (P : Database → Type 0) (stable : IsStable rely P) where
  classify_existing_creation-Keeps :
      (same : RunRow → Bool) (row : RunRow)
      → Keeps rely P (classify_existing_creation matches same row)
  unfolding classify_existing_creation
  classify_existing_creation-Keeps same row = search keeps_rules

  created_result-Keeps : (o : Option RunRow) → Keeps rely P (created_result matches o)
  created_result-Keeps none = search keeps_rules
  created_result-Keeps (some row) = search keeps_rules

  module _ (find_existing : Action (Option RunRow)) (k : Keeps rely P find_existing)
      (same : RunRow → Bool) where
    after_insert-Keeps :
        (run : RunRow) (r : Result (Unit {0}))
        → Keeps rely P (after_insert matches run find_existing same r)
    unfolding after_insert
    after_insert-Keeps run (ok _) = search (keeps_rules, created_result-Keeps)
    after_insert-Keeps run (err integrity_error) =
        search (keeps_rules, found_or-Keeps, classify_existing_creation-Keeps)
    after_insert-Keeps run (err _) = search keeps_rules

    after_check-Keeps :
        (run : RunRow) (t : RunTransition) (r : Result RunContract)
        → TxKeeps P (insert_run_with_initial_transition run t)
        → Keeps rely P (after_check matches run t find_existing same r)
    unfolding after_check
    after_check-Keeps run t (ok _) w = search (keeps_rules, after_insert-Keeps)
    after_check-Keeps run t (err e) w =
        search (keeps_rules, found_or-Keeps, classify_existing_creation-Keeps)

  module _
      (writes : (r : RunRow) (t : RunTransition)
        → IsBirth r t
        → TxKeeps P (insert_run_with_initial_transition r t))
      (inputs : Inputs) where
    create_or_classify-Keeps :
        (run : RunRow) (t : RunTransition) (find_existing : Action (Option RunRow))
        (same : RunRow → Bool)
        → IsBirth run t
        → Keeps rely P find_existing
        → Keeps rely P (create_or_classify matches run t find_existing same)
    unfolding create_or_classify
    create_or_classify-Keeps run t find_existing same b k =
        after_check-Keeps find_existing k same run t (to_contract matches run) (writes run t b)

    pub create_original_run-Keeps :
        (c : OriginalRunCommand) → Keeps rely P (create_original_run matches inputs c)
    unfolding create_original_run
    create_original_run-Keeps c =
        search
          (
            keeps_rules, found_or-Keeps, classify_existing_creation-Keeps, create_or_classify-Keeps,
            IsBirth-initial,
          )
          depth 9

    after_lineage-Keeps :
        (find_existing : Action (Option RunRow)) (classify : RunRow → Action RunOperationResult)
        (create : Action RunOperationResult) (r : Result (Unit {0}))
        → Keeps rely P find_existing
        → ((row : RunRow) → Keeps rely P (classify row))
        → Keeps rely P create
        → Keeps rely P (after_lineage matches find_existing classify create r)
    after_lineage-Keeps find_existing classify create (ok _) kf kc k = k
    after_lineage-Keeps find_existing classify create (err e) kf kc k =
        search (keeps_rules, found_or-Keeps)

    pub create_replay_run-Keeps :
        (c : ReplayRunCommand) → Keeps rely P (create_replay_run matches inputs c)
    unfolding create_replay_run
    create_replay_run-Keeps c =
        search
          (
            keeps_rules, found_or-Keeps, after_lineage-Keeps, classify_existing_creation-Keeps,
            create_or_classify-Keeps, IsBirth-initial,
          )
          depth 9
