-- ===== src/System/Frame.antt =====
-- What each write transaction of one service leaves alone: the tables of the other services.
use factory_ops.Common.{◌≡◌, ap, ◌∙◌, String, List, refl}
use factory_ops.Session.{Tx, ok}
use factory_ops.Database.{Database}
use factory_ops.Run.Model.{RunRow, RunTransition}
use factory_ops.Run.Repository as R
use factory_ops.Run.Consistency as RC
use factory_ops.Run.Consistency.Writes as RW
use factory_ops.Execution.Model.{ExecutionRow, ExecutionTransition}
use factory_ops.Execution.Repository as ER
use factory_ops.Execution.Consistency as EC
use factory_ops.Task.Model.{TaskRow, TaskTransition}
use factory_ops.Task.Repository as TR
use factory_ops.Task.Consistency as TC

-- The same rows in the tables of Runs, of Executions, and of Tasks.
abbrev pub SameRuns : Database → Database → Type 0
SameRuns s s' = (s'.runs ≡ s.runs) × (s'.run_transitions ≡ s.run_transitions)

abbrev pub SameExecutions : Database → Database → Type 0
SameExecutions s s' =
    (s'.executions ≡ s.executions) × (s'.execution_transitions ≡ s.execution_transitions)

abbrev pub SameTasks : Database → Database → Type 0
SameTasks s s' = (s'.tasks ≡ s.tasks) × (s'.task_transitions ≡ s.task_transitions)

pub SameRuns-IsConsistent :
    (s s' : Database) → SameRuns s s' → RC.IsConsistent s → RC.IsConsistent s'
SameRuns-IsConsistent s s' (rows, steps) c = record {
  ids = rw (rows) c.ids;
  triggers = rw (rows) c.triggers;
  replay_requests = rw (rows) c.replay_requests;
  requests = rw (steps) c.requests;
  slots = rw (steps) c.slots;
  owned = rw (rows, steps) c.owned;
  recorded = rw (rows, steps) c.recorded;
}

pub SameExecutions-IsConsistent :
    (s s' : Database) → SameExecutions s s' → EC.IsConsistent s → EC.IsConsistent s'
SameExecutions-IsConsistent s s' (rows, steps) c = record {
  versioned = rw (rows, steps) c.versioned;
  execution_keys = rw (rows) c.execution_keys;
}

pub SameTasks-IsConsistent :
    (s s' : Database) → SameTasks s s' → TC.IsConsistent s → TC.IsConsistent s'
SameTasks-IsConsistent s s' (rows, steps) c = record {
  versioned = rw (rows, steps) c.versioned;
  task_requests = rw (rows) c.task_requests;
  task_keys = rw (rows) c.task_keys;
}

abbrev Leaves : (Database → Database → Type 0) → Tx Database (Unit {0}) → Type 0
Leaves Same body = (s : Database) → (body s).0 ≡ ok tt → Same s (body s).1

pub apply_run-Leaves :
    (u : R.TransitionUpdate) (t : RunTransition)
    → Leaves (λ s s'. SameExecutions s s' × SameTasks s s') (R.apply_transition u t)
apply_run-Leaves u t s h =
    let (mid, hu, ht) = RW.apply_transition-ok u t s h in
    let em = (RW.update_run-ok u s mid hu).1 in
    let e = (RW.insert_transition-ok t mid (R.apply_transition u t s).1 ht).3 in
    rw (e, em) ((refl, refl), (refl, refl))

pub create_run-Leaves :
    (r : RunRow) (t : RunTransition)
    → RW.IsBirth r t
    → Leaves
        (λ s s'. SameExecutions s s' × SameTasks s s')
        (R.insert_run_with_initial_transition r t)
create_run-Leaves r t b s h =
    let (mid, hr, ht) = RW.insert_run_with_initial_transition-ok r t b s h in
    let em = (RW.insert_run-ok r s mid hr).1 in
    let e = (RW.insert_transition-ok t mid (R.insert_run_with_initial_transition r t s).1 ht).3 in
    rw (e, em) ((refl, refl), (refl, refl))

pub apply_execution-Leaves :
    (u : ER.ExecutionUpdate) (t : ExecutionTransition)
    → Leaves (λ s s'. SameRuns s s' × SameTasks s s') (ER.apply u t)
apply_execution-Leaves u t s h =
    let (mid, hu, ht) = EC.apply-ok u t s h in
    let em = (EC.update_execution-ok u s mid hu).1 in
    let e = (EC.insert_transition-ok t mid (ER.apply u t s).1 ht).4 in
    rw (e, em) ((refl, refl), (refl, refl))

pub create_execution-Leaves :
    (r : ExecutionRow) (t : ExecutionTransition)
    → Leaves (λ s s'. SameRuns s s' × SameTasks s s') (ER.create r t)
create_execution-Leaves r t s h =
    let (mid, hr, ht) = EC.create-ok r t s h in
    let em = (EC.insert_execution-ok r s mid hr).2 in
    let e = (EC.insert_transition-ok t mid (ER.create r t s).1 ht).4 in
    rw (e, em) ((refl, refl), (refl, refl))

pub apply_task-Leaves :
    (u : TR.TransitionUpdate) (t : TaskTransition)
    → Leaves (λ s s'. SameRuns s s' × SameExecutions s s') (TR.apply_transition u t)
apply_task-Leaves u t s h =
    let (mid, hu, ht) = TC.apply_transition-ok u t s h in
    let em = (TC.update_task-ok u s mid hu).1 in
    let e = (TC.insert_transition-ok t mid (TR.apply_transition u t s).1 ht).4 in
    rw (e, em) ((refl, refl), (refl, refl))

pub create_task-Leaves :
    (r : TaskRow) (ds : List String) (t : TaskTransition)
    → Leaves (λ s s'. SameRuns s s' × SameExecutions s s') (TR.create r ds t)
create_task-Leaves r ds t s h =
    let (mid, linked, hr, same, ht) = TC.create-ok r ds t s h in
    let em = (TC.insert_task-ok r s mid hr).3 in
    let e = (TC.insert_transition-ok t linked (TR.create r ds t s).1 ht).4 in
    let runs : linked.runs ≡ s.runs =
      ap (λ (d : Database). d.runs) same ∙ ap (λ (d : Database). d.runs) em in
    let run_steps : linked.run_transitions ≡ s.run_transitions =
      ap (λ (d : Database). d.run_transitions) same ∙ ap (λ (d : Database). d.run_transitions) em in
    let executions : linked.executions ≡ s.executions =
      ap (λ (d : Database). d.executions) same ∙ ap (λ (d : Database). d.executions) em in
    let execution_steps : linked.execution_transitions ≡ s.execution_transitions =
      ap (λ (d : Database). d.execution_transitions) same
      ∙ ap (λ (d : Database). d.execution_transitions) em in
    rw e ((runs, run_steps), (executions, execution_steps))
