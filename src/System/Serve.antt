-- ===== src/System/Serve.antt =====
-- A client of the three lifecycle services, and the invariant of their six tables.
use factory_ops.Common.{String, List, [], ◌∷◌}
use factory_ops.Session.{Result, World, attempt, pure, ◌>>=◌}
use factory_ops.Session.Keeps.{
  Guided, Keeps, TxKeeps, IsStable, keeps_rules, Keeps-bind, Keeps-attempt, Keeps-pure,
}
use factory_ops.Database.{Database, Action}
use factory_ops.Versioned.{IsBirth}
use factory_ops.Run.Model.{RunRow, RunTransition, OriginalRunCommand, ReplayRunCommand}
use factory_ops.Run.Model as RM
use factory_ops.Run.Repository as R
use factory_ops.Run.Consistency as RC
use factory_ops.Run.Consistency.Writes as RW
use factory_ops.Run.Service as RS
use factory_ops.Run.Service.Calls as RI
use factory_ops.Run.Service.Keeps as RK
use factory_ops.Execution.Model.{CreateExecutionCommand, ExecutionRow, ExecutionTransition}
use factory_ops.Execution.Model as EM
use factory_ops.Execution.Contract.{Libraries}
use factory_ops.Execution.Repository as ER
use factory_ops.Execution.Consistency as EC
use factory_ops.Execution.Service as ES
use factory_ops.Execution.Service.Keeps as EK
use factory_ops.Task.Model.{CreateTaskCommand, TaskRow, TaskTransition}
use factory_ops.Task.Model as TM
use factory_ops.Task.Repository as TR
use factory_ops.Task.Consistency as TC
use factory_ops.Task.Service as TS
use factory_ops.Task.Service.Keeps as TK
use factory_ops.System.Frame.{
  SameRuns-IsConsistent, SameExecutions-IsConsistent, SameTasks-IsConsistent, apply_run-Leaves,
  create_run-Leaves, apply_execution-Leaves, create_execution-Leaves, apply_task-Leaves,
  create_task-Leaves,
}

-- One call of a service, with the values that its clock and factories return.
pub data Request : Type 0 where
  create_original : RI.Inputs → OriginalRunCommand → Request
  create_replay : RI.Inputs → ReplayRunCommand → Request
  move_run : RI.Inputs → RM.TransitionCommand → Request
  new_execution : ES.Inputs → CreateExecutionCommand → Request
  move_execution : ES.Inputs → EM.TransitionCommand → Request
  new_task : TS.Inputs → CreateTaskCommand → Request
  move_task : TS.Inputs → TM.TransitionCommand → Request

pub data Reply : Type 0 where
  of_run : RI.RunOperationResult → Reply
  of_execution : ES.OperationResult → Reply
  of_task : TS.OperationResult → Reply

abbrev replied : {A : Type 0} → (A → Reply) → Action A → Action Reply
replied reply m = m >>= λ a. pure (reply a)

unfoldable pub call : Libraries → Request → Action Reply
call x (create_original inputs c) = replied of_run (RS.create_original_run x.matches inputs c)
call x (create_replay inputs c) = replied of_run (RS.create_replay_run x.matches inputs c)
call x (move_run inputs c) = replied of_run (RS.transition_run x.matches inputs c)
call x (new_execution inputs c) = replied of_execution (ES.create_execution x inputs c)
call x (move_execution inputs c) = replied of_execution (ES.transition_execution x inputs c)
call x (new_task inputs c) = replied of_task (TS.create_task x.matches x.sha256 inputs c)
call x (move_task inputs c) = replied of_task (TS.transition_task x.matches x.sha256 inputs c)

-- A client that makes the calls one after the other, and goes on after an exception.
unfoldable pub serve : Libraries → List Request → Action (List (Result Reply))
serve x [] = pure []
serve x (request ∷ requests) = do
  reply ← attempt (call x request)
  replies ← serve x requests
  pure (reply ∷ replies)

-- The tables of Runs, Executions and Tasks are consistent, each with its history.
pub record IsSound (db : Database) : Type 0 where
  pub runs : RC.IsConsistent db
  pub executions : EC.IsConsistent db
  pub tasks : TC.IsConsistent db

-- Other sessions keep the tables so.
abbrev pub Respects : Database → Database → Type 0
Respects s s' = IsSound s → IsSound s'

apply_run-IsSound :
    (u : R.TransitionUpdate) (t : RunTransition)
    → RC.IsMove u t
    → TxKeeps IsSound (R.apply_transition u t)
apply_run-IsSound u t m = record {
  at = λ s c a e.
      let (executions, tasks) = apply_run-Leaves u t s e in
      record {
        runs = (RW.apply_transition-IsConsistent u t m).at s c.runs a e;
        executions = SameExecutions-IsConsistent s _ executions c.executions;
        tasks = SameTasks-IsConsistent s _ tasks c.tasks;
      };
}

create_run-IsSound :
    (r : RunRow) (t : RunTransition)
    → RW.IsBirth r t
    → TxKeeps IsSound (R.insert_run_with_initial_transition r t)
create_run-IsSound r t b = record {
  at = λ s c a e.
      let (executions, tasks) = create_run-Leaves r t b s e in
      record {
        runs = (RW.insert_run-IsConsistent r t b).at s c.runs a e;
        executions = SameExecutions-IsConsistent s _ executions c.executions;
        tasks = SameTasks-IsConsistent s _ tasks c.tasks;
      };
}

apply_execution-IsSound :
    (u : ER.ExecutionUpdate) (t : ExecutionTransition)
    → EC.Records u t
    → TxKeeps IsSound (ER.apply u t)
apply_execution-IsSound u t m = record {
  at = λ s c a e.
      let (runs, tasks) = apply_execution-Leaves u t s e in
      record {
        runs = SameRuns-IsConsistent s _ runs c.runs;
        executions = (EC.apply-IsConsistent u t m).at s c.executions a e;
        tasks = SameTasks-IsConsistent s _ tasks c.tasks;
      };
}

create_execution-IsSound :
    (r : ExecutionRow) (t : ExecutionTransition)
    → IsBirth EC.schema r t
    → TxKeeps IsSound (ER.create r t)
create_execution-IsSound r t b = record {
  at = λ s c a e.
      let (runs, tasks) = create_execution-Leaves r t s e in
      record {
        runs = SameRuns-IsConsistent s _ runs c.runs;
        executions = (EC.create-IsConsistent r t b).at s c.executions a e;
        tasks = SameTasks-IsConsistent s _ tasks c.tasks;
      };
}

apply_task-IsSound :
    (u : TR.TransitionUpdate) (t : TaskTransition)
    → TC.Records u t
    → TxKeeps IsSound (TR.apply_transition u t)
apply_task-IsSound u t m = record {
  at = λ s c a e.
      let (runs, executions) = apply_task-Leaves u t s e in
      record {
        runs = SameRuns-IsConsistent s _ runs c.runs;
        executions = SameExecutions-IsConsistent s _ executions c.executions;
        tasks = (TC.apply_transition-IsConsistent u t m).at s c.tasks a e;
      };
}

create_task-IsSound :
    (r : TaskRow) (ds : List String) (t : TaskTransition)
    → IsBirth TC.schema r t
    → TxKeeps IsSound (TR.create r ds t)
create_task-IsSound r ds t b = record {
  at = λ s c a e.
      let (runs, executions) = create_task-Leaves r ds t s e in
      record {
        runs = SameRuns-IsConsistent s _ runs c.runs;
        executions = SameExecutions-IsConsistent s _ executions c.executions;
        tasks = (TC.create-IsConsistent r ds t b).at s c.tasks a e;
      };
}

-- What the transactions of the three services keep, a client of them keeps.
module _ (x : Libraries) (rely : Database → Database → Type 0) (P : Database → Type 0)
    (stable : IsStable rely P)
    (run_moves : (u : R.TransitionUpdate) (t : RunTransition)
      → RC.IsMove u t
      → TxKeeps P (R.apply_transition u t))
    (run_births : (r : RunRow) (t : RunTransition)
      → RW.IsBirth r t
      → TxKeeps P (R.insert_run_with_initial_transition r t))
    (execution_moves : (u : ER.ExecutionUpdate) (t : ExecutionTransition)
      → EC.Records u t
      → TxKeeps P (ER.apply u t))
    (execution_births : (r : ExecutionRow) (t : ExecutionTransition)
      → IsBirth EC.schema r t
      → TxKeeps P (ER.create r t))
    (task_moves : (u : TR.TransitionUpdate) (t : TaskTransition)
      → TC.Records u t
      → TxKeeps P (TR.apply_transition u t))
    (task_births : (r : TaskRow) (ds : List String) (t : TaskTransition)
      → IsBirth TC.schema r t
      → TxKeeps P (TR.create r ds t)) where
  replied-Keeps :
      {A : Type 0} (reply : A → Reply) (m : Action A)
      → Keeps rely P m
      → Keeps rely P (replied reply m)
  replied-Keeps reply m k = Keeps-bind m _ k (λ a. Keeps-pure (reply a))

  call-Keeps : (request : Request) → Keeps rely P (call x request)
  unfolding call
  call-Keeps (create_original inputs c) =
      replied-Keeps of_run _
        (RK.create_original_run-Keeps x.matches rely P stable run_births inputs c)
  call-Keeps (create_replay inputs c) =
      replied-Keeps of_run _
        (RK.create_replay_run-Keeps x.matches rely P stable run_births inputs c)
  call-Keeps (move_run inputs c) =
      replied-Keeps of_run _ (RK.transition_run-Keeps x.matches rely P stable run_moves inputs c)
  call-Keeps (new_execution inputs c) =
      replied-Keeps of_execution _
        (EK.create_execution-Keeps x rely P stable execution_births inputs c)
  call-Keeps (move_execution inputs c) =
      replied-Keeps of_execution _
        (EK.transition_execution-Keeps x rely P stable execution_moves inputs c)
  call-Keeps (new_task inputs c) =
      replied-Keeps of_task _
        (TK.create_task-Keeps x.matches x.sha256 rely P stable task_births inputs c)
  call-Keeps (move_task inputs c) =
      replied-Keeps of_task _
        (TK.transition_task-Keeps x.matches x.sha256 rely P stable task_moves inputs c)

  pub serve-Keeps : (requests : List Request) → Keeps rely P (serve x requests)
  unfolding serve
  serve-Keeps [] = search keeps_rules
  serve-Keeps (request ∷ requests) =
      Keeps-bind _ _ (Keeps-attempt _ (call-Keeps request))
        (λ r. Keeps-bind _ _ (serve-Keeps requests) (λ rs. Keeps-pure _))

-- Any sequence of calls of the three lifecycle services leaves their tables consistent, when they
-- were consistent before and the other sessions keep them so: unique keys and requests, an owner for
-- each transition, and for each Run, Execution and Task a history that is a chain of legal
-- transitions from PENDING at revision 0 to its status and revision. A lost connection may end any
-- transaction.
pub serve-IsSound :
    (x : Libraries) (requests : List Request) (w : World Database)
    → IsSound w.store
    → Guided Respects w.upcoming
    → IsSound (serve x requests w).1.store
serve-IsSound x requests w c g =
    let k =
      serve-Keeps x Respects IsSound (λ s s' r p. r p) apply_run-IsSound create_run-IsSound
        apply_execution-IsSound create_execution-IsSound apply_task-IsSound create_task-IsSound
        requests in
    (k.at w (record { now = c; later = g })).now
