-- ===== src/Database.antt =====
-- The tables of the agent service's MySQL schema (event_ingress/migrations) that the modelled
-- services read or write. A table is the list of its rows, the newest first.
use factory_ops.Common.{List}
use factory_ops.Run.Model.{RunRow, RunTransition}
use factory_ops.Task.Model.{TaskRow, TaskDependency, TaskTransition, LeaseRow}
use factory_ops.Execution.Model.{ExecutionRow, ExecutionTransition}
use factory_ops.Coordinator.Model.{StartReceipt}
use factory_ops.Worker.Model.{StartRequestRow, CompletionRequestRow}
use factory_ops.Ingress.Model.{InboxRow, RejectionRow}
use factory_ops.Session

pub record Database : Type 0 where
  pub inbox : List InboxRow
  pub rejections : List RejectionRow
  pub runs : List RunRow
  pub run_transitions : List RunTransition
  pub executions : List ExecutionRow
  pub execution_transitions : List ExecutionTransition
  pub tasks : List TaskRow
  pub task_dependencies : List TaskDependency
  pub task_transitions : List TaskTransition
  pub leases : List LeaseRow
  pub start_receipts : List StartReceipt
  pub worker_starts : List StartRequestRow
  pub worker_completions : List CompletionRequestRow

abbrev pub Action : Type 0 → Type 0
Action = Session.Action Database

abbrev pub Tx : Type 0 → Type 0
Tx = Session.Tx Database
