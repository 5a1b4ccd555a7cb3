-- ===== src/Worker/Model.antt =====
-- The data of worker_task_execution.py, and the rows of worker_task_execution_start_requests
-- and worker_task_execution_completion_requests (migrations 007 and 008). A `result` or a `failure` has
-- the keys that `_validate_completion` asks for, with lists or texts behind them.
use factory_ops.Common.{String, Option}
use factory_ops.Execution.Model.{ExecutionResult, ExecutionFailure}
use factory_ops.Run.Model.{Instant, OperationOutcome}

pub record StartWorkerExecutionCommand : Type 0 where
  pub request_id : String
  pub task_id : String
  pub owner_id : String
  pub lease_token : String
  pub runtime_version : String
  pub prompt_version : String
  pub model_policy_version : String
  pub tool_policy_version : String
  pub context_policy_version : String
  pub code_revision : String

pub record WorkerExecutionResult : Type 0 where
  pub outcome : OperationOutcome
  pub task_id : Option String
  pub execution_id : Option String

-- A row of worker_task_execution_start_requests.
pub record StartRequestRow : Type 0 where
  pub request_id : String
  pub command_hash : String
  pub task_id : String
  pub execution_id : String
  pub created_at : Instant

-- The identifiers that the factories and `_new_id` draw in one call of `start`.
pub record StartIds : Type 0 where
  pub execution_id : String
  pub created_id : String
  pub created_request_id : String
  pub started_id : String
  pub started_request_id : String
  pub task_transition_id : String
  pub task_request_id : String

pub record CompleteWorkerExecutionCommand : Type 0 where
  pub request_id : String
  pub task_id : String
  pub execution_id : String
  pub owner_id : String
  pub lease_token : String
  pub final_status : String
  pub result : Option ExecutionResult
  pub failure : Option ExecutionFailure

-- A row of worker_task_execution_completion_requests.
pub record CompletionRequestRow : Type 0 where
  pub request_id : String
  pub command_hash : String
  pub task_id : String
  pub execution_id : String
  pub final_status : String
  pub created_at : Instant

-- The identifiers that the factory and `_new_id` draw in one call of `complete`.
pub record CompletionIds : Type 0 where
  pub execution_transition_id : String
  pub execution_request_id : String
  pub task_transition_id : String
  pub task_request_id : String
