-- ===== src/Execution/Model.antt =====
-- execution_lifecycle/model.py, and the rows of agent_executions and agent_execution_transitions
-- (migration 004). The JSON columns with lists hold the lists that json.dumps printed into them;
-- result_json and failure_json hold the text that the database returns.
use factory_ops.Common.{ℕ, String, Option, List, Bool, true, false, ◌≡◌, ◌↔◌, arith, ℤ}
use factory_ops.Run.Model.{Instant}

pub data ExecutionStatus : Type 0 where
  pending running succeeded failed cancelled : ExecutionStatus

pub record CreateExecutionCommand : Type 0 where
  pub run_id : String
  pub agent_role : String
  pub attempt : ℤ
  pub task_id : Option String
  pub runtime_version : String
  pub prompt_version : String
  pub model_policy_version : String
  pub tool_policy_version : String
  pub context_policy_version : String
  pub code_revision : String
  pub context_snapshot_id : String
  pub evidence_refs : List String

-- The keys of a `result` mapping.
pub record ExecutionResult : Type 0 where
  pub output_artifact_refs : List String
  pub decision_id : Option String
  pub evidence_refs : List String

-- The keys of a `failure` mapping.
pub record ExecutionFailure : Type 0 where
  pub code : String
  pub message : String
  pub recoverability : String
  pub failed_dependency_ref : Option String

pub record TransitionCommand : Type 0 where
  pub transition_request_id : String
  pub execution_id : String
  pub expected_status : ExecutionStatus
  pub expected_revision : ℤ
  pub to_status : ExecutionStatus
  pub actor_kind : String
  pub actor_id : String
  pub reason_code : String
  pub reason_message : String
  pub result : Option ExecutionResult
  pub failure : Option ExecutionFailure

-- `TransitionPlan` of execution_lifecycle/rules.py
pub record TransitionPlan : Type 0 where
  pub revision : ℤ
  pub started_at : Option Instant
  pub ended_at : Option Instant

-- A row of agent_executions.
pub record ExecutionRow : Type 0 where
  pub execution_id : String
  pub execution_key : String
  pub contract_version : String
  pub run_id : String
  pub agent_role : String
  pub attempt : ℤ
  pub task_id : Option String
  pub runtime_version : String
  pub prompt_version : String
  pub model_policy_version : String
  pub tool_policy_version : String
  pub context_policy_version : String
  pub code_revision : String
  pub context_snapshot_id : String
  pub input_evidence_refs : List String
  pub status : ExecutionStatus
  pub revision : ℕ
  pub created_at : Instant
  pub updated_at : Instant
  pub started_at : Option Instant
  pub ended_at : Option Instant
  pub status_reason_code : Option String
  pub status_reason_message : Option String
  pub output_artifact_refs : Option (List String)
  pub decision_id : Option String
  pub result_evidence_refs : Option (List String)
  pub failure_code : Option String
  pub failure_message : Option String
  pub failure_recoverability : Option String
  pub failed_dependency_ref : Option String

-- A row of agent_execution_transitions.
pub record ExecutionTransition : Type 0 where
  pub transition_id : String
  pub transition_request_id : String
  pub execution_id : String
  pub from_status : Option ExecutionStatus
  pub to_status : ExecutionStatus
  pub from_revision : Option ℕ
  pub to_revision : ℕ
  pub actor_kind : String
  pub actor_id : String
  pub reason_code : String
  pub reason_message : Option String
  pub result_json : Option String
  pub failure_json : Option String
  pub occurred_at : Instant

abbrev pub same_status : ExecutionStatus → ExecutionStatus → Bool
same_status pending pending = true
same_status running running = true
same_status succeeded succeeded = true
same_status failed failed = true
same_status cancelled cancelled = true
same_status _ _ = false

pub same_status_iff : (a b : ExecutionStatus) → (same_status a b ≡ true) ↔ (a ≡ b)
same_status_iff a b = ground arith
