-- ===== src/Task/Model.antt =====
-- task_lifecycle/model.py, and the rows of agent_tasks, agent_task_dependencies,
-- agent_task_transitions and agent_task_leases (migrations 003 and 006). The JSON column
-- evidence_refs holds the list that json.dumps printed into it.
use factory_ops.Common.{ℕ, String, Option, List, Bool, true, false, ◌≡◌, ◌↔◌, arith, ℤ}
use factory_ops.Run.Model.{Instant}

pub data TaskStatus : Type 0 where
  pending running succeeded failed cancelled skipped : TaskStatus

pub record CreateTaskCommand : Type 0 where
  pub task_request_id : String
  pub run_id : String
  pub task_type : String
  pub target_agent_role : String
  pub created_by_execution_id : String
  pub priority : ℤ
  pub context_snapshot_id : String
  pub evidence_refs : List String
  pub dependency_task_ids : List String

pub record TransitionCommand : Type 0 where
  pub transition_request_id : String
  pub task_id : String
  pub expected_status : TaskStatus
  pub expected_revision : ℤ
  pub to_status : TaskStatus
  pub actor_kind : String
  pub actor_id : String
  pub reason_code : String
  pub reason_message : String
  pub execution_id : Option String
  pub completion_execution_id : Option String
  pub failure_code : Option String
  pub failure_message : Option String
  pub failure_recoverability : Option String

-- `TransitionPlan` of task_lifecycle/rules.py. A revision may be negative until it is compared.
pub record TransitionPlan : Type 0 where
  pub to_revision : ℤ
  pub started_at : Option Instant
  pub ended_at : Option Instant
  pub current_execution_id : Option String
  pub attempt_count : ℕ

-- A row of agent_tasks.
pub record TaskRow : Type 0 where
  pub task_id : String
  pub task_request_id : String
  pub task_key : String
  pub contract_version : String
  pub run_id : String
  pub task_type : String
  pub target_agent_role : String
  pub created_by_execution_id : String
  pub priority : ℤ
  pub context_snapshot_id : String
  pub evidence_refs : List String
  pub status : TaskStatus
  pub revision : ℕ
  pub created_at : Instant
  pub updated_at : Instant
  pub started_at : Option Instant
  pub ended_at : Option Instant
  pub status_reason_code : Option String
  pub status_reason_message : Option String
  pub current_execution_id : Option String
  pub attempt_count : ℕ
  pub completion_execution_id : Option String
  pub failure_execution_id : Option String
  pub failure_code : Option String
  pub failure_message : Option String
  pub failure_recoverability : Option String

-- A row of agent_task_dependencies.
pub record TaskDependency : Type 0 where
  pub task_id : String
  pub dependency_task_id : String
  pub ordinal : ℕ

-- A row of agent_task_transitions.
pub record TaskTransition : Type 0 where
  pub transition_id : String
  pub transition_request_id : String
  pub task_id : String
  pub from_status : Option TaskStatus
  pub to_status : TaskStatus
  pub from_revision : Option ℕ
  pub to_revision : ℕ
  pub actor_kind : String
  pub actor_id : String
  pub reason_code : String
  pub reason_message : Option String
  pub execution_id : Option String
  pub attempt_count : ℕ
  pub completion_execution_id : Option String
  pub failure_code : Option String
  pub failure_message : Option String
  pub failure_recoverability : Option String
  pub occurred_at : Instant

-- A row of agent_task_leases.
pub record LeaseRow : Type 0 where
  pub task_id : String
  pub owner_id : String
  pub lease_token : String
  pub leased_at : Instant
  pub expires_at : Instant

abbrev pub same_status : TaskStatus → TaskStatus → Bool
same_status pending pending = true
same_status running running = true
same_status succeeded succeeded = true
same_status failed failed = true
same_status cancelled cancelled = true
same_status skipped skipped = true
same_status _ _ = false

pub same_status_iff : (a b : TaskStatus) → (same_status a b ≡ true) ↔ (a ≡ b)
same_status_iff a b = ground arith
