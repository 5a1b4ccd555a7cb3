-- ===== src/Run/Model.antt =====
-- run_lifecycle/model.py, and the rows of agent_runs and agent_run_transitions
-- (event_ingress/migrations/002_create_agent_run_lifecycle.sql). A datetime is its UTC instant.
use factory_ops.Common.{ℕ, String, Option, Bool, true, false, ◌≡◌, ◌↔◌, arith, ℤ}

-- An instant in UTC, in microseconds.
abbrev pub Instant : Type 0
Instant = ℕ

pub data RunKind : Type 0 where
  original replay : RunKind

pub data RunStatus : Type 0 where
  pending running waiting_for_approval suspended succeeded failed cancelled : RunStatus

pub data ActorKind : Type 0 where
  system coordinator operator recovery_worker : ActorKind

pub data OperationOutcome : Type 0 where
  applied duplicate_identical duplicate_conflicting concurrency_conflict : OperationOutcome

pub record RunProvenance : Type 0 where
  pub incident_id : String
  pub runtime_version : String
  pub workflow_version : String
  pub prompt_set_version : String
  pub model_policy_version : String
  pub tool_policy_version : String
  pub context_policy_version : String
  pub code_revision : String

pub record OriginalRunCommand : Type 0 where
  pub trigger_event_id : String
  pub provenance : RunProvenance

pub record ReplayRunCommand : Type 0 where
  pub replay_request_id : String
  pub original_run_id : String
  pub replayed_from_run_id : String
  pub provenance : RunProvenance

pub record TransitionCommand : Type 0 where
  pub transition_request_id : String
  pub run_id : String
  pub expected_status : RunStatus
  pub expected_revision : ℤ
  pub to_status : RunStatus
  pub actor_kind : ActorKind
  pub actor_id : String
  pub reason_code : String
  pub reason_message : Option String
  pub checkpoint_id : Option String

pub record TransitionPlan : Type 0 where
  pub from_status : RunStatus
  pub to_status : RunStatus
  pub from_revision : ℕ
  pub to_revision : ℕ
  pub started_at : Option Instant
  pub ended_at : Option Instant
  pub occurred_at : Instant
  pub checkpoint_id : Option String

-- A row of agent_runs. The columns of the provenance stand together.
pub record RunRow : Type 0 where
  pub run_id : String
  pub contract_version : String
  pub run_kind : RunKind
  pub original_run_id : String
  pub trigger_event_id : Option String
  pub replayed_from_run_id : Option String
  pub replay_request_id : Option String
  pub provenance : RunProvenance
  pub status : RunStatus
  pub revision : ℕ
  pub created_at : Instant
  pub updated_at : Instant
  pub started_at : Option Instant
  pub ended_at : Option Instant
  pub status_reason_code : Option String
  pub status_reason_message : Option String
  pub coordinator_execution_id : Option String
  pub latest_checkpoint_id : Option String
  pub agent_execution_count : ℕ
  pub task_count : ℕ
  pub completed_task_count : ℕ

-- A row of agent_run_transitions.
pub record RunTransition : Type 0 where
  pub transition_id : String
  pub transition_request_id : String
  pub run_id : String
  pub from_status : Option RunStatus
  pub to_status : RunStatus
  pub from_revision : Option ℕ
  pub to_revision : ℕ
  pub actor_kind : ActorKind
  pub actor_id : String
  pub reason_code : String
  pub reason_message : Option String
  pub checkpoint_id : Option String
  pub occurred_at : Instant

abbrev pub same_status : RunStatus → RunStatus → Bool
same_status pending pending = true
same_status running running = true
same_status waiting_for_approval waiting_for_approval = true
same_status suspended suspended = true
same_status succeeded succeeded = true
same_status failed failed = true
same_status cancelled cancelled = true
same_status _ _ = false

pub same_status_iff : (a b : RunStatus) → (same_status a b ≡ true) ↔ (a ≡ b)
same_status_iff a b = ground arith

abbrev pub same_kind : RunKind → RunKind → Bool
same_kind original original = true
same_kind replay replay = true
same_kind _ _ = false

pub same_kind_iff : (a b : RunKind) → (same_kind a b ≡ true) ↔ (a ≡ b)
same_kind_iff a b = ground arith

abbrev pub same_actor : ActorKind → ActorKind → Bool
same_actor system system = true
same_actor coordinator coordinator = true
same_actor operator operator = true
same_actor recovery_worker recovery_worker = true
same_actor _ _ = false

pub same_actor_iff : (a b : ActorKind) → (same_actor a b ≡ true) ↔ (a ≡ b)
same_actor_iff a b = ground arith
