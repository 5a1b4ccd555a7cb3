-- ===== src/Task/Contract.antt =====
-- The Agent Task Contract: `validate_task` of contracts/agent_task/validator.py with its
-- v1.0.0/schema.json, and the rendering of a row by `_to_contract` in task_lifecycle/service.py.
--
-- A timestamp of the contract is kept as the instant that `_time` prints. The `pattern` keyword of
-- jsonschema and the hash of hashlib are parameters.
use factory_ops.Common.{
  ℕ, String, Option, none, some, List, [], ◌∷◌, Bool, true, false, ◌&&◌, ◌||◌, not, if◌then◌else◌,
  leb, ltb, ◌==◌, ◌=s◌, contains, all, length, present, absent, ℤ, pos, negsuc, ◌+s◌, unique,
  same_option,
}
use factory_ops.Session.{Result, ok, err, persistence_integrity_error, agent_task_validation_error}
use factory_ops.Run.Model.{Instant}
use factory_ops.Run.Contract.{sized}
use factory_ops.Task.Model.{TaskStatus, pending, running, succeeded, failed, same_status, TaskRow}
use factory_ops.Task.Repository.{StoredTask}

pub record TaskIdentity : Type 0 where
  pub task_id : String
  pub task_request_id : String
  pub task_key : String
  pub run_id : String

pub record TaskAssignment : Type 0 where
  pub task_type : String
  pub target_agent_role : String
  pub created_by_execution_id : String
  pub priority : ℤ

pub record TaskInput : Type 0 where
  pub context_snapshot_id : String
  pub evidence_refs : List String
  pub dependency_task_ids : List String

pub record TaskReason : Type 0 where
  pub code : String
  pub message : Option String

pub record TaskLifecycle : Type 0 where
  pub status : TaskStatus
  pub revision : ℕ
  pub created_at : Instant
  pub updated_at : Instant
  pub started_at : Option Instant
  pub ended_at : Option Instant
  pub status_reason : Option TaskReason

pub record TaskExecution : Type 0 where
  pub current_execution_id : Option String
  pub attempt_count : ℕ

pub record TaskFailure : Type 0 where
  pub failed_execution_id : String
  pub code : Option String
  pub message : Option String
  pub recoverability : Option String

-- `completion` holds the `successful_execution_id`.
pub record TaskContract : Type 0 where
  pub contract_version : String
  pub identity : TaskIdentity
  pub assignment : TaskAssignment
  pub input : TaskInput
  pub lifecycle : TaskLifecycle
  pub execution : TaskExecution
  pub completion : Option String
  pub failure : Option TaskFailure

unfoldable pub compute_task_key : (String → String) → String → String → String
compute_task_key sha256 run_id task_request_id =
    "TAK-" +s sha256 ("v1\n" +s run_id +s "\n" +s task_request_id)

abbrev reason_of : Option String → Option String → Option TaskReason
reason_of none message = none
reason_of (some code) message = some (record { code = code; message = message })

-- An id that is not empty, as `if row[…]` tests it.
abbrev named : Option String → Option String
named none = none
named (some s) = if s =s "" then none else some s

unfoldable pub failure_of : TaskRow → Option TaskFailure
failure_of row = failure (named row.failure_execution_id)
  where
    failure : Option String → Option TaskFailure
    failure none = none
    failure (some id) = some (record {
      failed_execution_id = id;
      code = row.failure_code;
      message = row.failure_message;
      recoverability = row.failure_recoverability;
    })

-- The contract that `_to_contract` builds, before it validates it.
unfoldable pub contract_of : StoredTask → TaskContract
contract_of task = record {
  contract_version = task.row.contract_version;
  identity = record {
    task_id = task.row.task_id;
    task_request_id = task.row.task_request_id;
    task_key = task.row.task_key;
    run_id = task.row.run_id;
  };
  assignment = record {
    task_type = task.row.task_type;
    target_agent_role = task.row.target_agent_role;
    created_by_execution_id = task.row.created_by_execution_id;
    priority = task.row.priority;
  };
  input = record {
    context_snapshot_id = task.row.context_snapshot_id;
    evidence_refs = task.row.evidence_refs;
    dependency_task_ids = task.dependency_task_ids;
  };
  lifecycle = record {
    status = task.row.status;
    revision = task.row.revision;
    created_at = task.row.created_at;
    updated_at = task.row.updated_at;
    started_at = task.row.started_at;
    ended_at = task.row.ended_at;
    status_reason = reason_of task.row.status_reason_code task.row.status_reason_message;
  };
  execution = record {
    current_execution_id = task.row.current_execution_id;
    attempt_count = task.row.attempt_count;
  };
  completion = named task.row.completion_execution_id;
  failure = failure_of task.row;
}

-- `ROLE_BY_TYPE`
abbrev pub role_by_type : List (String × String)
role_by_type =
    ("QUALITY_ANALYSIS", "quality")
    ∷ ("PRODUCTION_ANALYSIS", "production")
    ∷ ("SLA_ANALYSIS", "sla")
    ∷ ("RISK_ASSESSMENT", "risk")
    ∷ []

unfoldable pub role_fits : String → String → List (String × String) → Bool
role_fits task_type role [] = false
role_fits task_type role ((key, value) ∷ rest) =
    let behind = role_fits task_type role rest in if key =s task_type then role =s value else behind

module _ (matches : String → String → Bool) where
  abbrev reference : String → Bool
  reference s = sized 1 255 s && matches "^[A-Za-z0-9][A-Za-z0-9._:/-]*$" s

  abbrev execution_id : String → Bool
  execution_id s = matches "^EXE-[0-9A-F]{32}$" s

  abbrev task_id : String → Bool
  task_id s = matches "^TSK-[0-9A-F]{32}$" s

  abbrev optional : {A : Type 0} → (A → Bool) → Option A → Bool
  optional p none = true
  optional p (some a) = p a

  -- A property that may not be null.
  abbrev required : {A : Type 0} → (A → Bool) → Option A → Bool
  required p none = false
  required p (some a) = p a

  abbrev percentage : ℤ → Bool
  percentage (pos n) = leb n 100
  percentage (negsuc n) = false

  unfoldable pub identity_schema : TaskIdentity → Bool
  identity_schema i =
      task_id i.task_id
      && matches "^TQR-[0-9A-F]{32}$" i.task_request_id
      && matches "^TAK-[0-9A-F]{64}$" i.task_key
      && matches "^RUN-[0-9A-F]{32}$" i.run_id

  unfoldable pub assignment_schema : TaskAssignment → Bool
  assignment_schema a =
      contains
        ("QUALITY_ANALYSIS" ∷ "PRODUCTION_ANALYSIS" ∷ "SLA_ANALYSIS" ∷ "RISK_ASSESSMENT" ∷ [])
        a.task_type
      && contains ("quality" ∷ "production" ∷ "sla" ∷ "risk" ∷ []) a.target_agent_role
      && execution_id a.created_by_execution_id
      && percentage a.priority

  unfoldable pub input_schema : TaskInput → Bool
  input_schema i =
      matches "^CTX-[0-9A-F]{32}$" i.context_snapshot_id
      && leb (length i.evidence_refs) 64
      && all reference i.evidence_refs
      && leb (length i.dependency_task_ids) 64
      && all task_id i.dependency_task_ids

  abbrev coded : String → Bool
  coded s = sized 3 128 s && matches "^[A-Z][A-Z0-9_]*$" s

  abbrev reason_schema : TaskReason → Bool
  reason_schema r = coded r.code && required (sized 1 500) r.message

  abbrev failure_schema : TaskFailure → Bool
  failure_schema f =
      execution_id f.failed_execution_id
      && required coded f.code
      && required (sized 1 600) f.message
      && required (contains ("retryable" ∷ "non_retryable" ∷ [])) f.recoverability

  abbrev attempted : TaskExecution → Bool
  attempted e = required execution_id e.current_execution_id && leb 1 e.attempt_count

  -- The rules of `allOf`, one for each status.
  unfoldable pub status_schema : TaskStatus → TaskContract → Bool
  status_schema pending c =
      c.lifecycle.revision == 0
      && absent c.lifecycle.started_at
      && absent c.lifecycle.ended_at
      && absent c.execution.current_execution_id
      && c.execution.attempt_count == 0
      && absent c.completion
      && absent c.failure
  status_schema running c =
      present c.lifecycle.started_at
      && absent c.lifecycle.ended_at
      && attempted c.execution
      && absent c.completion
      && absent c.failure
  status_schema succeeded c =
      present c.lifecycle.started_at
      && present c.lifecycle.ended_at
      && attempted c.execution
      && required execution_id c.completion
      && absent c.failure
  status_schema failed c =
      present c.lifecycle.started_at
      && present c.lifecycle.ended_at
      && attempted c.execution
      && absent c.completion
      && required failure_schema c.failure
  status_schema _ c = present c.lifecycle.ended_at && absent c.completion && absent c.failure

  -- What Draft202012Validator checks of a contract that `contract_of` built.
  unfoldable pub schema_valid : TaskContract → Bool
  schema_valid c =
      identity_schema c.identity
      && assignment_schema c.assignment
      && input_schema c.input
      && optional reason_schema c.lifecycle.status_reason
      && optional execution_id c.execution.current_execution_id
      && status_schema c.lifecycle.status c

  abbrev supported_versions : List String
  supported_versions = "1.0.0" ∷ []

  -- A result, if there is one, names the current execution.
  abbrev names : Option String → Option String → Bool
  names current none = true
  names current (some id) = same_option current (some id)

  abbrev failed_execution : Option TaskFailure → Option String
  failed_execution none = none
  failed_execution (some f) = some f.failed_execution_id

  abbrev advertises_retry : Option TaskFailure → Bool
  advertises_retry none = false
  advertises_retry (some f) = not (same_option f.recoverability (some "non_retryable"))

  abbrev not_after : Option Instant → Instant → Bool
  not_after none t = true
  not_after (some s) t = leb s t

  abbrev ends_before : Option Instant → Option Instant → Bool
  ends_before (some started) (some ended) = ltb ended started
  ends_before _ _ = false

  -- The comparisons of timestamps.
  unfoldable pub times_ordered : TaskLifecycle → Bool
  times_ordered l =
      leb l.created_at l.updated_at
      && not_after l.started_at l.updated_at
      && not_after l.ended_at l.updated_at
      && not (ends_before l.started_at l.ended_at)

  module _ (sha256 : String → String) where
    -- `validate_task`; the error carries the code of the issue.
    unfoldable pub validate_task : TaskContract → Result (Unit {0})
    validate_task c =
        if not (contains supported_versions c.contract_version)
        then err (agent_task_validation_error "unsupported_contract_version")
        else if not (schema_valid c)
        then err (agent_task_validation_error "schema_validation_failed")
        else if not (
            c.identity.task_key
            =s compute_task_key sha256 c.identity.run_id c.identity.task_request_id)
        then err (agent_task_validation_error "task_key_mismatch")
        else if not (role_fits c.assignment.task_type c.assignment.target_agent_role role_by_type)
        then err (agent_task_validation_error "task_role_mismatch")
        else if contains c.input.dependency_task_ids c.identity.task_id
        then err (agent_task_validation_error "task_self_dependency")
        else if not (unique c.input.dependency_task_ids && unique c.input.evidence_refs)
        then err (agent_task_validation_error "duplicate_reference")
        else if not (names c.execution.current_execution_id c.completion)
        then err (agent_task_validation_error "completion_execution_mismatch")
        else if not (names c.execution.current_execution_id (failed_execution c.failure))
        then err (agent_task_validation_error "failure_execution_mismatch")
        else if not (same_status c.lifecycle.status pending) && absent c.lifecycle.status_reason
        then err (agent_task_validation_error "task_status_reason_required")
        else if same_status c.lifecycle.status failed && advertises_retry c.failure
        then err (agent_task_validation_error "terminal_task_failure_must_be_non_retryable")
        else if not (times_ordered c.lifecycle)
        then err (agent_task_validation_error "lifecycle_timestamp_order_invalid")
        else ok tt

    abbrev checked : Result (Unit {0}) → TaskContract → Result TaskContract
    checked (ok _) c = ok c
    checked (err _) c = err (persistence_integrity_error "stored Task violates Contract")

    -- `_to_contract`
    unfoldable pub to_contract : StoredTask → Result TaskContract
    to_contract task =
        if absent task.row.failure_execution_id
          && (present task.row.failure_code
              || present task.row.failure_message
              || present task.row.failure_recoverability)
        then err (
            persistence_integrity_error
              "stored Task has failure details without a failure execution")
        else checked (validate_task (contract_of task)) (contract_of task)
