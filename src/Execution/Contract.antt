-- ===== src/Execution/Contract.antt =====
-- The Agent Execution Contract: `validate_execution` of contracts/agent_execution/validator.py with
-- its v1.0.0/schema.json, and the rendering of a row by `_to_contract` in
-- execution_lifecycle/service.py.
--
-- A timestamp of the contract is kept as the instant that `_time` prints. The `pattern` keyword of
-- jsonschema and the hash of hashlib are parameters.
pub mod Bounds
use factory_ops.Common.{
  ℕ, String, Option, none, some, List, [], ◌∷◌, Bool, true, false, ◌&&◌, ◌||◌, not, if◌then◌else◌,
  leb, ltb, ◌=s◌, contains, all, length, present, absent, ℤ, pos, negsuc, ◌+s◌, show_int, unique,
}
use factory_ops.Session.{
  Result, ok, err, persistence_integrity_error, agent_execution_validation_error,
}
use factory_ops.Run.Model.{Instant}
use factory_ops.Run.Contract.{sized}
use factory_ops.Execution.Model.{
  ExecutionStatus, pending, running, succeeded, failed, cancelled, ExecutionRow, ExecutionResult,
  ExecutionFailure,
}

-- The libraries outside: jsonschema's `pattern`, the upper-case hexadecimal SHA-256 of a text, what
-- json.dumps prints for a result and a failure with sorted keys, and the text that a JSON column of
-- the database returns for a printed one.
pub record Libraries : Type 0 where
  pub matches : String → String → Bool
  pub sha256 : String → String
  pub result_text : ExecutionResult → String
  pub failure_text : ExecutionFailure → String
  pub json_column : String → String

pub record ContractIdentity : Type 0 where
  pub execution_id : String
  pub execution_key : String
  pub run_id : String
  pub agent_role : String
  pub attempt : ℤ

pub record ContractProvenance : Type 0 where
  pub runtime_version : String
  pub prompt_version : String
  pub model_policy_version : String
  pub tool_policy_version : String
  pub context_policy_version : String
  pub code_revision : String
  pub created_at : Instant

pub record ContractInput : Type 0 where
  pub task_id : Option String
  pub context_snapshot_id : String
  pub evidence_refs : List String

pub record ContractReason : Type 0 where
  pub code : String
  pub message : Option String

pub record ContractLifecycle : Type 0 where
  pub status : ExecutionStatus
  pub revision : ℕ
  pub updated_at : Instant
  pub started_at : Option Instant
  pub ended_at : Option Instant
  pub status_reason : Option ContractReason

pub record ContractResult : Type 0 where
  pub output_artifact_refs : List String
  pub decision_id : Option String
  pub evidence_refs : Option (List String)

pub record ContractFailure : Type 0 where
  pub code : String
  pub message : Option String
  pub recoverability : Option String
  pub failed_dependency_ref : Option String

pub record ExecutionContract : Type 0 where
  pub contract_version : String
  pub identity : ContractIdentity
  pub provenance : ContractProvenance
  pub input : ContractInput
  pub lifecycle : ContractLifecycle
  pub result : Option ContractResult
  pub failure : Option ContractFailure

abbrev pub task_component : Option String → String
task_component none = "-"
task_component (some id) = id

unfoldable pub compute_execution_key : Libraries → String → String → Option String → ℤ → String
compute_execution_key x run_id agent_role task_id attempt =
    "EXK-"
    +s x.sha256 (
        "v1\n"
        +s run_id
        +s "\n"
        +s agent_role
        +s "\n"
        +s task_component task_id
        +s "\n"
        +s show_int attempt)

unfoldable pub result_of : ExecutionRow → Option ContractResult
result_of row = result row.output_artifact_refs
  where
    result : Option (List String) → Option ContractResult
    result none = none
    result (some refs) = some (record {
      output_artifact_refs = refs;
      decision_id = row.decision_id;
      evidence_refs = row.result_evidence_refs;
    })

unfoldable pub failure_of : ExecutionRow → Option ContractFailure
failure_of row = failure row.failure_code
  where
    failure : Option String → Option ContractFailure
    failure none = none
    failure (some code) = some (record {
      code = code;
      message = row.failure_message;
      recoverability = row.failure_recoverability;
      failed_dependency_ref = row.failed_dependency_ref;
    })

abbrev reason_of : Option String → Option String → Option ContractReason
reason_of none message = none
reason_of (some code) message =
    if code =s "" then none else some (record { code = code; message = message })

-- The contract that `_to_contract` builds, before it validates it.
unfoldable pub contract_of : ExecutionRow → ExecutionContract
contract_of row = record {
  contract_version = row.contract_version;
  identity = record {
    execution_id = row.execution_id;
    execution_key = row.execution_key;
    run_id = row.run_id;
    agent_role = row.agent_role;
    attempt = row.attempt;
  };
  provenance = record {
    runtime_version = row.runtime_version;
    prompt_version = row.prompt_version;
    model_policy_version = row.model_policy_version;
    tool_policy_version = row.tool_policy_version;
    context_policy_version = row.context_policy_version;
    code_revision = row.code_revision;
    created_at = row.created_at;
  };
  input = record {
    task_id = row.task_id;
    context_snapshot_id = row.context_snapshot_id;
    evidence_refs = row.input_evidence_refs;
  };
  lifecycle = record {
    status = row.status;
    revision = row.revision;
    updated_at = row.updated_at;
    started_at = row.started_at;
    ended_at = row.ended_at;
    status_reason = reason_of row.status_reason_code row.status_reason_message;
  };
  result = result_of row;
  failure = failure_of row;
}

module _ (x : Libraries) where
  abbrev pub reference : String → Bool
  reference s = sized 1 255 s && x.matches "^[A-Za-z0-9][A-Za-z0-9._:/-]*$" s

  abbrev version_reference : String → Bool
  version_reference s = sized 1 128 s && x.matches "^[A-Za-z0-9][A-Za-z0-9._:/-]*$" s

  abbrev pub reference_array : List String → Bool
  reference_array refs = leb (length refs) 64 && all reference refs

  abbrev optional : (String → Bool) → Option String → Bool
  optional p none = true
  optional p (some s) = p s

  -- A property that may not be null.
  abbrev required : {A : Type 0} → (A → Bool) → Option A → Bool
  required p none = false
  required p (some a) = p a

  abbrev pub in_range : ℤ → Bool
  in_range (pos n) = leb 1 n && leb n 2147483647
  in_range (negsuc n) = false

  unfoldable pub identity_schema : ContractIdentity → Bool
  identity_schema i =
      x.matches "^EXE-[0-9A-F]{32}$" i.execution_id
      && x.matches "^EXK-[0-9A-F]{64}$" i.execution_key
      && x.matches "^RUN-[0-9A-F]{32}$" i.run_id
      && contains ("coordinator" ∷ "quality" ∷ "production" ∷ "sla" ∷ "risk" ∷ []) i.agent_role
      && in_range i.attempt

  unfoldable pub provenance_schema : ContractProvenance → Bool
  provenance_schema p =
      version_reference p.runtime_version
      && version_reference p.prompt_version
      && version_reference p.model_policy_version
      && version_reference p.tool_policy_version
      && version_reference p.context_policy_version
      && x.matches "^[0-9a-f]{7,64}$" p.code_revision

  unfoldable pub input_schema : ContractInput → Bool
  input_schema i =
      optional (x.matches "^TSK-[0-9A-F]{32}$") i.task_id
      && x.matches "^CTX-[0-9A-F]{32}$" i.context_snapshot_id
      && reference_array i.evidence_refs

  abbrev coded : String → Bool
  coded s = sized 3 128 s && x.matches "^[A-Z][A-Z0-9_]*$" s

  abbrev reason_schema : Option ContractReason → Bool
  reason_schema none = true
  reason_schema (some r) = coded r.code && required (sized 1 500) r.message

  abbrev result_schema : ContractResult → Bool
  result_schema r =
      leb 1 (length r.output_artifact_refs)
      && reference_array r.output_artifact_refs
      && optional (x.matches "^DEC-[0-9A-F]{32}$") r.decision_id
      && required reference_array r.evidence_refs

  abbrev failure_schema : ContractFailure → Bool
  failure_schema f =
      coded f.code
      && required (sized 1 600) f.message
      && required (contains ("retryable" ∷ "non_retryable" ∷ [])) f.recoverability
      && optional reference f.failed_dependency_ref

  -- The rules of `allOf`, one for each status.
  unfoldable pub status_schema :
      ExecutionStatus → ContractLifecycle → Option ContractResult → Option ContractFailure → Bool
  status_schema pending l r f = absent l.started_at && absent l.ended_at && absent r && absent f
  status_schema running l r f = present l.started_at && absent l.ended_at && absent r && absent f
  status_schema succeeded l r f =
      present l.started_at && present l.ended_at && required result_schema r && absent f
  status_schema failed l r f =
      present l.started_at && present l.ended_at && absent r && required failure_schema f
  status_schema cancelled l r f = present l.ended_at && absent r && absent f

  -- What Draft202012Validator checks of a contract that `contract_of` built.
  unfoldable pub schema_valid : ExecutionContract → Bool
  schema_valid c =
      identity_schema c.identity
      && provenance_schema c.provenance
      && input_schema c.input
      && reason_schema c.lifecycle.status_reason
      && status_schema c.lifecycle.status c.lifecycle c.result c.failure

  abbrev supported_versions : List String
  supported_versions = "1.0.0" ∷ []

  unfoldable pub specialist_roles : List String
  specialist_roles = "quality" ∷ "production" ∷ "sla" ∷ "risk" ∷ []

  abbrev result_refs : Option ContractResult → Bool
  result_refs none = true
  result_refs (some r) = unique r.output_artifact_refs && required unique r.evidence_refs

  abbrev not_after : Option Instant → Instant → Bool
  not_after none t = true
  not_after (some s) t = leb s t

  abbrev ends_before : Option Instant → Option Instant → Bool
  ends_before (some started) (some ended) = ltb ended started
  ends_before _ _ = false

  -- The comparisons of timestamps.
  unfoldable pub times_ordered : Instant → ContractLifecycle → Bool
  times_ordered created_at l =
      leb created_at l.updated_at
      && not_after l.started_at l.updated_at
      && not_after l.ended_at l.updated_at
      && not (ends_before l.started_at l.ended_at)

  -- `validate_execution`; the error carries the code of the issue.
  unfoldable pub validate_execution : ExecutionContract → Result (Unit {0})
  unfolding specialist_roles times_ordered
  validate_execution c =
      if not (contains supported_versions c.contract_version)
      then err (agent_execution_validation_error "unsupported_contract_version")
      else if not (schema_valid c)
      then err (agent_execution_validation_error "schema_validation_failed")
      else if not (
          c.identity.execution_key
          =s compute_execution_key x c.identity.run_id c.identity.agent_role c.input.task_id
              c.identity.attempt)
      then err (agent_execution_validation_error "execution_key_mismatch")
      else if contains specialist_roles c.identity.agent_role && absent c.input.task_id
      then err (agent_execution_validation_error "specialist_task_required")
      else if not (unique c.input.evidence_refs && result_refs c.result)
      then err (agent_execution_validation_error "duplicate_reference")
      else if not (times_ordered c.provenance.created_at c.lifecycle)
      then err (agent_execution_validation_error "lifecycle_timestamp_order_invalid")
      else ok tt

  abbrev checked : Result (Unit {0}) → ExecutionContract → Result ExecutionContract
  checked (ok _) c = ok c
  checked (err _) c = err (persistence_integrity_error "stored Execution violates Contract")

  -- `_to_contract`
  unfoldable pub to_contract : ExecutionRow → Result ExecutionContract
  to_contract row =
      if absent row.output_artifact_refs
        && (present row.decision_id || present row.result_evidence_refs)
      then err (persistence_integrity_error "stored Execution has partial result data")
      else if absent row.failure_code
          && (present row.failure_message
              || present row.failure_recoverability
              || present row.failed_dependency_ref)
      then err (persistence_integrity_error "stored Execution has partial failure data")
      else checked (validate_execution (contract_of row)) (contract_of row)
