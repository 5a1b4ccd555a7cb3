-- ===== src/Run/Contract.antt =====
-- The Workflow Run Contract: contracts/agent_run/validator.py with its v1.0.0/schema.json, and
-- the rendering of a row by `_to_contract` in run_lifecycle/service.py.
--
-- A timestamp of the contract is kept as the instant that `_format_timestamp` prints, since
-- `_parse_utc_timestamp` reads the same instant back. The `pattern` keyword belongs to the
-- jsonschema library: `matches regex text` is a parameter.
use factory_ops.Common.{
  ℕ, String, Option, none, some, List, [], ◌∷◌, Bool, true, false, ◌&&◌, not, if◌then◌else◌, leb,
  ltb, ◌=s◌, contains, text_length, present, absent,
}
use factory_ops.Session.{Result, ok, err, persistence_integrity_error, agent_run_validation_error}
use factory_ops.Run.Model.{
  Instant, RunKind, original, replay, RunStatus, succeeded, failed, cancelled, RunProvenance,
  RunRow,
}

-- A property of a JSON object: without the key, null, or a text.
pub data Field : Type 0 where
  missing null : Field
  text : String → Field

pub record StatusReason : Type 0 where
  pub code : String
  pub message : String

pub record RunIdentity : Type 0 where
  pub run_id : String
  pub run_kind : RunKind
  pub original_run_id : String
  pub trigger_event_id : Field
  pub replayed_from_run_id : Field
  pub replay_request_id : Field

pub record RunLifecycle : Type 0 where
  pub status : RunStatus
  pub revision : ℕ
  pub updated_at : Instant
  pub started_at : Option Instant
  pub ended_at : Option Instant
  pub status_reason : Option StatusReason

pub record RunContract : Type 0 where
  pub contract_version : String
  pub identity : RunIdentity
  pub provenance : RunProvenance
  pub created_at : Instant
  pub lifecycle : RunLifecycle
  pub coordinator_execution_id : Option String
  pub latest_checkpoint_id : Option String
  pub agent_execution_count : ℕ
  pub task_count : ℕ
  pub completed_task_count : ℕ

abbrev of_column : Option String → Field
of_column none = null
of_column (some s) = text s

-- `text or other`
abbrev pub or_text : Option String → String → String
or_text none other = other
or_text (some s) other = if s =s "" then other else s

abbrev reason_of : Option String → Option String → Option StatusReason
reason_of none message = none
reason_of (some code) message = some (record { code = code; message = or_text message code })

abbrev identity_of : RunKind → RunRow → RunIdentity
identity_of original row = record {
  run_id = row.run_id;
  run_kind = original;
  original_run_id = row.original_run_id;
  trigger_event_id = of_column row.trigger_event_id;
  replayed_from_run_id = missing;
  replay_request_id = missing;
}
identity_of replay row = record {
  run_id = row.run_id;
  run_kind = replay;
  original_run_id = row.original_run_id;
  trigger_event_id = missing;
  replayed_from_run_id = of_column row.replayed_from_run_id;
  replay_request_id = of_column row.replay_request_id;
}

unfoldable pub lifecycle_of : RunRow → RunLifecycle
lifecycle_of row = record {
  status = row.status;
  revision = row.revision;
  updated_at = row.updated_at;
  started_at = row.started_at;
  ended_at = row.ended_at;
  status_reason = reason_of row.status_reason_code row.status_reason_message;
}

-- The contract that `_to_contract` builds, before it validates it.
unfoldable pub contract_of : RunRow → RunContract
unfolding lifecycle_of
contract_of row = record {
  contract_version = row.contract_version;
  identity = identity_of row.run_kind row;
  provenance = row.provenance;
  created_at = row.created_at;
  lifecycle = lifecycle_of row;
  coordinator_execution_id = row.coordinator_execution_id;
  latest_checkpoint_id = row.latest_checkpoint_id;
  agent_execution_count = row.agent_execution_count;
  task_count = row.task_count;
  completed_task_count = row.completed_task_count;
}

abbrev is_missing : Field → Bool
is_missing missing = true
is_missing _ = false

abbrev kind_issue : RunKind → String
kind_issue original = "original_run_id_mismatch"
kind_issue replay = "replay_self_reference"

-- `minLength` and `maxLength`
abbrev pub sized : ℕ → ℕ → String → Bool
sized lo hi s = leb lo (text_length s) && leb (text_length s) hi

module _ (matches : String → String → Bool) where
  abbrev field_matches : String → Field → Bool
  field_matches regex missing = true
  field_matches regex null = false
  field_matches regex (text s) = matches regex s

  abbrev run_id_regex : String
  run_id_regex = "^RUN-[0-9A-F]{32}$"

  kind_fields : RunIdentity → RunKind → Bool
  kind_fields i original =
      not (is_missing i.trigger_event_id)
      && is_missing i.replayed_from_run_id
      && is_missing i.replay_request_id
  kind_fields i replay =
      not (is_missing i.replayed_from_run_id)
      && not (is_missing i.replay_request_id)
      && is_missing i.trigger_event_id

  unfoldable pub identity_schema : RunIdentity → Bool
  unfolding kind_fields
  identity_schema i =
      matches run_id_regex i.run_id
      && matches run_id_regex i.original_run_id
      && field_matches "^EVT-[0-9A-F]{64}$" i.trigger_event_id
      && field_matches run_id_regex i.replayed_from_run_id
      && field_matches "^RPR-[0-9A-F]{32}$" i.replay_request_id
      && kind_fields i i.run_kind

  abbrev version_reference : String → Bool
  version_reference s = sized 1 128 s && matches "^[A-Za-z0-9][A-Za-z0-9._:-]*$" s

  unfoldable pub provenance_schema : RunProvenance → Bool
  provenance_schema p =
      matches "^QI-[0-9A-F]{64}$" p.incident_id
      && version_reference p.runtime_version
      && version_reference p.workflow_version
      && version_reference p.prompt_set_version
      && version_reference p.model_policy_version
      && version_reference p.tool_policy_version
      && version_reference p.context_policy_version
      && matches "^[0-9a-f]{7,64}$" p.code_revision

  abbrev reason_schema : Option StatusReason → Bool
  reason_schema none = true
  reason_schema (some r) =
      sized 3 128 r.code && matches "^[A-Z][A-Z0-9_]*$" r.code && sized 1 500 r.message

  -- `if status in … then required ended_at else not required ended_at`, and the second rule.
  ends_schema : RunStatus → RunLifecycle → Bool
  ends_schema succeeded l = present l.ended_at && present l.started_at
  ends_schema failed l = present l.ended_at && present l.started_at
  ends_schema cancelled l = present l.ended_at
  ends_schema _ l = absent l.ended_at

  unfoldable pub lifecycle_schema : RunLifecycle → Bool
  unfolding ends_schema
  lifecycle_schema l = reason_schema l.status_reason && ends_schema l.status l

  abbrev nullable_reference : Option String → Bool
  nullable_reference none = true
  nullable_reference (some s) = sized 1 255 s

  -- What Draft202012Validator checks of a contract that `contract_of` built.
  unfoldable pub schema_valid : RunContract → Bool
  schema_valid c =
      identity_schema c.identity
      && provenance_schema c.provenance
      && lifecycle_schema c.lifecycle
      && nullable_reference c.coordinator_execution_id
      && nullable_reference c.latest_checkpoint_id

  abbrev supported_versions : List String
  supported_versions = "1.0.0" ∷ []

  abbrev is_text : String → Field → Bool
  is_text s (text t) = s =s t
  is_text s _ = false

  unfoldable pub identity_consistent : RunIdentity → RunKind → Bool
  identity_consistent i original = i.original_run_id =s i.run_id
  identity_consistent i replay =
      not (i.original_run_id =s i.run_id) && not (is_text i.run_id i.replayed_from_run_id)

  unfoldable pub times_ordered : Option Instant → Option Instant → Bool
  times_ordered (some started) (some ended) = leb started ended
  times_ordered _ _ = true

  -- `validate_run`; the error carries the code of the issue.
  unfoldable pub validate_run : RunContract → Result (Unit {0})
  unfolding identity_consistent times_ordered
  validate_run c =
      if not (contains supported_versions c.contract_version)
      then err (agent_run_validation_error "unsupported_contract_version")
      else if not (schema_valid c)
      then err (agent_run_validation_error "schema_validation_failed")
      else if not (identity_consistent c.identity c.identity.run_kind)
      then err (agent_run_validation_error (kind_issue c.identity.run_kind))
      else if not (times_ordered c.lifecycle.started_at c.lifecycle.ended_at)
      then err (agent_run_validation_error "lifecycle_timestamp_order_invalid")
      else if ltb c.task_count c.completed_task_count
      then err (agent_run_validation_error "completed_task_count_exceeds_task_count")
      else ok tt

  abbrev checked : Result (Unit {0}) → RunContract → Result RunContract
  checked (ok _) c = ok c
  checked (err _) c = err (persistence_integrity_error "stored Run violates Contract")

  -- `_to_contract`
  unfoldable pub to_contract : RunRow → Result RunContract
  to_contract row = checked (validate_run (contract_of row)) (contract_of row)
