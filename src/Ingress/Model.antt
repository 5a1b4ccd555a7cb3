-- ===== src/Ingress/Model.antt =====
-- event_ingress/model.py, `DecodeFailure` of event_ingress/decoder.py, and the rows of
-- agent_event_inbox and agent_event_rejections (migration 001) less the columns that the
-- database's own clock fills.
use factory_ops.Common.{ℕ, String, Option, List}

abbrev pub Bytes : Type 0
Bytes = List ℕ

pub record KafkaRecord : Type 0 where
  pub topic : String
  pub partition : ℕ
  pub offset : ℕ
  pub key : Option Bytes
  pub value : Option Bytes

pub record DecodedEvent : Type 0 where
  pub source : KafkaRecord
  pub event_id : String
  pub incident_id : String
  pub event_type : String
  pub contract_version : String
  pub message_key : String
  pub canonical_sha256 : Bytes

pub data IngressOutcome : Type 0 where
  accepted duplicate_identical rejected_invalid rejected_conflicting : IngressOutcome

pub data RunStartOutcome : Type 0 where
  created already_started not_applicable : RunStartOutcome

pub record ProcessingResult : Type 0 where
  pub outcome : IngressOutcome
  pub event_id : Option String
  pub run_id : Option String
  pub run_start_outcome : RunStartOutcome

pub record DecodeFailure : Type 0 where
  pub code : String
  pub detail : String
  pub payload_sha256 : Bytes
  pub event_id : Option String

-- A row of agent_event_inbox.
pub record InboxRow : Type 0 where
  pub event_id : String
  pub event_type : String
  pub contract_version : String
  pub topic : String
  pub partition : ℕ
  pub offset : ℕ
  pub message_key : String
  pub raw_payload : Bytes
  pub canonical_sha256 : Bytes

-- A row of agent_event_rejections.
pub record RejectionRow : Type 0 where
  pub topic : String
  pub partition : ℕ
  pub offset : ℕ
  pub event_id : Option String
  pub reason_code : String
  pub reason_detail : String
  pub payload_sha256 : Bytes
