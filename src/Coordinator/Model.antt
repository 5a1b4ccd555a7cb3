-- ===== src/Coordinator/Model.antt =====
-- coordinator_start/model.py, and the row of coordinator_start_requests (migration 005).
use factory_ops.Common.{String, List}
use factory_ops.Run.Model.{Instant}

pub record StartCoordinatorCommand : Type 0 where
  pub start_request_id : String
  pub run_id : String
  pub prompt_version : String
  pub context_snapshot_id : String
  pub evidence_refs : List String
  pub command_version : String

-- What `_digest` prints and hashes.
pub record StartPayload : Type 0 where
  pub command_version : String
  pub run_id : String
  pub prompt_version : String
  pub context_snapshot_id : String
  pub evidence_refs : List String

pub record StartReceipt : Type 0 where
  pub start_request_id : String
  pub run_id : String
  pub execution_id : String
  pub payload_sha256 : String
  pub created_at : Instant
