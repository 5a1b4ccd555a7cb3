-- ===== src/Worker/Completion.antt =====
-- `complete` of worker_task_execution.py: the validation and the rows that it writes.
pub mod Transaction
pub mod Service
pub mod Admission
pub mod Tests
use factory_ops.Common.{
  ℕ, String, Option, none, some, List, [], ◌∷◌, ◌++◌, Bool, true, false, ◌&&◌, not, leb, ◌=s◌, all,
  length, unique, present, absent, if◌then◌else◌, is_trimmed, is_reference, is_decision_id,
  matches_reason_code, text_length,
}
use factory_ops.Session.{Result, ok, err, worker_execution_rejected}
use factory_ops.Session.Statements.{◌>>◌, guard}
use factory_ops.Run.Model.{Instant}
use factory_ops.Execution.Model.{
  ExecutionStatus, ExecutionResult, ExecutionFailure, ExecutionRow, ExecutionTransition,
}
use factory_ops.Execution.Model as E
use factory_ops.Execution.Contract.{Libraries}
use factory_ops.Task.Model.{TaskStatus, running, succeeded, failed, TaskRow, TaskTransition}
use factory_ops.Worker.Model.{CompleteWorkerExecutionCommand, CompletionIds}

-- `_valid_refs`
unfoldable pub valid_refs : List String → Bool
valid_refs refs = unique refs && all is_reference refs

abbrev valid_decision : Option String → Bool
valid_decision none = true
valid_decision (some id) = is_decision_id id

abbrev valid_dependency : Option String → Bool
valid_dependency none = true
valid_dependency (some ref) = valid_refs (ref ∷ [])

unfoldable pub validate_result : ExecutionResult → Result (Unit {0})
validate_result r = do
  guard (leb 1 (length r.output_artifact_refs) && leb (length r.output_artifact_refs) 64)
      (worker_execution_rejected "result artifacts violate Execution Contract")
  guard (leb (length r.evidence_refs) 64)
      (worker_execution_rejected "result evidence violates Execution Contract")
  guard (valid_refs (r.output_artifact_refs ++ r.evidence_refs))
      (worker_execution_rejected "result references violate Execution Contract")
  guard (valid_decision r.decision_id)
      (worker_execution_rejected "decision ID violates Execution Contract")

unfoldable pub validate_failure : ExecutionFailure → Result (Unit {0})
validate_failure f = do
  guard
      (matches_reason_code f.code
        && leb 1 (text_length f.message)
        && leb (text_length f.message) 600
        && f.recoverability =s "non_retryable")
      (worker_execution_rejected "Task failure must be non_retryable")
  guard (valid_dependency f.failed_dependency_ref)
      (worker_execution_rejected "failure reference violates Execution Contract")

-- The branch of SUCCEEDED.
unfoldable pub validate_success :
    Option ExecutionResult → Option ExecutionFailure → Result (Unit {0})
validate_success (some r) none = validate_result r
validate_success _ _ = err (worker_execution_rejected "SUCCEEDED requires only result")

-- The branch of FAILED.
unfoldable pub validate_failed :
    Option ExecutionResult → Option ExecutionFailure → Result (Unit {0})
validate_failed none (some f) = validate_failure f
validate_failed _ _ = err (worker_execution_rejected "FAILED requires only failure")

abbrev required : CompleteWorkerExecutionCommand → List String
required c = c.request_id ∷ c.task_id ∷ c.execution_id ∷ c.owner_id ∷ c.lease_token ∷ []

-- `_validate_completion`
unfoldable pub validate_completion : CompleteWorkerExecutionCommand → Result (Unit {0})
validate_completion c = do
  guard (all is_trimmed (required c)) (worker_execution_rejected "command fields must be non-blank")
  (if c.final_status =s "SUCCEEDED"
      then validate_success c.result c.failure
      else if c.final_status =s "FAILED"
      then validate_failed c.result c.failure
      else err (worker_execution_rejected "final status must be SUCCEEDED or FAILED"))

-- A validated `final_status`, as the tables read it.
abbrev pub execution_status : String → ExecutionStatus
execution_status s = if s =s "SUCCEEDED" then E.succeeded else E.failed

abbrev pub task_status : String → TaskStatus
task_status s = if s =s "SUCCEEDED" then succeeded else failed

-- `"WORKER_COMPLETED" if result else "WORKER_FAILED"`
abbrev pub reason_of : Option ExecutionResult → String
reason_of none = "WORKER_FAILED"
reason_of (some _) = "WORKER_COMPLETED"

abbrev when_present : {A : Type 0} → Option A → String → Option String
when_present none id = none
when_present (some _) id = some id

abbrev artifacts_of : Option ExecutionResult → Option (List String)
artifacts_of none = none
artifacts_of (some r) = some r.output_artifact_refs

abbrev evidence_of : Option ExecutionResult → Option (List String)
evidence_of none = none
evidence_of (some r) = some r.evidence_refs

abbrev decision_of : Option ExecutionResult → Option String
decision_of none = none
decision_of (some r) = r.decision_id

abbrev code_of : Option ExecutionFailure → Option String
code_of none = none
code_of (some f) = some f.code

abbrev message_of : Option ExecutionFailure → Option String
message_of none = none
message_of (some f) = some f.message

abbrev recoverability_of : Option ExecutionFailure → Option String
recoverability_of none = none
recoverability_of (some f) = some f.recoverability

abbrev dependency_of : Option ExecutionFailure → Option String
dependency_of none = none
dependency_of (some f) = f.failed_dependency_ref

-- The SET clause of `_finish_execution`.
unfoldable pub finished_execution :
    CompleteWorkerExecutionCommand → Instant → ExecutionRow → ExecutionRow
finished_execution c at e = record e {
  status = execution_status c.final_status;
  revision = 2;
  updated_at = at;
  ended_at = some at;
  status_reason_code = some (reason_of c.result);
  status_reason_message = none;
  output_artifact_refs = artifacts_of c.result;
  decision_id = decision_of c.result;
  result_evidence_refs = evidence_of c.result;
  failure_code = code_of c.failure;
  failure_message = message_of c.failure;
  failure_recoverability = recoverability_of c.failure;
  failed_dependency_ref = dependency_of c.failure;
}

-- The row of `_insert_completion_history`.
unfoldable pub completion_history :
    Libraries
    → CompletionIds
    → CompleteWorkerExecutionCommand
    → String
    → Instant
    → ExecutionTransition
completion_history x ids c execution_id at = record {
  transition_id = ids.execution_transition_id;
  transition_request_id = ids.execution_request_id;
  execution_id = execution_id;
  from_status = some E.running;
  to_status = execution_status c.final_status;
  from_revision = some 1;
  to_revision = 2;
  actor_kind = "WORKER";
  actor_id = c.owner_id;
  reason_code = reason_of c.result;
  reason_message = none;
  result_json = result_json c.result;
  failure_json = failure_json c.failure;
  occurred_at = at;
}
  where
    result_json : Option ExecutionResult → Option String
    result_json none = none
    result_json (some r) = some (x.json_column (x.result_text r))

    failure_json : Option ExecutionFailure → Option String
    failure_json none = none
    failure_json (some f) = some (x.json_column (x.failure_text f))

-- The SET clause of `_finish_task`.
unfoldable pub finished_task : CompleteWorkerExecutionCommand → Instant → TaskRow → TaskRow
finished_task c at task = record task {
  status = task_status c.final_status;
  revision = 2;
  updated_at = at;
  ended_at = some at;
  status_reason_code = some (reason_of c.result);
  status_reason_message = none;
  completion_execution_id = when_present c.result c.execution_id;
  failure_execution_id = when_present c.failure c.execution_id;
  failure_code = code_of c.failure;
  failure_message = message_of c.failure;
  failure_recoverability = recoverability_of c.failure;
}

-- The history row of `_finish_task`.
unfoldable pub finished_history :
    CompletionIds → CompleteWorkerExecutionCommand → TaskRow → Instant → TaskTransition
finished_history ids c task at = record {
  transition_id = ids.task_transition_id;
  transition_request_id = ids.task_request_id;
  task_id = c.task_id;
  from_status = some running;
  to_status = task_status c.final_status;
  from_revision = some 1;
  to_revision = 2;
  actor_kind = "WORKER";
  actor_id = c.owner_id;
  reason_code = reason_of c.result;
  reason_message = none;
  execution_id = some c.execution_id;
  attempt_count = task.attempt_count;
  completion_execution_id = when_present c.result c.execution_id;
  failure_code = code_of c.failure;
  failure_message = message_of c.failure;
  failure_recoverability = recoverability_of c.failure;
  occurred_at = at;
}
