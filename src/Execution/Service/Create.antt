-- ===== src/Execution/Service/Create.antt =====
-- `create_execution` of execution_lifecycle/service.py.
use factory_ops.Common.{String, none, Bool, ◌&&◌, ◌=s◌, same_option, same_texts, equal_int}
use factory_ops.Session.{
  Exception, Result, ok, err, integrity_error, parent_run_missing, parent_task_missing,
  parent_task_mismatch, execution_creation_rejected, raise, lift, attempt, begin, connect, ◌>>=◌,
}
use factory_ops.Session.Lookup.{found_or}
use factory_ops.Database.{Action}
use factory_ops.Run.Model.{Instant, applied}
use factory_ops.Run.Service.Calls.{duplicate_outcome}
use factory_ops.Execution.Model.{pending, CreateExecutionCommand, ExecutionRow, ExecutionTransition}
use factory_ops.Execution.Contract.{
  Libraries, ExecutionContract, compute_execution_key, to_contract,
}
use factory_ops.Execution.Repository.{find_by_key, create}
use factory_ops.Execution.Service.Calls.{
  Inputs, now, OperationResult, with_outcome, outcome_with_execution, history,
}

-- The comparison in `_classify_creation`.
unfoldable pub creation_matches : CreateExecutionCommand → ExecutionRow → Bool
creation_matches command row =
    row.run_id =s command.run_id
    && row.agent_role =s command.agent_role
    && equal_int row.attempt command.attempt
    && same_option row.task_id command.task_id
    && row.runtime_version =s command.runtime_version
    && row.prompt_version =s command.prompt_version
    && row.model_policy_version =s command.model_policy_version
    && row.tool_policy_version =s command.tool_policy_version
    && row.context_policy_version =s command.context_policy_version
    && row.code_revision =s command.code_revision
    && row.context_snapshot_id =s command.context_snapshot_id
    && same_texts row.input_evidence_refs command.evidence_refs

-- The row of a new Execution.
unfoldable pub initial_row : Inputs → CreateExecutionCommand → String → Instant → ExecutionRow
initial_row inputs command key at = record {
  execution_id = inputs.execution_id;
  execution_key = key;
  contract_version = "1.0.0";
  run_id = command.run_id;
  agent_role = command.agent_role;
  attempt = command.attempt;
  task_id = command.task_id;
  runtime_version = command.runtime_version;
  prompt_version = command.prompt_version;
  model_policy_version = command.model_policy_version;
  tool_policy_version = command.tool_policy_version;
  context_policy_version = command.context_policy_version;
  code_revision = command.code_revision;
  context_snapshot_id = command.context_snapshot_id;
  input_evidence_refs = command.evidence_refs;
  status = pending;
  revision = 0;
  created_at = at;
  updated_at = at;
  started_at = none;
  ended_at = none;
  status_reason_code = none;
  status_reason_message = none;
  output_artifact_refs = none;
  decision_id = none;
  result_evidence_refs = none;
  failure_code = none;
  failure_message = none;
  failure_recoverability = none;
  failed_dependency_ref = none;
}

module _ (x : Libraries) where
  -- The first row of its history.
  unfoldable pub initial_transition : Inputs → Instant → ExecutionTransition
  initial_transition inputs at =
      history x inputs inputs.transition_request_id inputs.execution_id none pending none 0 "SYSTEM"
        "agent-execution-lifecycle" "EXECUTION_CREATED" none none none at

  abbrev pub execution_key : CreateExecutionCommand → String
  execution_key command =
      compute_execution_key x command.run_id command.agent_role command.task_id command.attempt

  -- `_classify_creation`
  unfoldable pub classify_creation : CreateExecutionCommand → ExecutionRow → Action OperationResult
  classify_creation command row =
      lift (with_outcome (duplicate_outcome (creation_matches command row)) (to_contract x row))

  -- The exceptions of `create` that become a rejection at once.
  abbrev pub rejection : Exception → Exception
  rejection parent_run_missing = execution_creation_rejected "parent Run does not exist"
  rejection parent_task_missing = execution_creation_rejected "parent Task does not exist"
  rejection parent_task_mismatch = execution_creation_rejected "Task must share Run and target role"
  rejection e = e

  -- After `create`: its handlers, or the reload.
  unfoldable pub after_create :
      Inputs → CreateExecutionCommand → Result (Unit {0}) → Action OperationResult
  after_create inputs command (ok _) = outcome_with_execution x applied inputs.execution_id
  after_create inputs command (err integrity_error) = do
    existing ← connect (find_by_key (execution_key command))
    found_or existing (classify_creation command)
        (raise (execution_creation_rejected "Execution creation violated database constraints"))
  after_create inputs command (err e) = raise (rejection e)

  -- After `_validate`.
  unfoldable pub after_validate :
      Inputs → CreateExecutionCommand → Instant → Result ExecutionContract → Action OperationResult
  after_validate inputs command at (ok _) = do
    written ← attempt (
        begin (
          create (initial_row inputs command (execution_key command) at)
            (initial_transition inputs at)))
    after_create inputs command written
  after_validate inputs command at (err e) =
      raise (execution_creation_rejected "Execution Contract is invalid")

  unfoldable pub create_execution : Inputs → CreateExecutionCommand → Action OperationResult
  create_execution inputs command = do
    existing ← connect (find_by_key (execution_key command))
    found_or existing (classify_creation command) do
      at ← lift (now inputs.clock)
      after_validate inputs command at
          (to_contract x (initial_row inputs command (execution_key command) at))
