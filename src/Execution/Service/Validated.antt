-- ===== src/Execution/Service/Validated.antt =====
-- What `transition_execution` stores is what it has validated, and what it reads back is the result
-- or the failure of the command.
use factory_ops.Common.{◌≡◌, refl, Option, none, some, arith}
use factory_ops.Run.Model.{Instant}
use factory_ops.Execution.Model.{
  TransitionCommand, TransitionPlan, ExecutionResult, ExecutionFailure, ExecutionRow,
}
use factory_ops.Execution.Contract.{ContractResult, ContractFailure, result_of, failure_of}
use factory_ops.Execution.Repository.{updated_row}
use factory_ops.Execution.Service.{candidate, execution_update}

abbrev rendered_result : Option ExecutionResult → Option ContractResult
rendered_result none = none
rendered_result (some r) = some (record {
  output_artifact_refs = r.output_artifact_refs;
  decision_id = r.decision_id;
  evidence_refs = some r.evidence_refs;
})

abbrev rendered_failure : Option ExecutionFailure → Option ContractFailure
rendered_failure none = none
rendered_failure (some f) = some (record {
  code = f.code;
  message = some f.message;
  recoverability = some f.recoverability;
  failed_dependency_ref = f.failed_dependency_ref;
})

-- The UPDATE of a transition turns a row into the candidate that was validated for it, and the result
-- and the failure of the command read back from its columns as they were.
pub update-candidate :
    (c : TransitionCommand) (p : TransitionPlan) (at : Instant) (row : ExecutionRow)
    → (updated_row (execution_update c p at) row ≡ candidate c row p at)
      × (result_of (updated_row (execution_update c p at) row) ≡ rendered_result c.result)
      × (failure_of (updated_row (execution_update c p at) row) ≡ rendered_failure c.failure)
unfolding updated_row execution_update candidate result_of failure_of
update-candidate c p at row = (refl, ground arith, ground arith)
