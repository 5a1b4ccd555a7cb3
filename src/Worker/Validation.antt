-- ===== src/Worker/Validation.antt =====
-- `_validate_command` of worker_task_execution.py.
use factory_ops.Common.{String, List, [], ◌∷◌, all, is_trimmed, is_path_version, is_code_revision}
use factory_ops.Session.{Result, worker_execution_rejected}
use factory_ops.Session.Statements.{◌>>◌, guard}
use factory_ops.Worker.Model.{StartWorkerExecutionCommand}

abbrev pub versions : StartWorkerExecutionCommand → List String
versions c =
    c.runtime_version ∷ c.prompt_version ∷ c.model_policy_version ∷ c.tool_policy_version
    ∷ c.context_policy_version ∷ []

abbrev pub required : StartWorkerExecutionCommand → List String
required c =
    c.request_id ∷ c.task_id ∷ c.owner_id ∷ c.lease_token ∷ c.runtime_version ∷ c.prompt_version
    ∷ c.model_policy_version ∷ c.tool_policy_version ∷ c.context_policy_version ∷ c.code_revision
    ∷ []

-- `_validate_command`
unfoldable pub validate_command : StartWorkerExecutionCommand → Result (Unit {0})
validate_command c = do
  guard (all is_trimmed (required c)) (worker_execution_rejected "command fields must be non-blank")
  guard (all is_path_version (versions c))
      (worker_execution_rejected "version fields violate Execution Contract")
  guard (is_code_revision c.code_revision)
      (worker_execution_rejected "code revision violates Execution Contract")
