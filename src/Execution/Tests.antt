-- ===== src/Execution/Tests.antt =====
-- Runs of the operations of execution_lifecycle on small tables.
use factory_ops.Common.{
  ℕ, ◌≡◌, ◌≢◌, =s_iff, refl, String, none, some, [], ◌∷◌, true, false, pos, find, any, all, select,
  update, is_blank, show_int, digits, unique, length, ◌↔◌, ◌≤◌,
}
use mathlib.Core.Bool.{false≢true}
use factory_ops.Session.{Result, ok, err, ◌>>=◌, begin, connect, step_at}
use factory_ops.Database.{Database}
use factory_ops.Versioned
use factory_ops.Versioned.{history as history_of}
use factory_ops.Run.Model.{applied, duplicate_identical, duplicate_conflicting}
use factory_ops.Run.Quiet.{quiet}
use factory_ops.Run.Service.Calls.{aware}
use factory_ops.Execution.Model.{
  CreateExecutionCommand, TransitionCommand, TransitionPlan, ExecutionRow, pending, running, failed,
}
use factory_ops.Execution.Rules.{legal, terminal, is_legal, is_terminal, plan_transition}
use factory_ops.Execution.Rules.Plan.{IsAcceptable, planned, plan_transition_iff}
use factory_ops.Execution.Contract.{
  Libraries, ExecutionContract, compute_execution_key, result_of, failure_of, contract_of,
  identity_schema, provenance_schema, input_schema, status_schema, schema_valid, specialist_roles,
  times_ordered, validate_execution, to_contract,
}
use factory_ops.Execution.Constraints.{
  lifecycle_check, result_check, execution_checks, transition_checks, transition_keys_free,
}
use factory_ops.Execution.Repository.{
  find_transition, find_execution, insert_transition, is_target, updated_row, update_breaks_check,
  update_execution, apply_statements, apply,
}
use factory_ops.Execution.Consistency.{IsConsistent}
use factory_ops.Execution.Service.{
  Inputs, OperationResult, history, get_execution, outcome_with_execution, initial_row,
  initial_transition, execution_key, transition_execution, existing_or, with_current, after_plan,
  candidate, after_candidate, execution_update, transition_row, after_apply, transition_matches,
  classify_transition,
}
use factory_ops.Execution.Service.Applied.{IsStored, texts_kept}
use factory_ops.Execution.Contract.Bounds.{IsTimely, to_contract-bounds, to_contract-IsStorable}
use factory_ops.Execution.Service.Validated.{update-candidate}
use factory_ops.Execution.Guarantees.{
  applied_execution-IsStored, applied_retry_is_classified, reordered_failure_conflicts,
}

-- A database whose JSON columns return each text as it was printed, and one that returns another.
abbrev library : (String → String) → Libraries
library column = record {
  matches = λ regex s. true;
  sha256 = λ s. s;
  result_text = λ r. "{}";
  failure_text = λ f. f.code;
  json_column = column;
}

abbrev plain : Libraries
plain = library (λ s. s)

abbrev reordering : Libraries
reordering = library (λ s. "reordered")

abbrev coordination : CreateExecutionCommand
coordination = record {
  run_id = "RUN-1";
  agent_role = "coordinator";
  attempt = pos 1;
  task_id = none;
  runtime_version = "1.0.0";
  prompt_version = "1.0.0";
  model_policy_version = "1.0.0";
  tool_policy_version = "1.0.0";
  context_policy_version = "1.0.0";
  code_revision = "abcdef0";
  context_snapshot_id = "CTX-1";
  evidence_refs = "evidence/1" ∷ [];
}

abbrev inputs : ℕ → String → Inputs
inputs at transition_id = record {
  clock = aware at;
  execution_id = "EXE-1";
  transition_id = transition_id;
  transition_request_id = "ERQ-0";
}

abbrev start : TransitionCommand
start = record {
  transition_request_id = "ERQ-1";
  execution_id = "EXE-1";
  expected_status = pending;
  expected_revision = pos 0;
  to_status = running;
  actor_kind = "COORDINATOR";
  actor_id = "coordinator-1";
  reason_code = "EXECUTION_STARTED";
  reason_message = "started";
  result = none;
  failure = none;
}

abbrev break : TransitionCommand
break = record start {
  transition_request_id = "ERQ-2";
  expected_status = running;
  expected_revision = pos 1;
  to_status = failed;
  reason_code = "EXECUTION_FAILED";
  failure = some (record {
    code = "MODEL_TIMEOUT";
    message = "the model did not answer";
    recoverability = "retryable";
    failed_dependency_ref = none;
  });
}

abbrev created : Libraries → Database
created x = record {
  inbox = [];
  rejections = [];
  runs = [];
  run_transitions = [];
  executions =
      initial_row (inputs 100 "ETR-0") coordination (execution_key x coordination) 100 ∷ [];
  execution_transitions = initial_transition x (inputs 100 "ETR-0") 100 ∷ [];
  tasks = [];
  task_dependencies = [];
  task_transitions = [];
  leases = [];
  start_receipts = [];
  worker_starts = [];
  worker_completions = [];
}

abbrev value : Result OperationResult → OperationResult
value (ok r) = r
value (err e) = record { outcome = applied; execution = none }

abbrev started : Libraries → Database
started x = (transition_execution x (inputs 200 "ETR-1") start (quiet (created x))).1.store

abbrev breaking : Libraries → Result OperationResult
breaking x = (transition_execution x (inputs 300 "ETR-2") break (quiet (started x))).0

abbrev broken : Libraries → Database
broken x = (transition_execution x (inputs 300 "ETR-2") break (quiet (started x))).1.store

abbrev retrying : Libraries → Result OperationResult
retrying x = (transition_execution x (inputs 400 "ETR-3") break (quiet (broken x))).0

breaks :
    (breaking plain ≡ ok (value (breaking plain)))
    × ((value (breaking plain)).outcome ≡ applied)
    × (breaking reordering ≡ ok (value (breaking reordering)))
    × ((value (breaking reordering)).outcome ≡ applied)
unfolding initial_row initial_transition compute_execution_key show_int digits history to_contract
    contract_of result_of failure_of validate_execution schema_valid identity_schema
    provenance_schema input_schema status_schema specialist_roles times_ordered unique
    execution_checks insert_transition transition_checks transition_keys_free outcome_with_execution
    get_execution find_execution transition_execution existing_or find_transition with_current
    after_plan plan_transition is_legal legal is_terminal terminal candidate after_candidate
    execution_update transition_row apply apply_statements update_execution is_target updated_row
    update_breaks_check after_apply transition_matches classify_transition texts_kept is_blank find
    any all select update ◌>>=◌ begin connect step_at
breaks = (refl, refl, refl, refl)

retries :
    (retrying plain ≡ ok (value (retrying plain)))
    × (retrying reordering ≡ ok (value (retrying reordering)))
unfolding initial_row initial_transition compute_execution_key show_int digits history to_contract
    contract_of result_of failure_of validate_execution schema_valid identity_schema
    provenance_schema input_schema status_schema specialist_roles times_ordered unique
    execution_checks insert_transition transition_checks transition_keys_free outcome_with_execution
    get_execution find_execution transition_execution existing_or find_transition with_current
    after_plan plan_transition is_legal legal is_terminal terminal candidate after_candidate
    execution_update transition_row apply apply_statements update_execution is_target updated_row
    update_breaks_check after_apply transition_matches classify_transition texts_kept is_blank find
    any all select update ◌>>=◌ begin connect step_at
retries = (refl, refl)

applied_execution-IsStored_example : IsStored plain break (broken plain)
applied_execution-IsStored_example =
    applied_execution-IsStored plain (inputs 300 "ETR-2") break (quiet (started plain))
      (value (breaking plain)) tt breaks.0 breaks.1

applied_retry_is_classified_example :
    (texts_kept plain break ≡ true → (value (retrying plain)).outcome ≡ duplicate_identical)
    × (texts_kept plain break ≡ false → (value (retrying plain)).outcome ≡ duplicate_conflicting)
applied_retry_is_classified_example =
    applied_retry_is_classified plain (inputs 300 "ETR-2") (inputs 400 "ETR-3") break
      (quiet (started plain)) (quiet (broken plain)) (value (breaking plain))
      (value (retrying plain)) tt breaks.0 breaks.1 (λ id t h. h) tt retries.0

reordered : reordering.json_column "MODEL_TIMEOUT" ≢ "MODEL_TIMEOUT"
reordered h =
    absurd (false≢true ((=s_iff (reordering.json_column "MODEL_TIMEOUT") "MODEL_TIMEOUT").1 h))

reordered_failure_conflicts_example : (value (retrying reordering)).outcome ≡ duplicate_conflicting
reordered_failure_conflicts_example =
    reordered_failure_conflicts reordering (inputs 300 "ETR-2") (inputs 400 "ETR-3") break
      (record {
        code = "MODEL_TIMEOUT";
        message = "the model did not answer";
        recoverability = "retryable";
        failed_dependency_ref = none;
      })
      (quiet (started reordering)) (quiet (broken reordering)) (value (breaking reordering))
      (value (retrying reordering)) refl reordered tt breaks.2 breaks.3 (λ id t h. h) tt retries.1

abbrev row : ExecutionRow
row = initial_row (inputs 100 "ETR-0") coordination (execution_key plain coordination) 100

created-IsConsistent :
    IsConsistent (created plain) × (find_execution "EXE-1" (created plain) ≡ some row)
unfolding initial_row initial_transition history find_execution find any select Versioned.history
created-IsConsistent = (
  record {
    versioned = record {
      keys = (refl, tt);
      requests = (refl, tt);
      slots = (refl, tt);
      owned = (refl, tt);
      recorded = ((refl, refl, refl, refl, refl), tt);
    };
    execution_keys = (refl, tt);
  },
  refl,
)

plan_transition_iff_example :
    (plan_transition start none 200 ≡ ok (planned start none 200))
    ↔ (IsAcceptable start × (planned start none 200 ≡ planned start none 200))
plan_transition_iff_example = plan_transition_iff start none 200 (planned start none 200)

-- What the created row renders to.
abbrev row_contract : ExecutionContract
row_contract = contract_of row

row_renders : to_contract plain row ≡ ok row_contract
unfolding initial_row compute_execution_key show_int digits to_contract contract_of result_of
    failure_of validate_execution schema_valid identity_schema provenance_schema input_schema
    status_schema specialist_roles times_ordered unique find any all
row_renders = refl

to_contract-bounds_example :
    ((n : ℕ) × (row.attempt ≡ pos n) × (1 ≤ n) × (n ≤ 2147483647))
    × (length row.input_evidence_refs ≤ 64)
    × IsTimely plain row
to_contract-bounds_example = to_contract-bounds plain row row_contract row_renders

to_contract-IsStorable_example :
    (lifecycle_check row.status row ≡ true) × (result_check row.status row ≡ true)
to_contract-IsStorable_example =
    to_contract-IsStorable plain row row_contract (λ e. unfold initial_row in refl) row_renders

abbrev plan : TransitionPlan
plan = planned break (some 200) 300

update-candidate_example :
    (updated_row (execution_update break plan 300) row ≡ candidate break row plan 300)
    × (result_of (updated_row (execution_update break plan 300) row) ≡ none)
    × (failure_of (updated_row (execution_update break plan 300) row)
        ≡ some (record {
          code = "MODEL_TIMEOUT";
          message = some "the model did not answer";
          recoverability = some "retryable";
          failed_dependency_ref = none;
        }))
update-candidate_example = update-candidate break plan 300 row
