-- ===== src/Task/Lease/Tests.antt =====
-- Runs of the operations of task_lease.py on small tables.
use factory_ops.Common.{
  ◌≡◌, refl, none, some, List, [], ◌∷◌, pos, find, all, select, update, is_blank,
}
use factory_ops.Session.{World, ok, err, ◌>>=◌, begin, step_at, lease_rejected}
use factory_ops.Database.{Database}
use factory_ops.Task.Model.{pending, TaskRow, LeaseRow}
use factory_ops.Task.LeaseTable.{find_lease, claim_statements, renew_statements}
use factory_ops.Task.Lease.{new_lease, granted, claim_for, claim, renew_for, renew, valid_ttl}
use factory_ops.Task.Lease.Exclusion.{LeaseCall, claiming, releasing, serve, held_lease_is_kept}
use factory_ops.Task.Lease.Grants.{IsGrant, IsRenewal, claim_grants, renew_extends}

abbrev task : TaskRow
task = record {
  task_id = "TSK-1";
  task_request_id = "TRQ-1";
  task_key = "TKY-1";
  contract_version = "1.0.0";
  run_id = "RUN-1";
  task_type = "root_cause_analysis";
  target_agent_role = "root_cause_agent";
  created_by_execution_id = "EXE-1";
  priority = pos 50;
  context_snapshot_id = "CTX-1";
  evidence_refs = [];
  status = pending;
  revision = 0;
  created_at = 100;
  updated_at = 100;
  started_at = none;
  ended_at = none;
  status_reason_code = none;
  status_reason_message = none;
  current_execution_id = none;
  attempt_count = 0;
  completion_execution_id = none;
  failure_execution_id = none;
  failure_code = none;
  failure_message = none;
  failure_recoverability = none;
}

abbrev tables : List LeaseRow → World Database
tables leases = record {
  store = record {
    inbox = [];
    rejections = [];
    runs = [];
    run_transitions = [];
    executions = [];
    execution_transitions = [];
    tasks = task ∷ [];
    task_dependencies = [];
    task_transitions = [];
    leases = leases;
    start_receipts = [];
    worker_starts = [];
    worker_completions = [];
  };
  upcoming = [];
}

abbrev held : LeaseRow
held = new_lease "TSK-1" "worker-1" "LSE-1" 1000 60

claimed : (claim "TSK-1" "worker-1" (pos 60) "LSE-1" 1000 (tables [])).0 ≡ ok (granted held)
unfolding claim claim_for claim_statements find_lease valid_ttl is_blank find all update ◌>>=◌ begin
    step_at
claimed = refl

renewed :
    (renew (granted held) (pos 120) 2000 (tables (held ∷ []))).0
    ≡ ok (record (granted held) { expires_at = 120002000 })
unfolding renew renew_for renew_statements valid_ttl select update ◌>>=◌ begin step_at
renewed = refl

-- The lease expires at 60001000.
claim-held :
    (claim "TSK-1" "worker-2" (pos 60) "LSE-2" 60000999 (tables (held ∷ []))).0
    ≡ err (lease_rejected "Task lease is held")
unfolding claim claim_for claim_statements find_lease valid_ttl is_blank find all update ◌>>=◌ begin
    step_at
claim-held = refl

abbrev rivals : List LeaseCall
rivals =
    claiming "TSK-1" "worker-2" (pos 60) "LSE-2" 60000999
    ∷ releasing (record (granted held) { lease_token = "LSE-2" })
    ∷ []

held_lease_is_kept_example :
    find_lease "TSK-1" (serve rivals (tables (held ∷ []))).1.store ≡ some held
unfolding find_lease find
held_lease_is_kept_example =
    held_lease_is_kept held rivals (tables (held ∷ [])) (λ same. refl, (refl, tt)) refl tt

claim_grants_example :
    IsGrant "TSK-1" "worker-1"
      (pos 60)
      "LSE-1"
      1000
      (granted held)
      (claim "TSK-1" "worker-1" (pos 60) "LSE-1" 1000 (tables [])).1.store
claim_grants_example =
    claim_grants "TSK-1" "worker-1" (pos 60) "LSE-1" 1000 (tables []) (granted held) claimed

renew_extends_example :
    IsRenewal
      (granted held)
      (pos 120)
      2000
      (record (granted held) { expires_at = 120002000 })
      (renew (granted held) (pos 120) 2000 (tables (held ∷ []))).1.store
renew_extends_example =
    renew_extends (granted held) (pos 120) 2000 (tables (held ∷ []))
      (record (granted held) { expires_at = 120002000 }) renewed
