-- ===== src/Execution/Contract/Bounds.antt =====
-- What the Agent Execution Contract promises of a row that renders.
use factory_ops.Common.{
  ℕ, ◌≤◌, ◌≡◌, refl, String, some, List, true, false, ◌&&◌, ◌||◌, arith, ℤ, pos, negsuc, leb,
  =s_iff, and-true, present, absent, length, all,
}
use factory_ops.Session.{ok}
use factory_ops.Run.Model.{Instant}
use factory_ops.Execution.Model.{
  ExecutionStatus, pending, running, succeeded, failed, cancelled, ExecutionRow,
}
use factory_ops.Execution.Contract.{
  Libraries, ContractIdentity, ContractLifecycle, ExecutionContract, compute_execution_key,
  contract_of, result_of, failure_of, identity_schema, input_schema, status_schema, schema_valid,
  times_ordered, validate_execution, to_contract, reference, reference_array, in_range,
}
use factory_ops.Execution.Constraints.{lifecycle_check, result_check}

module _ (x : Libraries) where
  -- A row renders to its contract when its columns are whole and the contract validates.
  to_contract-ok :
      (r : ExecutionRow) (c : ExecutionContract)
      → to_contract x r ≡ ok c
      → (c ≡ contract_of r)
        × (validate_execution x (contract_of r) ≡ ok tt)
        × ((absent r.output_artifact_refs
              && (present r.decision_id || present r.result_evidence_refs))
            ≡ false)
        × ((absent r.failure_code
              && (present r.failure_message
                  || present r.failure_recoverability
                  || present r.failed_dependency_ref))
            ≡ false)
  unfolding to_contract
  to_contract-ok r c h = ground arith

  validate_execution-ok :
      (c : ExecutionContract)
      → validate_execution x c ≡ ok tt
      → (schema_valid x c ≡ true)
        × (c.identity.execution_key
            ≡ compute_execution_key x c.identity.run_id c.identity.agent_role c.input.task_id
                c.identity.attempt)
        × (times_ordered x c.provenance.created_at c.lifecycle ≡ true)
  unfolding validate_execution
  validate_execution-ok c h = ground (
    arith,
    =s_iff c.identity.execution_key (
        compute_execution_key x c.identity.run_id c.identity.agent_role c.input.task_id
          c.identity.attempt),
  )

  schema_valid-ok :
      (c : ExecutionContract)
      → schema_valid x c ≡ true
      → (identity_schema x c.identity ≡ true)
        × (input_schema x c.input ≡ true)
        × (status_schema x c.lifecycle.status c.lifecycle c.result c.failure ≡ true)
  unfolding schema_valid
  schema_valid-ok c h = ground arith

  identity_bounds :
      (i : ContractIdentity)
      → identity_schema x i ≡ true
      → (n : ℕ) × (i.attempt ≡ pos n) × (1 ≤ n) × (n ≤ 2147483647)
  unfolding identity_schema
  identity_bounds i h = bounds i.attempt (and-true _ _ h).1
    where
      bounds : (z : ℤ) → in_range x z ≡ true → (n : ℕ) × (z ≡ pos n) × (1 ≤ n) × (n ≤ 2147483647)
      bounds (pos n) k = (n, refl, ground arith, ground arith)
      bounds (negsuc n) k = ground arith

  references_bound : (refs : List String) → reference_array x refs ≡ true → length refs ≤ 64
  references_bound refs h =
      ground (arith, and-true (leb (length refs) 64) (all (reference x) refs) h)

  -- The order of the timestamps of a row.
  abbrev pub IsTimely : ExecutionRow → Type 0
  IsTimely r =
      (r.created_at ≤ r.updated_at)
      × ((s : Instant) → r.started_at ≡ some s → s ≤ r.updated_at)
      × ((e : Instant) → r.ended_at ≡ some e → e ≤ r.updated_at)
      × ((s e : Instant) → r.started_at ≡ some s → r.ended_at ≡ some e → s ≤ e)

  times_ordered-ok :
      (at : Instant) (l : ContractLifecycle)
      → times_ordered x at l ≡ true
      → (at ≤ l.updated_at)
        × ((s : Instant) → l.started_at ≡ some s → s ≤ l.updated_at)
        × ((e : Instant) → l.ended_at ≡ some e → e ≤ l.updated_at)
        × ((s e : Instant) → l.started_at ≡ some s → l.ended_at ≡ some e → s ≤ e)
  unfolding times_ordered
  times_ordered-ok at l h =
      (ground arith, λ s es. ground arith, λ e ee. ground arith, λ s e es ee. ground arith)

  -- A row that renders to its contract has an attempt from 1 to 2147483647, at most 64 references to
  -- evidence, and timestamps in order: none is later than updated_at, and it does not end before it
  -- starts.
  pub to_contract-bounds :
      (r : ExecutionRow) (c : ExecutionContract)
      → to_contract x r ≡ ok c
      → ((n : ℕ) × (r.attempt ≡ pos n) × (1 ≤ n) × (n ≤ 2147483647))
        × (length r.input_evidence_refs ≤ 64)
        × IsTimely r
  unfolding contract_of input_schema
  to_contract-bounds r c h =
      let (made, valid, whole, whole_failure) = to_contract-ok r c h in
      let (schema, key, times) = validate_execution-ok (contract_of r) valid in
      let (identity, input, status) = schema_valid-ok (contract_of r) schema in
      (
        identity_bounds (contract_of r).identity identity,
        references_bound r.input_evidence_refs (and-true _ _ input).1,
        times_ordered-ok r.created_at (contract_of r).lifecycle times,
      )

  -- What the rule of a status says of the columns.
  storable :
      (r : ExecutionRow) (s : ExecutionStatus)
      → (s ≡ pending → r.revision ≡ 0)
      → status_schema x s (contract_of r).lifecycle (result_of r) (failure_of r) ≡ true
      → (absent r.output_artifact_refs && (present r.decision_id || present r.result_evidence_refs))
        ≡ false
      → (absent r.failure_code
          && (present r.failure_message
              || present r.failure_recoverability
              || present r.failed_dependency_ref))
        ≡ false
      → (lifecycle_check s r ≡ true) × (result_check s r ≡ true)
  unfolding lifecycle_check result_check status_schema contract_of result_of failure_of
  storable r pending first h result failure = (ground arith, ground arith)
  storable r running first h result failure = (ground arith, ground arith)
  storable r succeeded first h result failure = (ground arith, ground arith)
  storable r failed first h result failure = (ground arith, ground arith)
  storable r cancelled first h result failure = (ground arith, ground arith)

  -- A row that renders to its contract meets the CHECK constraints of the database on its lifecycle
  -- and on its result and failure, if its revision is 0 while it is PENDING.
  pub to_contract-IsStorable :
      (r : ExecutionRow) (c : ExecutionContract)
      → (r.status ≡ pending → r.revision ≡ 0)
      → to_contract x r ≡ ok c
      → (lifecycle_check r.status r ≡ true) × (result_check r.status r ≡ true)
  unfolding contract_of
  to_contract-IsStorable r c first h =
      let (made, valid, whole, whole_failure) = to_contract-ok r c h in
      let (schema, key, times) = validate_execution-ok (contract_of r) valid in
      let (identity, input, status) = schema_valid-ok (contract_of r) schema in
      storable r r.status first status whole whole_failure
