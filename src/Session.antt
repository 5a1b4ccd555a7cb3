-- ===== src/Session.antt =====
-- A database session (SQLAlchemy's `Engine`): every `with engine.begin()` or `engine.connect()`
-- block is one atomic step. Before each step other sessions may have committed changes, and the
-- connection may be lost before the step or after its commit; both come from an explicit list.
pub mod Keeps
pub mod Ensures
pub mod Statements
pub mod Lookup
use factory_ops.Common.{List, [], ◌∷◌, Option, none, some, String, Bool, if◌then◌else◌}

-- The exceptions that the services raise or handle.
pub data Exception : Type 0 where
  integrity_error operational_error data_error conditional_update_miss : Exception
  value_error agent_run_validation_error agent_task_validation_error : String → Exception
  agent_execution_validation_error : String → Exception
  lifecycle_rule_violation run_creation_rejected task_creation_rejected : String → Exception
  execution_creation_rejected persistence_integrity_error : String → Exception
  worker_execution_rejected : String → Exception
  run_missing run_not_startable coordinator_execution_rejected : String → Exception
  run_not_found task_not_found execution_not_found : String → Exception
  lease_rejected run_start_integrity_error inbox_state_error : String → Exception
  parent_run_missing parent_task_missing parent_task_mismatch : Exception
  dependency_missing cross_run_dependency : String → Exception

pub data Result (A : Type 0) : Type 0 where
  ok : A → Result A
  err : Exception → Result A

-- How the connection behaves at one step.
pub data Fault : Type 0 where
  healthy lost_before lost_after : Fault

pub record Slot (S : Type 0) : Type 0 where
  pub others : S → S
  pub fault : Fault

pub record World (S : Type 0) : Type 0 where
  pub store : S
  pub upcoming : List (Slot S)

abbrev pub Action : Type 0 → Type 0 → Type 0
Action S A = World S → Result A × World S

-- The statements inside one transaction.
abbrev pub Tx : Type 0 → Type 0 → Type 0
Tx S A = S → Result A × S

module _ {S A : Type 0} where
  abbrev pub pure : A → Action S A
  pure a w = (ok a, w)

  abbrev pub raise : Exception → Action S A
  raise e w = (err e, w)

  abbrev pub lift : Result A → Action S A
  lift r w = (r, w)

  -- `try: … except …`: the outcome as a value, for a handler by clauses.
  abbrev pub attempt : Action S A → Action S (Result A)
  attempt m w = let (r, w') = m w in (ok r, w')

  -- An exception inside the block rolls the transaction back.
  abbrev pub settle : Fault → S → Result A × S → Result A × S
  settle lost_before s _ = (err operational_error, s)
  settle healthy s (ok a, s') = (ok a, s')
  settle healthy s (err e, s') = (err e, s)
  settle lost_after s (ok a, s') = (err operational_error, s')
  settle lost_after s (err e, s') = (err e, s)

  unfoldable pub step_at : List (Slot S) → Tx S A → S → Result A × World S
  step_at [] body s =
      let (r, s') = settle healthy s (body s) in (r, record { store = s'; upcoming = [] })
  step_at (slot ∷ rest) body s =
      let now = slot.others s in
      let (r, s') = settle slot.fault now (body now) in (r, record { store = s'; upcoming = rest })

  -- `with engine.begin() as connection`
  unfoldable pub begin : Tx S A → Action S A
  unfolding step_at
  begin body w = step_at w.upcoming body w.store

  -- `with engine.connect() as connection`, for a block that only reads.
  unfoldable pub connect : (S → A) → Action S A
  unfolding begin
  connect query = begin (λ s. (ok (query s), s))

module _ {S A B : Type 0} where
  abbrev pub continue : Result A × World S → (A → Action S B) → Result B × World S
  continue (ok a, w) f = f a w
  continue (err e, w) f = (err e, w)

  infixl 5 ◌>>=◌ ◌>>◌
  unfoldable pub ◌>>=◌ : Action S A → (A → Action S B) → Action S B
  ◌>>=◌ m f w = continue (m w) f

  abbrev pub ◌>>◌ : Action S A → Action S B → Action S B
  m >> n = m >>= λ _. n
