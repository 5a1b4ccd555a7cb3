-- ===== src/Run.antt =====
-- run_lifecycle: Workflow Runs, from their Contract to the stored rows and their history.
pub mod Model
pub mod Rules
pub mod Contract
pub mod Repository
pub mod Service
pub mod History
pub mod Consistency
pub mod Guarantees
pub mod Ended
pub mod Locking
pub mod Quiet
mod Tests
