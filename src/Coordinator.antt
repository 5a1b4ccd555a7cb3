-- ===== src/Coordinator.antt =====
-- coordinator_start: the start of the coordinator of a Run.
pub mod Model
pub mod Repository
pub mod Service
pub mod Receipts
mod Tests
pub mod Finished
