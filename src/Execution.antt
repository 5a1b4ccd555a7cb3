-- ===== src/Execution.antt =====
-- execution_lifecycle: the lifecycle of one execution of an agent.
pub mod Model
pub mod Rules
pub mod Contract
pub mod Constraints
pub mod Repository
pub mod Service
pub mod Consistency
pub mod Guarantees
mod Tests
