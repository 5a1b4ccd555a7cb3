-- ===== src/Task.antt =====
-- task_lifecycle and task_lease.py: Agent Tasks, their history, and the leases on them.
pub mod Model
pub mod Rules
pub mod Constraints
pub mod Repository
pub mod Contract
pub mod Service
pub mod Consistency
pub mod Guarantees
pub mod Order
mod Tests
pub mod LeaseTable
pub mod Lease
