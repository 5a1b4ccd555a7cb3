-- ===== src/Worker.antt =====
-- worker_task_execution.py: how a worker starts the Task that it has leased.
pub mod Model
pub mod Validation
pub mod Repository
pub mod Transaction
pub mod Service
pub mod Admission
pub mod Completion
pub mod Tests
