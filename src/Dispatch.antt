-- ===== src/Dispatch.antt =====
-- coordinator_task_dispatch: a coordinator creates a Task.
pub mod Repository
pub mod Links
pub mod Stored
pub mod Service
pub mod Retry
mod Tests
