-- ===== src/System.antt =====
-- The lifecycle services together, on one database: clients call the services of Runs, Tasks and
-- Executions in any order.
pub mod Frame
pub mod Serve
pub mod Ended
mod Tests
