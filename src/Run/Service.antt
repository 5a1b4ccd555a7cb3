-- ===== src/Run/Service.antt =====
-- run_lifecycle/service.py. Each call of the repository is one step of the session. What the clock
-- and the factories of a call return comes in as `Inputs`.
pub mod Calls
mod Create
mod Transition
pub mod Keeps
pub mod Applied
pub mod Stores
unfoldable pub use Create.*
unfoldable pub use Transition.*
