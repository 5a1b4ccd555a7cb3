-- ===== src/Execution/Service.antt =====
-- execution_lifecycle/service.py. Each call of the repository is one step of the session. What the
-- clock and the factories of a call return comes in as `Inputs`.
pub mod Calls
pub mod Create
pub mod Transition
pub mod Keeps
pub mod Applied
pub mod Stores
pub mod Validated
unfoldable pub use Calls.*
unfoldable pub use Create.*
unfoldable pub use Transition.*
