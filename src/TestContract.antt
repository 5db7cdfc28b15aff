-- ===== src/TestContract.antt =====
-- flon.test: actions that add and erase rows in many ways (contracts/flon.test).
mod State
mod Actions
pub mod Erase
pub mod Messages
pub mod Batches
mod Tests
unfoldable pub use State.*
unfoldable pub use Actions.*
