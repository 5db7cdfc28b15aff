-- ===== src/Vest.antt =====
-- flon.vest: vesting plans and issues (contracts/flon.vest).
mod State
mod Actions
pub mod Transfers
pub mod Books
pub mod Escrow
pub mod Sound
pub mod Run
pub mod Schedule
pub mod Status
mod Tests
unfoldable pub use State.*
unfoldable pub use Actions.*
