-- ===== src/Redpack.antt =====
-- flon.redpack: red packets, which a creator funds and claimers share (contracts/flon.redpack).
mod State
mod Assign
mod Memo
mod Actions
pub mod Random
pub mod Starved
pub mod Claims
pub mod Conserve
pub mod Fair
pub mod Ledger
pub mod Run
mod Tests
unfoldable pub use State.*
unfoldable pub use Assign.*
unfoldable pub use Memo.*
unfoldable pub use Actions.*
