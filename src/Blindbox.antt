-- ===== src/Blindbox.antt =====
-- flon.blindbox: booths that sell random NFTs (contracts/flon.blindbox).
mod State
mod Stock
mod Actions
pub mod Counts
pub mod Run
mod Kept
mod Invariant
mod Draw
pub mod Purchase
pub mod Funding
mod Tests
unfoldable pub use State.*
unfoldable pub use Stock.*
unfoldable pub use Actions.*
