-- ===== src/Airdrop.antt =====
-- flon.airdrop: airdrop plans, which oracles pay out (contracts/flon.airdrop).
mod State
mod Actions
pub mod Rules
pub mod Conserve
mod Tests
unfoldable pub use State.*
unfoldable pub use Actions.*
