-- ===== src/Faucet.antt =====
-- flon.faucet: accounts and test tokens for anybody (contracts/flon.faucet).
mod State
mod Actions
pub mod Daily
mod Tests
unfoldable pub use State.*
unfoldable pub use Actions.*
