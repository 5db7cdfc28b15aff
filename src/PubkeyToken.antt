-- ===== src/PubkeyToken.antt =====
-- pubkey.token: tokens that are held for public keys (contracts/pubkey.token).
mod State
mod Base58
mod Actions
mod Lookup
pub mod Apart
pub mod Books
pub mod Run
pub mod Locked
pub mod Digits
pub mod Room
pub mod Decode
pub mod Keys
mod Tests
unfoldable pub use State.*
unfoldable pub use Base58.*
unfoldable pub use Actions.*
