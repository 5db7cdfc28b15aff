-- ===== src/Creator.antt =====
-- flon.creator: accounts that the administrator creates (contracts/flon.creator).
mod State
mod Actions
pub mod Admin
mod Tests
unfoldable pub use State.*
unfoldable pub use Actions.*
