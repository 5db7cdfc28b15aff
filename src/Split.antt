-- ===== src/Split.antt =====
-- flon.split: token split plans (contracts/flon.split). The state and the actions; the children
-- prove what they do.
pub mod State
mod Actions
pub mod Rates
pub mod Conserve
pub mod Claims
pub mod Sound
pub mod Held
pub mod Books
pub mod Run
pub mod Share
mod Tests
unfoldable pub use State.*
unfoldable pub use Actions.*
