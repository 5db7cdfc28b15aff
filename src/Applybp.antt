-- ===== src/Applybp.antt =====
-- flon.applybp: the profiles of the accounts that apply as block producers
-- (contracts/flon.applybp).
mod State
mod Actions
pub mod Status
mod Tests
unfoldable pub use State.*
unfoldable pub use Actions.*
