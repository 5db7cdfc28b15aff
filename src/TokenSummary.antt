-- ===== src/TokenSummary.antt =====
-- tokensummary: the balances of an account as text (contracts/tokensummary).
mod State
mod Actions
pub mod Amounts
pub mod Keys
mod Tests
unfoldable pub use State.*
unfoldable pub use Actions.*
