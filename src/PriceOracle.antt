-- ===== src/PriceOracle.antt =====
-- price.oracle: prices of coins, reported by oracles (contracts/price.oracle).
mod State
mod Actions
pub mod Limits
pub mod Run
mod Prices
mod Tests
unfoldable pub use State.*
unfoldable pub use Actions.*
