-- ===== src/Swap.antt =====
-- flon.proxyswap: swap orders, which an oracle settles (contracts/flon.proxyswap).
mod State
mod Actions
mod Memo
pub mod Orders
pub mod Settled
pub mod Run
pub mod Stranded
mod Tests
unfoldable pub use State.*
unfoldable pub use Actions.*
unfoldable pub use Memo.*
