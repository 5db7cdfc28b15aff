-- ===== src/Chain.antt =====
-- What the contracts take from the chain and from the contract library that they are built with:
-- tables, asset arithmetic, account names. None of it is in the repository, so it is a parameter
-- with its documented behaviour as laws.
mod RowList
mod Defs
mod Totals
mod Tally
pub mod Memory
unfoldable pub use RowList.*
unfoldable pub use Defs.*
pub use Totals.*
pub use Tally.*
