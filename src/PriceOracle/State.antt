-- ===== src/PriceOracle/State.antt =====
-- price.oracle: the tables (price.oracle.states.hpp) and the codes of price.oracle.const.hpp.
use toolkit_contracts.Base.{neg_part, pos_part, ℕ, ℤ, ◌%◌, ◌+◌, ◌-◌, ◌^◌}
use toolkit_contracts.Chain.{Asset, Chain, Rows}

-- The codes of `err` that the contract raises; `unauthorized` is a failed `require_auth`, and
-- `platform` an abort inside the libraries.
pub data Error : Type 0 where
  no_auth record_found record_not_found param_error unauthorized platform : Error

-- The prices are in the units of the quote symbol; zero stands for none so far.
pub record Global : Type 0 where
  pub prices : Rows ℕ
  pub price_history_count : ℕ
  pub quote_code : ℕ
  pub quote_symbol : ℕ

pub record CoinPriceInfo : Type 0 where
  pub tpcode : ℕ
  pub price : Asset

-- The time is in microseconds.
pub record CoinPrice : Type 0 where
  pub id : ℕ
  pub tpcode : ℕ
  pub price : Asset
  pub updated_at : ℕ

-- `oracles` holds the names of the oracles; the tables of prices have the coin as their scope.
pub record State (c : Chain) : Type 0 where
  pub global : Global
  pub oracles : c.Table ℕ
  pub prices : ℕ → c.Table CoinPrice

-- An `int64_t` that is stored as a `uint64_t`.
abbrev pub as_uint64 : ℤ → ℕ
as_uint64 n = (pos_part n + 2 ^ 64 - neg_part n) % 2 ^ 64
