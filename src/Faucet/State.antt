-- ===== src/Faucet/State.antt =====
-- flon.faucet: the table (faucetdb.hpp), and what the actions send.
use toolkit_contracts.Base.{List, ℕ}
use toolkit_contracts.Chain.{Asset, Chain}

-- `platform` is an abort inside the libraries.
pub data Error : Type 0 where
  rate_overload platform : Error

-- The time is in microseconds.
pub record Account : Type 0 where
  pub owner : ℕ
  pub updated_at : ℕ

-- What is sent to the system contract, `newaccount` with one key for both permissions and
-- `buygas`, and to the token contract. Public keys are numbers.
pub data Message : Type 0 where
  newaccount_message : ℕ → ℕ → Message
  buygas_message : ℕ → Asset → Message
  transfer_message : ℕ → Asset → Message

-- What was sent, the last one first.
pub record State (c : Chain) : Type 0 where
  pub accounts : c.Table Account
  pub sent : List Message

-- 8,FLON
abbrev pub sys_symbol : ℕ
sys_symbol = 0x4e4f4c4608

abbrev pub day_seconds : ℕ
day_seconds = 86400
