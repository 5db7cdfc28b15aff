-- ===== src/Creator/State.antt =====
-- flon.creator: the global row (include/flon.creator/flon.creator.db.hpp), and what is sent.
use toolkit_contracts.Base.{List, ℕ}
use toolkit_contracts.Chain.{Asset}

-- `unauthorized` is the abort of `require_auth`.
pub data Error : Type 0 where
  no_auth account_exists unauthorized : Error

-- What is sent to the system contract: `newaccount`, with one key for both permissions, and
-- `buygas`. Public keys are numbers.
pub data Message : Type 0 where
  newaccount_message : ℕ → ℕ → Message
  buygas_message : ℕ → Asset → Message

pub record Global : Type 0 where
  pub admin : ℕ
  pub gas_quant : Asset

-- What was sent, the last one first.
pub record State : Type 0 where
  pub global : Global
  pub sent : List Message
