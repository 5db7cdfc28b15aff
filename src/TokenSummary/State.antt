-- ===== src/TokenSummary/State.antt =====
-- tokensummary: the tables (tokensummary.db.hpp).
use toolkit_contracts.Base.{Text, ℕ, ◌%◌, ◌*◌, ◌+◌, ◌/◌, ◌^◌}
use toolkit_contracts.Chain.{Chain}

-- One for each message of `check`; `unauthorized` is a failed `require_auth`.
pub data Error : Type 0 where
  unauthorized bank_missing invalid_symbol token_listed token_missing : Error

pub record TokenCfg : Type 0 where
  pub bank : ℕ
  pub sym : ℕ

pub record TokenInfo : Type 0 where
  pub code : ℕ
  pub balance : Text
  pub coin : Text

pub record State (c : Chain) : Type 0 where
  pub admin : ℕ
  pub tokencfg : c.Table TokenCfg

-- `sym.code().raw()`
abbrev pub code_of : ℕ → ℕ
code_of sym = sym / 2 ^ 8

-- `make_tokencfg_pk`, which has 128 bits.
unfoldable pub make_tokencfg_pk : ℕ → ℕ → ℕ
make_tokencfg_pk bank sym = bank * 2 ^ 64 + code_of sym

-- The key of a table has 64 bits; a wider one loses its upper half.
unfoldable pub table_key : ℕ → ℕ
table_key pk = pk % 2 ^ 64
