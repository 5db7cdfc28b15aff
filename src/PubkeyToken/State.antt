-- ===== src/PubkeyToken/State.antt =====
-- pubkey.token: the tables (pubkey.token.db.hpp), and what the actions send.
use toolkit_contracts.Base.{List, Text, [], ℕ, ◌∷◌}
use toolkit_contracts.Chain.{Asset, Chain}

-- One for each message of a check; `unauthorized` is a failed `require_auth`, and `platform` an
-- abort inside the libraries.
pub data Error : Type 0 where
  unauthorized no_auth wrong_bank wrong_symbol bad_prefix bad_base58 bad_length : Error
  account_exists account_missing invalid_key invalid_signature key_not_found : Error
  fee_insufficient wrong_signer wrong_time platform : Error

pub record Global : Type 0 where
  pub admin : ℕ
  pub last_idx : ℕ
  pub miner_fee : Asset

-- A public key is the number of its bytes. The time is in microseconds.
pub record PubkeyAccount : Type 0 where
  pub id : ℕ
  pub pubkey : ℕ
  pub quantity : Asset
  pub last_recv_at : ℕ

-- What is sent to the system contract, and transfers of the token contract.
pub data Message : Type 0 where
  newaccount_message : ℕ → ℕ → Message
  buygas_message : ℕ → Asset → Message
  transfer_message : ℕ → Asset → Message

-- The table, and what was sent, the last one first.
pub record State (c : Chain) : Type 0 where
  pub global : Global
  pub pkaccts : c.Table PubkeyAccount
  pub sent : List Message

-- 8,FLON
abbrev pub flon_symbol : ℕ
flon_symbol = 0x4e4f4c4608

-- `flon.token`
abbrev pub sys_bank : Text
sys_bank = b'f' ∷ b'l' ∷ b'o' ∷ b'n' ∷ b'.' ∷ b't' ∷ b'o' ∷ b'k' ∷ b'e' ∷ b'n' ∷ []
