-- ===== src/Blindbox/State.antt =====
-- flon.blindbox: the tables (blindboxdb.hpp).
use toolkit_contracts.Base.{
  Bool, List, Text, false, if◌then◌else◌, ltb, neg_part, not, pos, pos_part, sub_ℕ, true, ℕ, ℤ, ◌%◌,
  ◌+◌, ◌-◌, ◌^◌,
}
use toolkit_contracts.Chain.{Asset, Chain, Rows, Transfer}

-- The codes of `err` that the contract raises; `unauthorized` is a failed `require_auth`, and
-- `platform` an abort by a `check` without a code or inside the libraries.
pub data Error : Type 0 where
  record_not_found symbol_mismatch param_error memo_format_error no_auth not_positive : Error
  oversized account_invalid status_error data_mismatch unauthorized platform : Error

pub data BoothStatus : Type 0 where
  enabled disabled : BoothStatus

pub record Global : Type 0 where
  pub admin : ℕ
  pub fund_distributor : ℕ
  pub max_booth_boxes : ℕ
  pub max_nfts_purchase : ℕ
  pub last_booth_id : ℕ

-- Times are in seconds.
pub record Booth : Type 0 where
  pub id : ℕ
  pub owner : ℕ
  pub title : Text
  pub nft_contract : ℕ
  pub fund_contract : ℕ
  pub split_plan_id : ℕ
  pub price : Asset
  pub fund_recd : Asset
  pub nft_box_num : ℕ
  pub nft_num : ℕ
  pub nft_num_sum : ℕ
  pub status : BoothStatus
  pub created_at : ℕ
  pub updated_at : ℕ
  pub opened_at : ℕ
  pub closed_at : ℕ

-- An amount of an NFT. The symbol is its raw number: the id in the lower 32 bits, and the parent's
-- above.
pub record NAsset : Type 0 where
  pub amount : ℤ
  pub symbol : ℕ

-- The NFTs of a booth, in the order of their symbols.
abbrev pub Nfts : Type 0
Nfts = Rows ℕ

pub record NTransfer : Type 0 where
  pub bank : ℕ
  pub to : ℕ
  pub assets : List NAsset

-- A token transfer with its memo.
pub record Payment : Type 0 where
  pub transfer : Transfer
  pub memo : Text

pub record DealTrace : Type 0 where
  pub booth_id : ℕ
  pub buyer : ℕ
  pub nft_contract : ℕ
  pub fund_contract : ℕ
  pub paid_quant : Asset
  pub sold_quant : NAsset
  pub created_at : ℕ

-- The tables, and what the actions have sent, the last one first: token payments, NFT transfers
-- and `dealtrace` traces.
pub record State (c : Chain) : Type 0 where
  pub global : Global
  pub booths : c.Table Booth
  pub boothboxes : c.Table Nfts
  pub sent : List Payment
  pub sent_nfts : List NTransfer
  pub traces : List DealTrace

abbrev pub is_enabled : BoothStatus → Bool
is_enabled enabled = true
is_enabled disabled = false

-- An unsigned number that is stored in an `int64_t`.
abbrev pub as_int64 : ℕ → ℤ
as_int64 n = if ltb n (2 ^ 63) then pos n else sub_ℕ n (2 ^ 64)

abbrev pub as_uint64 : ℤ → ℕ
as_uint64 n = (pos_part n + 2 ^ 64 - neg_part n) % 2 ^ 64

abbrev pub same_bool : Bool → Bool → Bool
same_bool true b = b
same_bool false b = not b
