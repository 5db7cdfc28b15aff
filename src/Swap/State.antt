-- ===== src/Swap/State.antt =====
-- flon.proxyswap: the tables (flon.proxyswap.db.hpp).
use toolkit_contracts.Base.{
  Bool, List, Option, Text, false, if◌then◌else◌, none, pos, some, true, ℕ, ◌==◌,
}
use toolkit_contracts.Chain.{Asset, Chain, Transfer}

-- The codes of `err` that the contract raises; `unauthorized` is a failed `require_auth`, and
-- `platform` an abort inside the chain's library.
pub data Error : Type 0 where
  invalid_format not_positive symbol_mismatch record_no_found account_invalid : Error
  amount_too_small pair_existed pair_not_enabled order_not_open order_already_handled : Error
  param_error unauthorized platform : Error

pub data PairStatus : Type 0 where
  enabled disabled : PairStatus

pub data OrderType : Type 0 where
  buy sell : OrderType

pub data OrderStatus : Type 0 where
  created finished cancelled : OrderStatus

pub record Global : Type 0 where
  pub admin : ℕ
  pub oracle : ℕ
  pub fee_receiver : ℕ
  pub last_order_id : ℕ

-- An extended symbol is a symbol and a token contract.
pub record Pair : Type 0 where
  pub tpcode : ℕ
  pub left_symbol : ℕ
  pub left_contract : ℕ
  pub right_symbol : ℕ
  pub right_contract : ℕ
  pub status : PairStatus
  pub mini_left : Asset
  pub mini_right : Asset
  pub max_slippage : ℕ

pub record Order : Type 0 where
  pub order_id : ℕ
  pub owner : ℕ
  pub tpcode : ℕ
  pub kind : OrderType
  pub left_quant : Asset
  pub submit_price : Asset
  pub deal_price : Asset
  pub slippage : ℕ
  pub right_quant : Asset
  pub refund_quant : Asset
  pub status : OrderStatus
  pub fee : Asset
  pub memo : Text
  pub created_at : ℕ
  pub updated_at : ℕ

-- The tables, and what the actions have sent, the last one first: the transfers, and the orders in
-- the `notifysettle` traces.
pub record State (c : Chain) : Type 0 where
  pub global : Global
  pub pairs : c.Table Pair
  pub orders : c.Table Order
  pub sent : List Transfer
  pub settled : List Order

abbrev pub is_enabled : PairStatus → Bool
is_enabled enabled = true
is_enabled disabled = false

abbrev pub is_created : OrderStatus → Bool
is_created created = true
is_created finished = false
is_created cancelled = false

-- What the order's owner has paid in, and what he is to get.
abbrev pub paid_quant : Order → OrderType → Asset
paid_quant o buy = o.right_quant
paid_quant o sell = o.left_quant

abbrev pub paid_symbol : Pair → OrderType → ℕ
paid_symbol p buy = p.right_symbol
paid_symbol p sell = p.left_symbol

abbrev pub deal_symbol : Pair → OrderType → ℕ
deal_symbol p buy = p.left_symbol
deal_symbol p sell = p.right_symbol

abbrev pub mini_quant : Pair → OrderType → Asset
mini_quant p buy = p.mini_right
mini_quant p sell = p.mini_left

-- `get_token_contract`: the left symbol is tried first.
unfoldable pub get_token_contract : Pair → Asset → Option ℕ
get_token_contract p q =
    if q.symbol == p.left_symbol
    then some p.left_contract
    else if q.symbol == p.right_symbol
    then some p.right_contract
    else none

abbrev pub zero_of : ℕ → Asset
zero_of raw = record { amount = pos 0; symbol = raw }

abbrev pub by_kind : OrderType → Asset → Asset → Asset
by_kind buy a b = a
by_kind sell a b = b
