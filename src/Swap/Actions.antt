-- ===== src/Swap/Actions.antt =====
-- flon.proxyswap: the actions (src/flon.proxyswap.cpp).
use toolkit_contracts.Base.{
  Bool, Result, Text, check, eq_ℤ, is_some, leb_ℤ, ltb_ℤ, not, ok, or_abort, pos, pos_part, ℕ, ℤ,
  ◌%◌, ◌&&◌, ◌+◌, ◌==◌, ◌>>=◌, ◌>>◌, ◌^◌, ◌∷◌,
}
use toolkit_contracts.Chain.{Asset, Chain, Context, emplace}
use toolkit_contracts.Swap.State.{
  Error, Order, OrderType, Pair, State, account_invalid, amount_too_small, by_kind, cancelled,
  created, deal_symbol, disabled, enabled, finished, get_token_contract, invalid_format, is_created,
  is_enabled, mini_quant, not_positive, order_already_handled, order_not_open, paid_quant,
  paid_symbol, pair_existed, pair_not_enabled, param_error, platform, record_no_found,
  symbol_mismatch, unauthorized, zero_of,
}

abbrev pub same_asset : Asset → Asset → Bool
same_asset a b = a.symbol == b.symbol && eq_ℤ a.amount b.amount

-- The order that `on_transfer` records.
unfoldable pub new_order : Context → ℕ → ℕ → OrderType → ℕ → Asset → Asset → Pair → Text → ℕ → Order
new_order ctx id from kind slippage price quantity p memo tpcode = record {
  order_id = id;
  owner = from;
  tpcode = tpcode;
  kind = kind;
  left_quant = by_kind kind (zero_of p.left_symbol) quantity;
  submit_price = price;
  deal_price = zero_of quantity.symbol;
  slippage = slippage;
  right_quant = by_kind kind quantity (zero_of p.right_symbol);
  refund_quant = zero_of quantity.symbol;
  status = created;
  fee = zero_of quantity.symbol;
  memo = memo;
  created_at = ctx.now;
  updated_at = ctx.now;
}

module _ (c : Chain) where
  unfoldable pub init : Context → ℕ → ℕ → ℕ → ℕ → State c → Result Error (State c)
  init ctx admin oracle fee_receiver last_order_id s = do
    check (ctx.has_auth ctx.self) unauthorized
    ok (record s {
      global = record {
        admin = admin;
        oracle = oracle;
        fee_receiver = fee_receiver;
        last_order_id = last_order_id;
      };
    })

  unfoldable pub addtradpair : Context → Pair → State c → Result Error (State c)
  addtradpair ctx p s = do
    check (ctx.has_auth s.global.admin) unauthorized
    check (not (is_some (c.find s.pairs p.tpcode))) pair_existed
    check (ltb_ℤ (pos 0) p.mini_left.amount) param_error
    check (ltb_ℤ (pos 0) p.mini_right.amount) param_error
    check (not (p.left_symbol == p.right_symbol && p.left_contract == p.right_contract)) param_error
    ok (record s { pairs = c.put s.pairs p.tpcode (record p { status = enabled }) })

  unfoldable pub rmtradpair : Context → ℕ → State c → Result Error (State c)
  rmtradpair ctx tpcode s = do
    check (ctx.has_auth s.global.admin) unauthorized
    p ← or_abort (c.find s.pairs tpcode) record_no_found
    ok (record s { pairs = c.erase s.pairs tpcode })

  unfoldable pub distradpair : Context → ℕ → State c → Result Error (State c)
  distradpair ctx tpcode s = do
    check (ctx.has_auth s.global.admin) unauthorized
    p ← or_abort (c.find s.pairs tpcode) record_no_found
    check (is_enabled p.status) pair_not_enabled
    ok (record s { pairs = c.put s.pairs tpcode (record p { status = disabled }) })

  unfoldable pub enabtradpair : Context → ℕ → State c → Result Error (State c)
  enabtradpair ctx tpcode s = do
    check (ctx.has_auth s.global.admin) unauthorized
    p ← or_abort (c.find s.pairs tpcode) record_no_found
    check (not (is_enabled p.status)) pair_existed
    ok (record s { pairs = c.put s.pairs tpcode (record p { status = enabled }) })

  -- `on_transfer` after the parts of the memo are read. The contract that sent the tokens is not
  -- looked at.
  unfoldable pub place_order :
      Context → ℕ → ℕ → OrderType → Asset → ℤ → Asset → Text → State c → Result Error (State c)
  unfolding emplace
  place_order ctx from tpcode kind price slippage quantity memo s = do
    p ← or_abort (c.find s.pairs tpcode) record_no_found
    check (is_enabled p.status) pair_not_enabled
    check (ltb_ℤ (pos 0) price.amount) invalid_format
    check (ltb_ℤ (pos 0) quantity.amount) not_positive
    check (leb_ℤ (pos 0) slippage && leb_ℤ slippage (pos p.max_slippage)) param_error
    check (quantity.symbol == paid_symbol p kind) symbol_mismatch
    check (quantity.symbol == (mini_quant p kind).symbol) platform
    check (leb_ℤ (mini_quant p kind).amount quantity.amount) amount_too_small
    check (price.symbol == p.right_symbol) symbol_mismatch
    let id = (s.global.last_order_id + 1) % 2 ^ 64
    orders ←
        or_abort
          (emplace c s.orders id
            (new_order ctx id from kind (pos_part slippage) price quantity p memo tpcode))
          platform
    ok (record s { orders = orders; global = record s.global { last_order_id = id } })

  unfoldable pub finishorder :
      Context → ℕ → Asset → Asset → Asset → Asset → Text → State c → Result Error (State c)
  unfolding get_token_contract
  finishorder ctx order_id order_quant deal_quant deal_price fee memo s = do
    check (ctx.has_auth s.global.oracle) unauthorized
    o ← or_abort (c.find s.orders order_id) record_no_found
    check (is_created o.status) order_not_open
    check (order_quant.symbol == (paid_quant o o.kind).symbol) platform
    check (same_asset order_quant (paid_quant o o.kind)) param_error
    p ← or_abort (c.find s.pairs o.tpcode) record_no_found
    check (is_enabled p.status) pair_not_enabled
    check (ltb_ℤ (pos 0) deal_price.amount) invalid_format
    check (ltb_ℤ (pos 0) deal_quant.amount) invalid_format
    check (deal_quant.symbol == deal_symbol p o.kind) symbol_mismatch
    check (deal_price.symbol == p.right_symbol) symbol_mismatch
    bank ← or_abort (get_token_contract p deal_quant) account_invalid
    check (ltb_ℤ (pos 0) fee.amount) not_positive
    check (fee.symbol == deal_quant.symbol) symbol_mismatch
    fee_bank ← or_abort (get_token_contract p fee) account_invalid
    let done : Order = record o {
      left_quant = by_kind o.kind deal_quant o.left_quant;
      right_quant = by_kind o.kind o.right_quant deal_quant;
      fee = fee;
      status = finished;
      memo = memo;
      deal_price = deal_price;
      updated_at = ctx.now;
    }
    ok (record s {
      sent =
          record { bank = fee_bank; to = s.global.fee_receiver; quantity = fee }
          ∷ record { bank = bank; to = o.owner; quantity = deal_quant }
          ∷ s.sent;
      orders = c.erase s.orders order_id;
      settled = done ∷ s.settled;
    })

  unfoldable pub cancelorder : Context → ℕ → Text → State c → Result Error (State c)
  unfolding get_token_contract
  cancelorder ctx order_id memo s = do
    check (ctx.has_auth s.global.oracle) unauthorized
    o ← or_abort (c.find s.orders order_id) record_no_found
    check (is_created o.status) order_already_handled
    p ← or_abort (c.find s.pairs o.tpcode) record_no_found
    let refund_quant = paid_quant o o.kind
    check (refund_quant.symbol == paid_symbol p o.kind) symbol_mismatch
    check (ltb_ℤ (pos 0) refund_quant.amount) not_positive
    bank ← or_abort (get_token_contract p refund_quant) account_invalid
    ok (record s {
      sent = record { bank = bank; to = o.owner; quantity = refund_quant } ∷ s.sent;
      orders = c.erase s.orders order_id;
      settled =
          record o {
            refund_quant = refund_quant;
            status = cancelled;
            memo = memo;
            updated_at = ctx.now;
          }
          ∷ s.settled;
    })

  unfoldable pub setadmin : Context → ℕ → State c → Result Error (State c)
  setadmin ctx new_admin s = do
    check (ctx.has_auth s.global.admin) unauthorized
    ok (record s { global = record s.global { admin = new_admin } })

  unfoldable pub setoracle : Context → ℕ → State c → Result Error (State c)
  setoracle ctx new_oracle s = do
    check (ctx.has_auth s.global.admin) unauthorized
    ok (record s { global = record s.global { oracle = new_oracle } })
