-- ===== src/Split/State.antt =====
-- flon.split: the tables (tokensplit.db.hpp) and the helpers that write them.
use toolkit_contracts.Base.{
  List, Option, Result, Text, [], if◌then◌else◌, map_option, none, ok, or_abort, some, ℕ, ◌&&◌,
  ◌==◌, ◌>>=◌, ◌∷◌,
}
use toolkit_contracts.Chain.{Asset, Chain, Context, Transfer}

-- The codes of `err` that the contract raises; `unauthorized` is a failed `require_auth`, and
-- `platform` an abort inside the chain's library.
pub data Error : Type 0 where
  record_not_found param_error memo_format_error no_auth not_positive oversized : Error
  account_invalid rate_overload unauthorized platform : Error

pub data SplitType : Type 0 where
  auto manual : SplitType

pub record Global : Type 0 where
  pub admin : ℕ
  pub min_split_count : ℕ
  pub max_split_count : ℕ
  pub last_plan_id : ℕ

pub record SplitUnit : Type 0 where
  pub token_receiver : ℕ
  pub token_split_amount : ℕ

pub record PlanEvent : Type 0 where
  pub plan_id : ℕ
  pub issuer : ℕ
  pub receiver : ℕ
  pub contract : ℕ
  pub base_quantity : Asset
  pub divide_quantity : Asset
  pub rate : ℕ

-- A row of `plans`, without `token_symbol` and `split_by_rate`, which no action reads or sets.
pub record Plan : Type 0 where
  pub id : ℕ
  pub creator : ℕ
  pub split_conf : List SplitUnit
  pub split_type : SplitType
  pub title : Text
  pub create_at : ℕ

-- An entry of a wallet's map from extended symbols to assets.
pub record Balance : Type 0 where
  pub symbol : ℕ
  pub contract : ℕ
  pub quantity : Asset

pub record Wallet : Type 0 where
  pub owner : ℕ
  pub balances : List Balance
  pub create_at : ℕ
  pub update_at : ℕ

-- The tables, with one of wallets for each plan, and what the actions have sent: the inline
-- transfers and the `notifyplan` traces, the last one first.
pub record State (c : Chain) : Type 0 where
  pub global : Global
  pub plans : c.Table Plan
  pub wallets : ℕ → c.Table Wallet
  pub sent : List Transfer
  pub events : List PlanEvent

abbrev pub pct_boost : ℕ
pct_boost = 10000

-- What `balances[sym]` is after `quantity` has come in.
unfoldable pub credit : (c : Chain) → ℕ → Asset → List Balance → Option (List Balance)
credit c contract quantity [] =
    some (record { symbol = quantity.symbol; contract = contract; quantity = quantity } ∷ [])
credit c contract quantity (b ∷ bs) =
    if b.symbol == quantity.symbol && b.contract == contract
    then map_option (λ q. record b { quantity = q } ∷ bs) (c.add_asset b.quantity quantity)
    else map_option (λ r. b ∷ r) (credit c contract quantity bs)

unfoldable pub new_wallet : Context → ℕ → Wallet
new_wallet ctx owner = record {
  owner = owner;
  balances = [];
  create_at = ctx.now;
  update_at = ctx.now;
}

unfoldable pub wallet_or_new : Context → ℕ → Option Wallet → Wallet
unfolding new_wallet
wallet_or_new ctx owner none = new_wallet ctx owner
wallet_or_new ctx owner (some w) = w

module _ (c : Chain) where
  abbrev pub set_wallets : State c → ℕ → c.Table Wallet → State c
  set_wallets s plan_id t = record s { wallets = λ p. if p == plan_id then t else s.wallets p }

  abbrev pub transfer_out : State c → Transfer → State c
  transfer_out s t = record s { sent = t ∷ s.sent }

  -- `_add_wallet`
  unfoldable pub add_wallet : Context → ℕ → ℕ → ℕ → Asset → State c → Result Error (State c)
  unfolding credit wallet_or_new
  add_wallet ctx owner plan_id contract quantity s = do
    let w = wallet_or_new ctx owner (c.find (s.wallets plan_id) owner)
    balances ← or_abort (credit c contract quantity w.balances) platform
    ok (
        set_wallets s plan_id
          (c.put (s.wallets plan_id) owner (record w { balances = balances; update_at = ctx.now })))

  -- One share leaves: straight to the receiver, or into his wallet under the plan.
  unfoldable pub deliver :
      Context → SplitType → ℕ → ℕ → ℕ → Asset → State c → Result Error (State c)
  unfolding add_wallet
  deliver ctx auto to plan_id bank quantity s =
      ok (transfer_out s (record { bank = bank; to = to; quantity = quantity }))
  deliver ctx manual to plan_id bank quantity s = add_wallet ctx to plan_id bank quantity s
