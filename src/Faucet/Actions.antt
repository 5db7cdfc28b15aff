-- ===== src/Faucet/Actions.antt =====
-- flon.faucet: the actions (src/faucet.cpp).
use toolkit_contracts.Base.{
  Result, check, leb, none, ok, or_abort, pos, some, ℕ, ◌%◌, ◌+◌, ◌-◌, ◌>>=◌, ◌>>◌, ◌^◌, ◌∷◌,
}
use toolkit_contracts.Chain.{Chain, Context, seconds}
use toolkit_contracts.Faucet.State.{
  Error, State, buygas_message, day_seconds, newaccount_message, platform, rate_overload,
  sys_symbol, transfer_message,
}

module _ (c : Chain) where
  -- `_newaccount`
  unfoldable pub new_account : ℕ → ℕ → State c → Result Error (State c)
  new_account account pubkey s = do
    gas ← or_abort (c.make_asset (pos 10000) sys_symbol) platform
    ok (record s { sent = buygas_message account gas ∷ newaccount_message account pubkey ∷ s.sent })

  -- `_transfer`
  unfoldable pub pay_account : ℕ → State c → Result Error (State c)
  pay_account account s = do
    quantity ← or_abort (c.make_asset (pos 1000000000) sys_symbol) platform
    ok (record s { sent = transfer_message account quantity ∷ s.sent })

  -- `_update_account`; the difference of the times is one of `uint32_t`.
  unfoldable pub update_account : Context → ℕ → State c → Result Error (State c)
  update_account ctx account s = elim (c.find s.accounts account) [
    | none ↦ ok (record s {
      accounts = c.put s.accounts account (record { owner = account; updated_at = ctx.now });
    })
    | some acct ↦ do
      let time_diff = (seconds ctx.now + 2 ^ 32 - seconds acct.updated_at) % 2 ^ 32
      check (leb day_seconds time_diff) rate_overload
      ok (record s { accounts = c.put s.accounts account (record acct { updated_at = ctx.now }) })
  ]

  unfoldable pub claim : Context → ℕ → State c → Result Error (State c)
  unfolding pay_account update_account
  claim ctx account s = pay_account account s >>= update_account ctx account

  unfoldable pub active : Context → ℕ → ℕ → State c → Result Error (State c)
  unfolding new_account claim
  active ctx account pubkey s = new_account account pubkey s >>= claim ctx account
