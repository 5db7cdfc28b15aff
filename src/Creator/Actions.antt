-- ===== src/Creator/Actions.antt =====
-- flon.creator: the actions (src/flon.creator.cpp and include/flon.creator/flon.creator.hpp).
use toolkit_contracts.Base.{Result, check, not, ok, ℕ, ◌==◌, ◌>>◌, ◌||◌, ◌∷◌}
use toolkit_contracts.Chain.{Asset, Context}
use toolkit_contracts.Creator.State.{
  Error, State, account_exists, buygas_message, newaccount_message, no_auth, unauthorized,
}

-- `_check_admin`
unfoldable pub check_admin : Context → State → Result Error (Unit {0})
check_admin ctx s = check (ctx.has_auth ctx.self || ctx.has_auth s.global.admin) no_auth

unfoldable pub init : Context → ℕ → State → Result Error State
unfolding check_admin
init ctx admin s = do
  check_admin ctx s
  ok (record s { global = record s.global { admin = admin } })

unfoldable pub setgasquant : Context → Asset → State → Result Error State
unfolding check_admin
setgasquant ctx gas_quant s = do
  check_admin ctx s
  ok (record s { global = record s.global { gas_quant = gas_quant } })

-- `_newaccount`
unfoldable pub new_account : ℕ → ℕ → State → State
new_account account pubkey s = record s {
  sent = buygas_message account s.global.gas_quant ∷ newaccount_message account pubkey ∷ s.sent;
}

unfoldable pub newaccount : Context → ℕ → ℕ → ℕ → State → Result Error State
unfolding new_account
newaccount ctx admin pubkey acct s = do
  check (ctx.has_auth admin) unauthorized
  check (admin == s.global.admin) no_auth
  check (not (ctx.is_account acct)) account_exists
  ok (new_account acct pubkey s)
