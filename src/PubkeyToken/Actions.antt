-- ===== src/PubkeyToken/Actions.antt =====
-- pubkey.token: the actions (src/pubkey.token.cpp and include/pubkey.token/pubkey.token.hpp).
use toolkit_contracts.Base.{
  Bool, Option, Result, Text, [], check, if◌then◌else◌, leb_ℤ, ltb_ℤ, none, not, ok, or_abort, pos,
  some, ℕ, ◌%◌, ◌+◌, ◌==◌, ◌>>=◌, ◌>>◌, ◌^◌, ◌||◌, ◌∷◌,
}
use toolkit_contracts.Chain.{Asset, Chain, Context, Rows, emplace, sum}
use toolkit_contracts.PubkeyToken.State.{
  Error, PubkeyAccount, State, account_exists, account_missing, buygas_message, fee_insufficient,
  flon_symbol, invalid_key, invalid_signature, key_not_found, newaccount_message, no_auth, platform,
  sys_bank, transfer_message, unauthorized, wrong_bank, wrong_signer, wrong_symbol, wrong_time,
}
use toolkit_contracts.PubkeyToken.Base58.{str_to_pubkey}

-- `find` of the index by hashes: the first row whose key has the hash.
unfoldable pub find_hash : (ℕ → ℕ) → ℕ → Rows PubkeyAccount → Option PubkeyAccount
find_hash packed_hash h [] = none
find_hash packed_hash h ((k, row) ∷ rows) =
    let rest = find_hash packed_hash h rows in
    if packed_hash row.pubkey == h then some row else rest

-- The hash of a key as it lies in memory, by which the actions look it up, and the hash of a packed
-- key, by which the table is indexed, are given; so is which key has signed for an account and a
-- time.
module _ (c : Chain) (raw_hash packed_hash : ℕ → ℕ) (recovers : ℕ → ℕ → ℕ → ℕ → Bool) where
  unfoldable pub init : Context → ℕ → State c → Result Error (State c)
  init ctx admin s = do
    check (ctx.has_auth ctx.self || ctx.has_auth s.global.admin) no_auth
    ok (record s { global = record s.global { admin = admin } })

  unfoldable pub find_key : ℕ → State c → Option PubkeyAccount
  unfolding find_hash
  find_key pubkey s = find_hash packed_hash (raw_hash pubkey) (c.entries s.pkaccts)

  -- `_on_pubkey_recv_token`
  unfoldable pub receive : Context → ℕ → Asset → State c → Result Error (State c)
  unfolding find_key emplace
  receive ctx pubkey quantity s = elim (find_key pubkey s) [
    | none ↦ do
      let id = (s.global.last_idx + 1) % 2 ^ 64
      pkaccts ←
          or_abort
            (emplace c s.pkaccts id
              (record { id = id; pubkey = pubkey; quantity = quantity; last_recv_at = ctx.now }))
            platform
      ok (record s { pkaccts = pkaccts; global = record s.global { last_idx = id } })
    | some row ↦ do
      sum ← or_abort (c.add_asset row.quantity quantity) platform
      ok (record s {
        pkaccts = c.put s.pkaccts row.id (record row { quantity = sum; last_recv_at = ctx.now });
      })
  ]

  unfoldable pub ontransfer : Context → ℕ → ℕ → Asset → Text → State c → Result Error (State c)
  unfolding str_to_pubkey receive
  ontransfer ctx from to quantity memo s =
      let handled = do
        bank ← or_abort (c.name_of sys_bank) platform
        check (ctx.first_receiver == bank) wrong_bank
        check (quantity.symbol == flon_symbol) wrong_symbol
        pubkey ← str_to_pubkey memo
        receive ctx pubkey quantity s
      in if not (to == ctx.self) || from == ctx.self then ok s else handled

  -- The fee goes to the miner, and what is left to the account; the row is erased.
  unfoldable pub pay_and_erase : ℕ → ℕ → PubkeyAccount → State c → Result Error (State c)
  pay_and_erase miner to row s = do
    let fee_sent = transfer_message miner s.global.miner_fee ∷ s.sent
    rest ← or_abort (c.sub_asset row.quantity s.global.miner_fee) platform
    ok (record s {
      pkaccts = c.erase s.pkaccts row.id;
      sent =
          if ltb_ℤ s.global.miner_fee.amount row.quantity.amount
          then transfer_message to rest ∷ fee_sent
          else fee_sent;
    })

  -- A row whose quantity covers the fee; quantities of different symbols abort.
  abbrev pub check_fee : PubkeyAccount → State c → Result Error (Unit {0}) → Result Error (Unit {0})
  check_fee row s next =
      check (row.quantity.symbol == s.global.miner_fee.symbol) platform
      >> (check (leb_ℤ s.global.miner_fee.amount row.quantity.amount) fee_insufficient >> next)

  -- `_newaccount`
  unfoldable pub new_account : ℕ → ℕ → State c → Result Error (State c)
  new_account account pubkey s = do
    gas ← or_abort (c.make_asset (pos 1000000) flon_symbol) platform
    ok (record s { sent = buygas_message account gas ∷ newaccount_message account pubkey ∷ s.sent })

  unfoldable pub newaccount : Context → ℕ → ℕ → ℕ → ℕ → State c → Result Error (State c)
  unfolding find_key pay_and_erase new_account
  newaccount ctx miner pubkey acct sig s = do
    check (ctx.has_auth miner) unauthorized
    check (not (ctx.is_account acct)) account_exists
    row ← or_abort (find_key pubkey s) key_not_found
    check_fee row s (check (recovers acct row.last_recv_at sig pubkey) wrong_signer)
    s' ← new_account acct pubkey s
    pay_and_erase miner acct row s'

  -- Zero stands for the blank key and the blank signature. The miner's signature is not asked for.
  unfoldable pub move : Context → ℕ → ℕ → ℕ → ℕ → ℕ → State c → Result Error (State c)
  unfolding find_key pay_and_erase
  move ctx miner pubkey last_recv_at to_acct sig s = do
    check (ctx.is_account to_acct) account_missing
    check (not (pubkey == 0)) invalid_key
    check (not (sig == 0)) invalid_signature
    row ← or_abort (find_key pubkey s) key_not_found
    check_fee row s (check (recovers to_acct last_recv_at sig pubkey) wrong_signer)
    check (row.last_recv_at == last_recv_at) wrong_time
    pay_and_erase miner to_acct row s
