-- ===== src/TokenSummary/Actions.antt =====
-- tokensummary: the actions (src/tokensummary.cpp and include/tokensummary.hpp).
use toolkit_contracts.Base.{
  List, Option, Result, Text, [], check, if◌then◌else◌, is_some, leb, length, ltb, ltb_ℤ, neg_part,
  none, not, ok, pos, pos_part, some, suc, sym, to_string, zero, ℕ, ℤ, ◌%◌, ◌+◌, ◌-◌, ◌>>◌, ◌^◌,
  ◌∷◌,
}
use toolkit_contracts.Chain.{Asset, Chain, Context, Rows}
use toolkit_contracts.TokenSummary.State.{
  Error, State, TokenCfg, TokenInfo, bank_missing, code_of, invalid_symbol, make_tokencfg_pk,
  table_key, token_listed, token_missing, unauthorized,
}

-- The point in front of the last digits: `s.insert(position, ".")`.
unfoldable pub insert_dot : ℕ → Text → Text
insert_dot zero s = b'.' ∷ s
insert_dot (suc k) [] = b'.' ∷ []
insert_dot (suc k) (c ∷ s) = c ∷ insert_dot k s

-- `s.insert(0, count, '0')`
unfoldable pub pad_zeros : ℕ → Text → Text
pad_zeros zero s = s
pad_zeros (suc k) s = b'0' ∷ pad_zeros k s

-- The digits of an amount with the point, for a precision that is not zero.
unfoldable pub with_dot : Text → ℕ → Text
unfolding insert_dot pad_zeros
with_dot s precision =
    let padded = if leb (length s) precision then pad_zeros (precision - length s + 1) s else s in
    insert_dot (length padded - precision) padded

unfoldable pub format_amount : ℤ → ℕ → Text
unfolding with_dot to_string
format_amount amount precision =
    let s = to_string (pos_part amount + neg_part amount) in
    let t = if ltb 0 precision then with_dot s precision else s in
    if ltb_ℤ amount (pos 0) then b'-' ∷ t else t

module _ (c : Chain) where
  unfoldable pub init : Context → ℕ → State c → Result Error (State c)
  init ctx admin s = do check (ctx.has_auth ctx.self) unauthorized; ok (record s { admin = admin })

  unfoldable pub addtoken : Context → ℕ → ℕ → State c → Result Error (State c)
  unfolding make_tokencfg_pk table_key
  addtoken ctx bank sym s = do
    check (ctx.has_auth s.admin) unauthorized
    check (ctx.is_account bank) bank_missing
    check (c.symbol_is_valid sym) invalid_symbol
    let pk = table_key (make_tokencfg_pk bank sym)
    check (not (is_some (c.find s.tokencfg pk))) token_listed
    ok (record s { tokencfg = c.put s.tokencfg pk (record { bank = bank; sym = sym }) })

  unfoldable pub deltoken : Context → ℕ → ℕ → State c → Result Error (State c)
  unfolding make_tokencfg_pk table_key
  deltoken ctx bank sym s = do
    check (ctx.has_auth s.admin) unauthorized
    let pk = table_key (make_tokencfg_pk bank sym)
    check (is_some (c.find s.tokencfg pk)) token_missing
    ok (record s { tokencfg = c.erase s.tokencfg pk })

  -- The tables of the token contracts are given: the balance of an account under a contract for the
  -- code of a symbol. So is the text of a code.
  module _ (balance_row : ℕ → ℕ → ℕ → Option Asset) (code_text : ℕ → Text) where
    -- `_balance`; a missing row counts as a balance of zero.
    unfoldable pub balance : ℕ → ℕ → ℕ → Asset
    balance bank symb account = elim (balance_row bank account (code_of symb)) [
      | none ↦ record { amount = pos 0; symbol = symb }
      | some b ↦ b
    ]

    unfoldable pub view_rows : ℕ → Rows TokenCfg → List TokenInfo
    unfolding balance format_amount
    view_rows account [] = []
    view_rows account ((k, row) ∷ rows) =
        let bal = balance row.bank row.sym account in
        let info : TokenInfo = record {
          code = row.bank;
          balance = format_amount bal.amount (bal.symbol % 2 ^ 8);
          coin = code_text (code_of bal.symbol);
        } in
        let rest = view_rows account rows in if ltb_ℤ (pos 0) bal.amount then info ∷ rest else rest

    unfoldable pub view : ℕ → State c → List TokenInfo
    unfolding view_rows
    view account s = view_rows account (c.entries s.tokencfg)
