-- ===== src/Vest/Transfers.antt =====
-- flon.vest: `ontransfer`, by which a plan's fee is paid and tokens are locked (src/vest.cpp).
use toolkit_contracts.Base.{
  List, Result, Text, [], check, eq_ℤ, err, if◌then◌else◌, leb, ltb_ℤ, not, ok, or_abort, pos,
  split, text_eq, to_uint64, ℕ, ◌==◌, ◌>>=◌, ◌>>◌, ◌||◌, ◌∷◌,
}
use toolkit_contracts.Chain.{Asset, Chain, Context, emplace}
use toolkit_contracts.Vest.State.{
  Error, State, account_invalid, account_missing, contract_mismatch, enabled, fee_mismatch,
  fresh_key, invalid_first_days, is_enabled, is_pending, max_lock_days, memo_format, no_plan,
  not_positive, ongoing, plan_fees_paid, plan_id_zero, plan_not_enabled, plan_not_found, platform,
  symbol_mismatch, wrong_bank,
}
use toolkit_contracts.Vest.Actions.{is_named}

abbrev plan_word : Text
plan_word = b'p' ∷ b'l' ∷ b'a' ∷ b'n' ∷ []

abbrev pub issue_word : Text
issue_word = b'i' ∷ b's' ∷ b's' ∷ b'u' ∷ b'e' ∷ []

-- "flon.token" and the symbol 8,FLON.
abbrev pub sys_bank : Text
sys_bank = b'f' ∷ b'l' ∷ b'o' ∷ b'n' ∷ b'.' ∷ b't' ∷ b'o' ∷ b'k' ∷ b'e' ∷ b'n' ∷ []

abbrev pub sys_symbol : ℕ
sys_symbol = 0x4e4f4c4608

module _ (c : Chain) where
  -- The plan that a fee is for: the one in the memo, or the payer's last.
  unfoldable pub paid_plan_id : ℕ → Text → State c → Result Error ℕ
  paid_plan_id from [] s = do
    acct ← or_abort (c.find s.accounts from) account_missing
    check (not (acct.last_plan_id == 0)) no_plan
    ok acct.last_plan_id
  paid_plan_id from (x ∷ xs) s = do
    plan_id ← or_abort (to_uint64 (x ∷ xs)) memo_format
    check (not (plan_id == 0)) plan_id_zero
    ok plan_id

  -- The branch `plan:` of the memo.
  unfoldable pub pay_plan_fee : Context → ℕ → Asset → Text → State c → Result Error (State c)
  unfolding paid_plan_id
  pay_plan_fee ctx from quantity param s = do
    check (is_named c sys_bank ctx.first_receiver) wrong_bank
    check (quantity.symbol == sys_symbol) symbol_mismatch
    check (eq_ℤ quantity.amount s.global.plan_fee.amount) fee_mismatch
    plan_id ← paid_plan_id from param s
    plan ← or_abort (c.find s.plans plan_id) plan_not_found
    check (is_pending plan.status) plan_fees_paid
    ok (record s {
      plans = c.put s.plans plan_id (record plan { status = enabled; updated_at = ctx.now });
      sent =
          record { bank = ctx.first_receiver; to = s.global.fee_receiver; quantity = quantity }
          ∷ s.sent;
    })

  -- The branch `issue:` of the memo.
  unfoldable pub create_issue : Context → ℕ → Asset → ℕ → ℕ → ℕ → State c → Result Error (State c)
  unfolding emplace
  create_issue ctx from quantity receiver plan_id first_unlock_days s = do
    plan ← or_abort (c.find s.plans plan_id) plan_not_found
    check (is_enabled plan.status) plan_not_enabled
    check (ctx.is_account receiver) account_invalid
    check (leb first_unlock_days max_lock_days) invalid_first_days
    check (quantity.symbol == plan.asset_symbol) symbol_mismatch
    check (ltb_ℤ (pos 0) quantity.amount) not_positive
    check (plan.asset_contract == ctx.first_receiver) contract_mismatch
    total_issued ← or_abort (c.add_asset plan.total_issued quantity) platform
    nothing ← or_abort (c.make_asset (pos 0) quantity.symbol) platform
    let issue_id = fresh_key c s.issues
    issues ←
        or_abort
          (emplace c s.issues issue_id (record {
            issue_id = issue_id;
            plan_id = plan_id;
            issuer = from;
            receiver = receiver;
            issued = quantity;
            locked = quantity;
            unlocked = nothing;
            first_unlock_days = first_unlock_days;
            unlock_interval_days = plan.unlock_interval_days;
            unlock_times = plan.unlock_times;
            status = ongoing;
            issued_at = ctx.now;
            updated_at = ctx.now;
          }))
          platform
    ok (record s {
      plans =
          c.put s.plans plan_id (record plan { total_issued = total_issued; updated_at = ctx.now });
      issues = issues;
    })

  -- What the memo asks for, by its parts.
  unfoldable pub on_memo : Context → ℕ → Asset → List Text → State c → Result Error (State c)
  unfolding pay_plan_fee create_issue
  on_memo ctx from quantity (action ∷ p ∷ []) s =
      if text_eq action plan_word then pay_plan_fee ctx from quantity p s else err memo_format
  on_memo ctx from quantity (action ∷ r ∷ p ∷ d ∷ []) s =
      let issue = do
        receiver ← or_abort (c.name_of r) platform
        plan_id ← or_abort (to_uint64 p) memo_format
        first_unlock_days ← or_abort (to_uint64 d) memo_format
        create_issue ctx from quantity receiver plan_id first_unlock_days s
      in if text_eq action plan_word
        then err memo_format
        else if text_eq action issue_word
        then issue
        else err memo_format
  on_memo ctx from quantity _ s = err memo_format

  unfoldable pub ontransfer : Context → ℕ → ℕ → Asset → Text → State c → Result Error (State c)
  unfolding on_memo
  ontransfer ctx from to quantity memo s =
      let handled = do
        check (ltb_ℤ (pos 0) quantity.amount) not_positive
        on_memo ctx from quantity (split memo b':') s
      in if from == ctx.self || not (to == ctx.self) then ok s else handled
