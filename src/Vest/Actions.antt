-- ===== src/Vest/Actions.antt =====
-- flon.vest: the actions (src/vest.cpp) but for the transfers into the contract.
use toolkit_contracts.Base.{
  Bool, List, Result, Text, [], check, eq_ℤ, false, if◌then◌else◌, leb, leb_ℤ, length, ltb, ltb_ℤ,
  min, negsuc, none, not, ok, or_abort, pos, pos_part, some, ℕ, ℤ, ◌%◌, ◌&&◌, ◌+ℤ◌, ◌+◌, ◌-ℤ◌, ◌-◌,
  ◌/◌, ◌==◌, ◌>>=◌, ◌>>◌, ◌^◌, ◌||◌, ◌∷◌,
}
use toolkit_contracts.Chain.{Asset, Chain, Context, emplace, is_amount_within_range, seconds, total}
use toolkit_contracts.Vest.State.{
  Error, Issue, Plan, State, account_invalid, arithmetic, disabled, enabled, fee_receiver_not_set,
  finished, fresh_key, insufficient_issued, insufficient_locked, invalid_first_days,
  invalid_interval, invalid_quantity, invalid_symbol, invalid_times, is_enabled, is_finished,
  is_ongoing, is_pending, issue_abnormal, issue_finished, issue_not_finished, issue_not_found,
  issuer_mismatch, max_lock_days, max_title_size, not_positive, owner_mismatch, pending,
  plan_fees_unpaid, plan_id_mismatch, plan_not_enabled, plan_not_found, platform, premature,
  receiver_mismatch, same_receiver, status_unchanged, symbol_mismatch, title_too_long, too_early,
  unauthorized,
}
use toolkit_contracts.Arithmetic.{multiply_decimal64}

abbrev pub flonian : Text
flonian = b'f' ∷ b'l' ∷ b'o' ∷ b'n' ∷ b'i' ∷ b'a' ∷ b'n' ∷ []

-- Comparison with an account name that the source writes out.
abbrev pub is_named : Chain → Text → ℕ → Bool
is_named c t n = elim (c.name_of t) [ none ↦ false | some m ↦ n == m ]

abbrev pub has_auth_of : Chain → Context → Text → Bool
has_auth_of c ctx t = elim (c.name_of t) [ none ↦ false | some m ↦ ctx.has_auth m ]

abbrev pub asset_eq : Asset → Asset → Bool
asset_eq a b = a.symbol == b.symbol && eq_ℤ a.amount b.amount

-- The conversion of a 64-bit number to `int`.
abbrev pub to_int : ℕ → ℤ
to_int n = if ltb (n % 2 ^ 32) (2 ^ 31) then pos (n % 2 ^ 32) else negsuc (2 ^ 32 - n % 2 ^ 32 - 1)

-- `unlocked_days`: days since the issue, less those before the first unlock.
unfoldable pub unlocked_days : ℕ → Issue → ℤ
unlocked_days now issue =
    let issued_days = (seconds now + 2 ^ 32 - seconds issue.issued_at) % 2 ^ 32 / 86400 in
    to_int ((issued_days + 2 ^ 64 - issue.first_unlock_days % 2 ^ 64) % 2 ^ 64)

-- `unlocked_times`: the instalments that have fallen due.
unfoldable pub unlocked_times : ℕ → Plan → ℕ
unlocked_times days plan = (1 + min (days / plan.unlock_interval_days) plan.unlock_times) % 2 ^ 64

-- `total_unlocked`, with the assertion on the branch that rounds.
unfoldable pub total_unlocked : ℕ → Plan → Issue → Result Error ℤ
total_unlocked days plan issue =
    let times = unlocked_times days plan in
    let part = do
      total ←
          or_abort (multiply_decimal64 issue.issued.amount (pos times) (pos plan.unlock_times))
            arithmetic
      check (leb_ℤ issue.unlocked.amount total && leb_ℤ total issue.issued.amount) arithmetic
      ok total
    in if leb plan.unlock_times times then ok issue.issued.amount else part

module _ (c : Chain) where
  unfoldable pub init : Context → ℕ → Asset → ℕ → State c → Result Error (State c)
  init ctx admin plan_fee fee_receiver s = do
    check (ctx.has_auth ctx.self) unauthorized
    check (ctx.is_account admin) account_invalid
    check (ctx.is_account fee_receiver) account_invalid
    ok (record s {
      global = record { admin = admin; fee_receiver = fee_receiver; plan_fee = plan_fee };
    })

  unfoldable pub setreceiver : Context → ℕ → ℕ → State c → Result Error (State c)
  setreceiver ctx issue_id receiver s = do
    check (ctx.has_auth ctx.self || ctx.has_auth s.global.admin) unauthorized
    check (ctx.is_account receiver) account_invalid
    issue ← or_abort (c.find s.issues issue_id) issue_not_found
    ok (record s { issues = c.put s.issues issue_id (record issue { receiver = receiver }) })

  unfoldable pub addplan : Context → ℕ → Text → ℕ → ℕ → ℕ → ℤ → State c → Result Error (State c)
  unfolding emplace
  addplan ctx owner title asset_contract asset_symbol interval times s = do
    check (ctx.has_auth owner) unauthorized
    check (leb (length title) max_title_size) title_too_long
    check (ctx.is_account asset_contract) account_invalid
    check (c.symbol_is_valid asset_symbol) invalid_symbol
    check (ltb 0 interval && leb interval max_lock_days) invalid_interval
    check (ltb_ℤ (pos 0) times) invalid_times
    check (not (ltb_ℤ (pos 0) s.global.plan_fee.amount) || not (s.global.fee_receiver == 0))
        fee_receiver_not_set
    nothing ← or_abort (c.make_asset (pos 0) asset_symbol) platform
    let plan_id = fresh_key c s.plans
    plans ←
        or_abort
          (emplace c s.plans plan_id (record {
            id = plan_id;
            owner = owner;
            title = title;
            asset_contract = asset_contract;
            asset_symbol = asset_symbol;
            unlock_interval_days = interval;
            unlock_times = pos_part times;
            total_issued = nothing;
            total_unlocked = nothing;
            total_refunded = nothing;
            status = if eq_ℤ s.global.plan_fee.amount (pos 0) then enabled else pending;
            created_at = ctx.now;
            updated_at = ctx.now;
          }))
          platform
    ok (record s {
      plans = plans;
      accounts = c.put s.accounts owner (record { owner = owner; last_plan_id = plan_id });
    })

  unfoldable pub setplanowner : Context → ℕ → ℕ → ℕ → State c → Result Error (State c)
  setplanowner ctx owner plan_id new_owner s = do
    plan ← or_abort (c.find s.plans plan_id) plan_not_found
    check (owner == plan.owner) owner_mismatch
    check (ctx.has_auth plan.owner || ctx.has_auth ctx.self) unauthorized
    check (ctx.is_account new_owner) account_invalid
    ok (record s {
      plans = c.put s.plans plan_id (record plan { owner = new_owner; updated_at = ctx.now });
    })

  unfoldable pub enableplan : Context → ℕ → ℕ → Bool → State c → Result Error (State c)
  enableplan ctx owner plan_id on s = do
    check (ctx.has_auth owner) unauthorized
    plan ← or_abort (c.find s.plans plan_id) plan_not_found
    check (owner == plan.owner) owner_mismatch
    check (not (is_pending plan.status)) plan_fees_unpaid
    check (not (if on then is_enabled plan.status else not (is_enabled plan.status)))
        status_unchanged
    ok (record s {
      plans =
          c.put s.plans plan_id
            (record plan { status = if on then enabled else disabled; updated_at = ctx.now });
    })

  unfoldable pub transissue : Context → ℕ → ℕ → ℕ → Asset → State c → Result Error (State c)
  unfolding emplace
  transissue ctx from_receiver to_receiver issue_id quant s = do
    check (ctx.has_auth from_receiver) unauthorized
    check (ctx.is_account to_receiver) account_invalid
    check (not (from_receiver == to_receiver)) same_receiver
    check (is_amount_within_range quant.amount && c.symbol_is_valid quant.symbol) invalid_quantity
    check (ltb_ℤ (pos 0) quant.amount) not_positive
    issue ← or_abort (c.find s.issues issue_id) issue_not_found
    check (is_ongoing issue.status) issue_abnormal
    check (issue.receiver == from_receiver) receiver_mismatch
    check (issue.locked.symbol == quant.symbol) symbol_mismatch
    check (leb_ℤ quant.amount issue.locked.amount) insufficient_locked
    check (leb_ℤ quant.amount issue.issued.amount) insufficient_issued
    nothing ← or_abort (c.make_asset (pos 0) quant.symbol) platform
    let new_issue_id = fresh_key c s.issues
    issues ←
        or_abort
          (emplace c s.issues new_issue_id (record issue {
            issue_id = new_issue_id;
            receiver = to_receiver;
            issued = quant;
            locked = quant;
            unlocked = nothing;
            updated_at = ctx.now;
          }))
          platform
    let all = leb_ℤ issue.locked.amount quant.amount
    ok (record s {
      issues =
          if all
          then c.erase issues issue_id
          else c.put issues issue_id (record issue {
            issued = record issue.issued { amount = issue.issued.amount -ℤ quant.amount };
            locked = record issue.locked { amount = issue.locked.amount -ℤ quant.amount };
            updated_at = ctx.now;
          });
    })

  unfoldable pub endissue : Context → ℕ → ℕ → ℕ → State c → Result Error (State c)
  endissue ctx plan_id issuer issue_id s = do
    check (ctx.has_auth ctx.self || ctx.has_auth issuer || has_auth_of c ctx flonian) unauthorized
    issue ← or_abort (c.find s.issues issue_id) issue_not_found
    check (issue.plan_id == plan_id) plan_id_mismatch
    check (not (is_finished issue.status)) issue_finished
    check (issuer == issue.issuer || issuer == ctx.self) issuer_mismatch
    plan ← or_abort (c.find s.plans plan_id) plan_not_found
    check (is_enabled plan.status) plan_not_enabled
    refunded ← or_abort (c.add_asset plan.total_refunded issue.locked) platform
    ok (record s {
      sent =
          record { bank = plan.asset_contract; to = issue.issuer; quantity = issue.locked }
          ∷ s.sent;
      plans =
          c.put s.plans plan_id (record plan { total_refunded = refunded; updated_at = ctx.now });
      issues = c.put s.issues issue_id (record issue { status = finished; updated_at = ctx.now });
    })

  unfoldable pub unlock : Context → ℕ → ℕ → ℕ → State c → Result Error (State c)
  unlock ctx issuer plan_id issue_id s = do
    check (ctx.has_auth issuer) unauthorized
    issue ← or_abort (c.find s.issues issue_id) issue_not_found
    check (issue.plan_id == plan_id) plan_id_mismatch
    check (leb issue.issued_at ctx.now) too_early
    plan ← or_abort (c.find s.plans plan_id) plan_not_found
    check (is_enabled plan.status) plan_not_enabled
    check (ltb 0 plan.unlock_times && ltb 0 plan.unlock_interval_days) arithmetic
    let days = unlocked_days ctx.now issue
    check (is_ongoing issue.status) issue_abnormal
    check (leb_ℤ (pos 0) days) premature
    total ← total_unlocked (pos_part days) plan issue
    check (leb_ℤ (pos 0) (issue.issued.amount -ℤ total)) arithmetic
    let curr_unlockable = total -ℤ issue.unlocked.amount
    check (ltb_ℤ (pos 0) curr_unlockable) premature
    unlock_quantity ← or_abort (c.make_asset curr_unlockable plan.asset_symbol) platform
    let unlocked = record issue.unlocked { amount = total }
    ok (record s {
      sent =
          record { bank = plan.asset_contract; to = issue.receiver; quantity = unlock_quantity }
          ∷ s.sent;
      plans = c.put s.plans plan_id (record plan {
        total_unlocked = record plan.total_unlocked {
          amount = plan.total_unlocked.amount +ℤ curr_unlockable;
        };
        updated_at = ctx.now;
      });
      issues = c.put s.issues issue_id (record issue {
        unlocked = unlocked;
        locked = record issue.locked { amount = issue.issued.amount -ℤ total };
        status = if asset_eq unlocked issue.issued then finished else issue.status;
        updated_at = ctx.now;
      });
    })

  unfoldable pub delfinissues : List ℕ → State c → Result Error (State c)
  delfinissues [] s = ok s
  delfinissues (issue_id ∷ ids) s = do
    issue ← or_abort (c.find s.issues issue_id) issue_not_found
    check (is_finished issue.status) issue_not_finished
    delfinissues ids (record s { issues = c.erase s.issues issue_id })

  unfoldable pub setfirstdays : Context → ℕ → ℕ → State c → Result Error (State c)
  setfirstdays ctx issue_id days s = do
    check (leb days max_lock_days) invalid_first_days
    issue ← or_abort (c.find s.issues issue_id) issue_not_found
    check (ctx.has_auth issue.issuer) unauthorized
    ok (record s {
      issues =
          c.put s.issues issue_id (record issue { first_unlock_days = days; updated_at = ctx.now });
    })
