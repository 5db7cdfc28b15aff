-- ===== src/Split/Actions.antt =====
-- flon.split: the actions (src/tokensplit.cpp).
use mathlib.Core.List.{head?}
use toolkit_contracts.Base.{
  Bool, List, Result, Text, [], check, err, false, if◌then◌else◌, leb, leb_ℤ, length, ltb, ltb_ℤ,
  neg_part, none, not, ok, or_abort, pos, pos_part, some, split, stoi, suc, zero, ℕ, ℤ, ◌%◌, ◌&&◌,
  ◌*◌, ◌+◌, ◌-◌, ◌/◌, ◌==◌, ◌>>=◌, ◌>>◌, ◌^◌, ◌||◌, ◌∷◌,
}
use toolkit_contracts.Chain.{Asset, Chain, Context, Rows, emplace, total}
use toolkit_contracts.Split.State.{
  Balance, Error, Plan, PlanEvent, SplitType, SplitUnit, State, Wallet, account_invalid, auto,
  deliver, manual, memo_format_error, no_auth, not_positive, oversized, param_error, pct_boost,
  platform, rate_overload, record_not_found, set_wallets, transfer_out, unauthorized,
}

abbrev pub u64 : ℤ → ℕ
u64 n = if leb_ℤ (pos 0) n then pos_part n % 2 ^ 64 else (2 ^ 64 - neg_part n % 2 ^ 64) % 2 ^ 64

unfoldable pub seen : ℕ → List ℕ → Bool
seen a [] = false
seen a (x ∷ xs) = a == x || seen a xs

-- The loop of `check_rate`: the rates so far and the receivers so far.
unfoldable pub rate_loop : Context → ℕ → List ℕ → List SplitUnit → Result Error ℕ
unfolding seen
rate_loop ctx init_rate s [] = ok init_rate
rate_loop ctx init_rate s (u ∷ us) = do
  check (ctx.is_account u.token_receiver) account_invalid
  check (ltb 0 u.token_split_amount && leb u.token_split_amount pct_boost) oversized
  check (not (seen u.token_receiver s)) param_error
  rate_loop ctx ((init_rate + u.token_split_amount) % 2 ^ 64) (u.token_receiver ∷ s) us

unfoldable pub check_rate : Context → List SplitUnit → Result Error (Unit {0})
unfolding rate_loop
check_rate ctx confs = do
  init_rate ← rate_loop ctx 0 [] confs
  check (init_rate == pct_boost) oversized

-- `quant.amount * amount / PCT_BOOST`: the product is one of `uint64_t`.
unfoldable pub share_amount : ℤ → ℕ → ℕ
share_amount total rate = u64 total * rate % 2 ^ 64 / pct_boost

abbrev pub plan_word : Text
plan_word = b'p' ∷ b'l' ∷ b'a' ∷ b'n' ∷ []

module _ (c : Chain) where
  unfoldable pub init : Context → ℕ → ℕ → ℕ → State c → Result Error (State c)
  init ctx admin min_count max_count s = do
    check (ctx.has_auth ctx.self) unauthorized
    check (ctx.is_account admin) record_not_found
    check (leb 1 min_count && leb max_count 50) param_error
    ok (record s {
      global = record s.global {
        admin = admin;
        max_split_count = max_count;
        min_split_count = min_count;
      };
    })

  unfoldable pub size_in_range : State c → List SplitUnit → Bool
  size_in_range s conf =
      leb s.global.min_split_count (length conf) && leb (length conf) s.global.max_split_count

  unfoldable pub addplan :
      Context → ℕ → Text → List SplitUnit → SplitType → State c → Result Error (State c)
  unfolding check_rate size_in_range emplace
  addplan ctx owner title conf kind s = do
    check (ctx.has_auth owner || ctx.has_auth s.global.admin) no_auth
    check (size_in_range s conf) oversized
    check (leb 4 (length title) && leb (length title) 255) oversized
    check_rate ctx conf
    let plan_id = (s.global.last_plan_id + 1) % 2 ^ 64
    plans ←
        or_abort
          (emplace c s.plans plan_id (record {
            id = plan_id;
            creator = owner;
            split_conf = conf;
            split_type = kind;
            title = title;
            create_at = ctx.now / 1000000;
          }))
          platform
    ok (record s { plans = plans; global = record s.global { last_plan_id = plan_id } })

  -- The transfer for one of a wallet's balances, and those for all of them.
  unfoldable pub pay_balance : ℕ → Balance → State c → State c
  pay_balance owner b s =
      if ltb_ℤ (pos 0) b.quantity.amount
      then transfer_out c s (record { bank = b.contract; to = owner; quantity = b.quantity })
      else s

  unfoldable pub pay_balances : ℕ → List Balance → State c → State c
  unfolding pay_balance
  pay_balances owner [] s = s
  pay_balances owner (b ∷ bs) s = pay_balances owner bs (pay_balance owner b s)

  unfoldable pub claim : ℕ → ℕ → State c → Result Error (State c)
  unfolding pay_balances
  claim plan_id owner s = do
    plan ← or_abort (c.find s.plans plan_id) record_not_found
    w ← or_abort (c.find (s.wallets plan_id) owner) record_not_found
    check (ltb 0 (length w.balances)) record_not_found
    let s' = pay_balances w.owner w.balances s
    ok (set_wallets c s' plan_id (c.erase (s'.wallets plan_id) owner))

  -- The loop of `_empty_wallets` over the rows, for at most `left` more of them.
  unfoldable pub empty_loop : ℕ → ℕ → Rows Wallet → State c → State c
  unfolding pay_balances
  empty_loop plan_id zero rows s = s
  empty_loop plan_id (suc left) [] s = s
  empty_loop plan_id (suc left) ((k, w) ∷ rows) s =
      let s' = pay_balances w.owner w.balances s in
      empty_loop plan_id left rows (set_wallets c s' plan_id (c.erase (s'.wallets plan_id) k))

  unfoldable pub claimall : ℕ → State c → Result Error (State c)
  unfolding empty_loop
  claimall plan_id s = do
    plan ← or_abort (c.find s.plans plan_id) record_not_found
    let rows = c.entries (s.wallets plan_id)
    check (ltb 0 (length rows)) record_not_found
    ok (empty_loop plan_id 20 rows s)

  -- The inline `claimall` that `editplan` ends with runs right after it.
  unfoldable pub editplan :
      Context → ℕ → ℕ → List SplitUnit → SplitType → State c → Result Error (State c)
  unfolding check_rate size_in_range claimall
  editplan ctx owner plan_id conf kind s = do
    check (ctx.has_auth owner) unauthorized
    check (size_in_range s conf) oversized
    check_rate ctx conf
    plan ← or_abort (c.find s.plans plan_id) record_not_found
    check (plan.creator == owner) no_auth
    let s' = record s {
      plans = c.put s.plans plan_id (record plan { split_conf = conf; split_type = kind });
    }
    let claimed = claimall plan_id s'
    elim kind [
      | manual ↦ ok s'
      | auto ↦ if ltb 0 (length (c.entries (s.wallets plan_id))) then claimed else ok s'
    ]

  -- `NOTIFY_PLAN` for one share.
  unfoldable pub notify_share : Context → ℕ → ℕ → Asset → SplitUnit → Asset → State c → State c
  notify_share ctx from plan_id quant u tokens s = record s {
    events =
        record {
          plan_id = plan_id;
          issuer = from;
          receiver = u.token_receiver;
          contract = ctx.first_receiver;
          base_quantity = quant;
          divide_quantity = tokens;
          rate = u.token_split_amount;
        }
        ∷ s.events;
  }

  -- The body of the loop of `_split` after its `break`: the share leaves what is left of the
  -- payment. Both sides of the comparison of assets have the payment's symbol.
  unfoldable pub split_share :
      Context
      → ℕ
      → ℕ
      → Asset
      → SplitType
      → SplitUnit
      → Asset
      → Asset × State c
      → Result Error (Asset × State c)
  unfolding notify_share deliver
  split_share ctx from plan_id quant kind u tokens (current_quant, s) = do
    check (leb_ℤ tokens.amount current_quant.amount) rate_overload
    let noted = notify_share ctx from plan_id quant u tokens s
    s' ← deliver c ctx kind u.token_receiver plan_id ctx.first_receiver tokens noted
    left ← or_abort (c.sub_asset current_quant tokens) platform
    ok (left, s')

  unfoldable pub split_loop :
      Context
      → ℕ
      → ℕ
      → Asset
      → SplitType
      → List SplitUnit
      → Asset × State c
      → Result Error (Asset × State c)
  unfolding share_amount split_share
  split_loop ctx from plan_id quant kind [] acc = ok acc
  split_loop ctx from plan_id quant kind (u ∷ us) acc = do
    tokens ←
        or_abort (c.make_asset (pos (share_amount quant.amount u.token_split_amount)) quant.symbol)
          platform
    let rest =
        split_share ctx from plan_id quant kind u tokens acc
        >>= split_loop ctx from plan_id quant kind us
    if leb_ℤ tokens.amount (pos 0) then ok acc else rest

  -- The end of `_split`: what the shares have left over goes to the first receiver.
  unfoldable pub pay_left_over : Context → ℕ → Plan → Asset × State c → Result Error (State c)
  unfolding deliver
  pay_left_over ctx plan_id plan (left, s) = do
    first ← or_abort (head? plan.split_conf) platform
    let rest = deliver c ctx plan.split_type first.token_receiver plan_id ctx.first_receiver left s
    if ltb_ℤ (pos 0) left.amount then rest else ok s

  -- `_split`; its last argument, the boost, is not read.
  unfoldable pub split_payment : Context → ℕ → ℕ → Asset → ℤ → State c → Result Error (State c)
  unfolding split_loop pay_left_over
  split_payment ctx from plan_id quant boost s = do
    plan ← or_abort (c.find s.plans plan_id) record_not_found
    split_loop ctx from plan_id quant plan.split_type plan.split_conf (quant, s)
        >>= pay_left_over ctx plan_id plan

  -- `notifyplan` records nothing; only the contract itself may send it.
  unfoldable pub notifyplan : Context → PlanEvent → State c → Result Error (State c)
  notifyplan ctx trace s = do check (ctx.has_auth ctx.self) unauthorized; ok s

  unfoldable pub memo_boost : List Text → Result Error ℤ
  memo_boost (a ∷ p ∷ b ∷ []) = or_abort (stoi b) platform
  memo_boost _ = ok (pos 1)

  -- A memo of one part reads past the end of the parts, which has no meaning in C++; it aborts here.
  unfoldable pub memo_plan : List Text → Result Error ℤ
  memo_plan (a ∷ p ∷ ps) = or_abort (stoi p) platform
  memo_plan _ = err platform

  unfoldable pub is_plan_action : ℕ → Bool
  is_plan_action n = elim (c.name_of plan_word) [ none ↦ false | some p ↦ n == p ]

  unfoldable pub ontransfer : Context → ℕ → ℕ → Asset → Text → State c → Result Error (State c)
  unfolding split_payment memo_boost memo_plan is_plan_action
  ontransfer ctx from to quant memo s =
      let handled = do
        check (not (from == to)) param_error
        let params = split memo b':'
        action ← or_abort (head? params) memo_format_error
        check (ltb_ℤ (pos 0) quant.amount) not_positive
        action_name ← or_abort (c.name_of action) platform
        check (is_plan_action action_name) param_error
        plan_id ← memo_plan params
        boost ← memo_boost params
        split_payment ctx from (u64 plan_id) quant boost s
      in if from == ctx.self || not (to == ctx.self) then ok s else handled
