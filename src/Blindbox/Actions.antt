-- ===== src/Blindbox/Actions.antt =====
-- flon.blindbox: the actions (src/blindbox.cpp and include/blindbox.hpp).
use toolkit_contracts.Base.{
  Bool, List, Result, Text, [], check, err, if◌then◌else◌, leb, length, ltb, ltb_ℤ, not, ok,
  or_abort, pos, pos_part, split, stoul, text_eq, to_string, ℕ, ◌%◌, ◌&&◌, ◌*◌, ◌++◌, ◌+◌, ◌/ℤ◌,
  ◌==◌, ◌>>=◌, ◌>>◌, ◌^◌, ◌||◌, ◌∷◌,
}
use toolkit_contracts.Chain.{Asset, Chain, Context, insert, remove, seconds}
use toolkit_contracts.Blindbox.State.{
  Booth, DealTrace, Error, NAsset, Payment, State, account_invalid, as_uint64, data_mismatch,
  disabled, enabled, is_enabled, memo_format_error, no_auth, oversized, param_error, platform,
  record_not_found, same_bool, status_error, symbol_mismatch, unauthorized,
}
use toolkit_contracts.Blindbox.Stock.{add_loop, as_assets, buy_loop, nfts_or_none, values}

abbrev booth_word : Text
booth_word = b'b' ∷ b'o' ∷ b'o' ∷ b't' ∷ b'h' ∷ []

-- The memo of the payment to the fund distributor, `plan:` with the number of the plan and `:1`.
unfoldable pub plan_memo : ℕ → Text
plan_memo id = b'p' ∷ b'l' ∷ b'a' ∷ b'n' ∷ b':' ∷ (to_string id ++ (b':' ∷ b'1' ∷ []))

abbrev pub change_memo : Text
change_memo =
    b'r' ∷ b'n' ∷ b'd' ∷ b'n' ∷ b'f' ∷ b't' ∷ b'.' ∷ b'm' ∷ b'a' ∷ b'r' ∷ b't' ∷ b' ' ∷ b'c' ∷ b'h'
    ∷ b'a' ∷ b'n' ∷ b'g' ∷ b'e' ∷ []

unfoldable booth_of_parts : List Text → Result Error ℕ
booth_of_parts (w ∷ id ∷ []) = do
  check (text_eq w booth_word) memo_format_error
  or_abort (stoul id) platform
booth_of_parts _ = err memo_format_error

-- The number of the booth that a memo `booth:` names.
unfoldable pub booth_of : Text → Result Error ℕ
unfolding booth_of_parts
booth_of memo = booth_of_parts (split memo b':')

module _ (c : Chain) where
  -- The guard of the actions that the booth's owner, the contract or the admin may call.
  abbrev pub may_act : Context → ℕ → State c → Bool
  may_act ctx owner s = ctx.has_auth owner || ctx.has_auth ctx.self || ctx.has_auth s.global.admin

  unfoldable pub init : Context → ℕ → ℕ → State c → Result Error (State c)
  init ctx admin fund_distributor s = do
    check (ctx.has_auth ctx.self) unauthorized
    ok (record s {
      global = record s.global { admin = admin; fund_distributor = fund_distributor };
    })

  unfoldable pub setmaxbox : Context → ℕ → State c → Result Error (State c)
  setmaxbox ctx max_num s = do
    check (ctx.has_auth ctx.self) unauthorized
    ok (record s { global = record s.global { max_booth_boxes = max_num % 2 ^ 16 } })

  -- `createbooth`; whether a contract has a plan of a number in one of its scopes is given.
  unfoldable pub createbooth :
      Context
      → (ℕ → ℕ → ℕ → Bool)
      → ℕ
      → Text
      → ℕ
      → ℕ
      → ℕ
      → Asset
      → ℕ
      → ℕ
      → State c
      → Result Error (State c)
  createbooth ctx has_plan owner title nft_contract fund_contract split_plan_id price opened_at
        duration_days s =
      do
        check (ctx.has_auth ctx.self || ctx.has_auth s.global.admin) no_auth
        check (ctx.is_account owner) account_invalid
        check (ctx.is_account fund_contract) account_invalid
        check (ctx.is_account nft_contract) account_invalid
        check (ltb_ℤ (pos 0) price.amount) param_error
        check (has_plan s.global.fund_distributor ctx.self split_plan_id) record_not_found
        let id = (s.global.last_booth_id + 1) % 2 ^ 64
        fund_recd ← or_abort (c.make_asset (pos 0) price.symbol) platform
        let closed_at = (opened_at + duration_days * 86400) % 2 ^ 32
        check (ltb ctx.now (closed_at * 1000000)) param_error
        ok (record s {
          booths = c.put s.booths id (record {
            id = id;
            owner = owner;
            title = title;
            nft_contract = nft_contract;
            fund_contract = fund_contract;
            split_plan_id = split_plan_id;
            price = price;
            fund_recd = fund_recd;
            nft_box_num = 0;
            nft_num = 0;
            nft_num_sum = 0;
            status = enabled;
            created_at = seconds ctx.now;
            updated_at = seconds ctx.now;
            opened_at = opened_at;
            closed_at = closed_at;
          });
          global = record s.global { last_booth_id = id };
        })

  unfoldable pub enablebooth : Context → ℕ → ℕ → Bool → State c → Result Error (State c)
  enablebooth ctx owner booth_id on s = do
    check (may_act ctx owner s) no_auth
    b ← or_abort (c.find s.booths booth_id) record_not_found
    check (owner == b.owner) no_auth
    check (not (same_bool (is_enabled b.status) on)) status_error
    ok (record s {
      booths =
          c.put s.booths booth_id
            (record b { status = if on then enabled else disabled; updated_at = seconds ctx.now });
    })

  unfoldable pub setboothtime : Context → ℕ → ℕ → ℕ → ℕ → State c → Result Error (State c)
  setboothtime ctx owner booth_id opened_at closed_at s = do
    check (may_act ctx owner s) no_auth
    b ← or_abort (c.find s.booths booth_id) record_not_found
    check (owner == b.owner) no_auth
    check (ltb opened_at closed_at && ltb (seconds ctx.now) closed_at) param_error
    ok (record s {
      booths =
          c.put s.booths booth_id (record b {
            opened_at = opened_at;
            closed_at = closed_at;
            updated_at = seconds ctx.now;
          });
    })

  -- `on_transfer_ntoken`, once the booth is known.
  unfoldable pub stock_booth : Context → ℕ → ℕ → List NAsset → State c → Result Error (State c)
  unfolding add_loop
  stock_booth ctx from booth_id assets s = do
    b ← or_abort (c.find s.booths booth_id) record_not_found
    check (is_enabled b.status) status_error
    check (b.nft_contract == ctx.first_receiver) data_mismatch
    check (b.owner == from) no_auth
    added ← add_loop assets (nfts_or_none (c.find s.boothboxes booth_id)) 0 0
    let box_num = (b.nft_box_num + added.2) % 2 ^ 64
    check (leb box_num s.global.max_booth_boxes) oversized
    ok (record s {
      boothboxes =
          (if ltb 0 (length assets) then c.put s.boothboxes booth_id added.0 else s.boothboxes);
      booths = c.put s.booths booth_id (record b {
        nft_box_num = box_num;
        nft_num = (b.nft_num + added.1) % 2 ^ 64;
        nft_num_sum = (b.nft_num_sum + added.1) % 2 ^ 64;
        updated_at = seconds ctx.now;
      });
    })

  unfoldable pub on_transfer_ntoken :
      Context → ℕ → ℕ → List NAsset → Text → State c → Result Error (State c)
  unfolding booth_of stock_booth
  on_transfer_ntoken ctx from to assets memo s =
      let handled = do
        check (ctx.has_auth from) unauthorized
        booth_id ← booth_of memo
        stock_booth ctx from booth_id assets s
      in if from == ctx.self || not (to == ctx.self) then ok s else handled

  -- The traces of a purchase, which `_transfer_token` sends one by one.
  unfoldable pub trace_all :
      Context → ℕ → Booth → List NAsset → List DealTrace → Result Error (List DealTrace)
  trace_all ctx buyer b [] traces = ok traces
  trace_all ctx buyer b (nft ∷ nfts) traces = do
    paid_quant ← or_abort (c.mul_asset (pos_part nft.amount) b.price) platform
    trace_all ctx buyer b nfts (
        record {
          booth_id = b.id;
          buyer = buyer;
          nft_contract = b.nft_contract;
          fund_contract = b.fund_contract;
          paid_quant = paid_quant;
          sold_quant = nft;
          created_at = seconds ctx.now;
        }
        ∷ traces)

  -- The payments of a purchase: the price to the distributor, and the change to the buyer.
  unfoldable pub pay_out : ℕ → ℕ → Booth → Asset → Asset → List Payment → List Payment
  unfolding plan_memo
  pay_out buyer distributor b paid left sent =
      let first : List Payment =
        record {
          transfer = record { bank = b.fund_contract; to = distributor; quantity = paid };
          memo = plan_memo b.split_plan_id;
        }
        ∷ sent in
      if ltb_ℤ (pos 0) left.amount
      then record {
        transfer = record { bank = b.fund_contract; to = buyer; quantity = left };
        memo = change_memo;
      }
        ∷ first
      else first

  -- `_transfer_token`, once the booth is known. The hashes of the draws are given.
  unfoldable pub buy_nfts :
      Context → List (List ℕ) → ℕ → ℕ → Asset → State c → Result Error (State c)
  unfolding buy_loop trace_all pay_out
  buy_nfts ctx draws from booth_id quantity s = do
    b ← or_abort (c.find s.booths booth_id) record_not_found
    check (is_enabled b.status) status_error
    check (leb b.opened_at (seconds ctx.now)) status_error
    check (leb (seconds ctx.now) b.closed_at) status_error
    check (b.fund_contract == ctx.first_receiver) data_mismatch
    check (b.price.symbol == quantity.symbol) symbol_mismatch
    check (ltb 0 b.nft_num) oversized
    let count = quantity.amount /ℤ b.price.amount
    check (ltb_ℤ (pos 0) count) param_error
    check (leb (pos_part count) b.nft_num) param_error
    check (leb (pos_part count) s.global.max_nfts_purchase) param_error
    paid ← or_abort (c.mul_asset (pos_part count) b.price) platform
    left ← or_abort (c.sub_asset quantity paid) platform
    fund_recd ← or_abort (c.add_asset b.fund_recd paid) platform
    m ← or_abort (c.find s.boothboxes booth_id) record_not_found
    check (length draws == pos_part count) platform
    let b' = record b { fund_recd = fund_recd; updated_at = seconds ctx.now }
    result ← buy_loop draws b' m []
    traces ← trace_all ctx from result.0 (values result.2) s.traces
    ok (record s {
      booths = c.put s.booths booth_id result.0;
      boothboxes = c.put s.boothboxes booth_id result.1;
      sent = pay_out from s.global.fund_distributor b paid left s.sent;
      sent_nfts =
          record { bank = b.nft_contract; to = from; assets = values result.2 } ∷ s.sent_nfts;
      traces = traces;
    })

  -- `_transfer_token`, which both token notifications call.
  unfoldable pub transfer_token :
      Context → List (List ℕ) → ℕ → ℕ → Asset → Text → State c → Result Error (State c)
  unfolding booth_of buy_nfts
  transfer_token ctx draws from to quantity memo s =
      let handled = do booth_id ← booth_of memo; buy_nfts ctx draws from booth_id quantity s
      in if from == ctx.self || not (to == ctx.self) then ok s else handled

  unfoldable pub closebooth : Context → ℕ → ℕ → State c → Result Error (State c)
  closebooth ctx owner booth_id s = do
    check (may_act ctx owner s) no_auth
    b ← or_abort (c.find s.booths booth_id) record_not_found
    check (is_enabled b.status) status_error
    check (b.owner == owner) no_auth
    m ← or_abort (c.find s.boothboxes booth_id) record_not_found
    ok (record s {
      boothboxes = c.erase s.boothboxes booth_id;
      booths = c.erase s.booths booth_id;
      sent_nfts =
          if ltb 0 (length m)
          then record { bank = b.nft_contract; to = owner; assets = as_assets m } ∷ s.sent_nfts
          else s.sent_nfts;
    })

  unfoldable pub dealtrace : Context → DealTrace → State c → Result Error (State c)
  dealtrace ctx trace s = do check (ctx.has_auth ctx.self) unauthorized; ok s

  -- The two repairs by the contract's own account, which leave the booth's numbers alone.
  unfoldable pub delboothbox : Context → ℕ → ℕ → State c → Result Error (State c)
  delboothbox ctx booth_id symbol s = do
    check (ctx.has_auth ctx.self) unauthorized
    m ← or_abort (c.find s.boothboxes booth_id) platform
    ok (record s { boothboxes = c.put s.boothboxes booth_id (remove symbol m) })

  unfoldable pub fixboothbox : Context → ℕ → NAsset → State c → Result Error (State c)
  fixboothbox ctx booth_id nft s = do
    check (ctx.has_auth ctx.self) unauthorized
    m ← or_abort (c.find s.boothboxes booth_id) platform
    ok (record s {
      boothboxes = c.put s.boothboxes booth_id (insert nft.symbol (as_uint64 nft.amount) m);
    })
