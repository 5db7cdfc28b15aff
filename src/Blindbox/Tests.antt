-- ===== src/Blindbox/Tests.antt =====
-- flon.blindbox: examples of the theorems, and runs of the actions on small tables.
use toolkit_contracts.Blindbox.State.{State as BoxState}
use toolkit_contracts.Split.State.{State as SplitState}
use toolkit_contracts.Base.{
  Bool, List, OnOk, Text, [], after, arith, length, ok, pos, refl, some, split, stoul, text_eq,
  to_string, true, ℕ, ◌*ℤ◌, ◌+ℤ◌, ◌+◌, ◌-ℤ◌, ◌/ℤ◌, ◌∷◌, ◌≡◌,
}
use toolkit_contracts.Chain.{Asset, Context, lookup}
use toolkit_contracts.Blindbox.State.{Booth, Nfts, enabled}
use toolkit_contracts.Blindbox.Stock.{one_nft, rand, take_nft}
use toolkit_contracts.Blindbox.Actions.{
  booth_of, buy_nfts, change_memo, on_transfer_ntoken, plan_memo, stock_booth, transfer_token,
}
use toolkit_contracts.Blindbox.Counts.{Matches}
use toolkit_contracts.Blindbox.Run.{Call, nft_call, run, token_call}
use toolkit_contracts.Blindbox.Purchase.{Bought, buy_nfts-Bought}
use toolkit_contracts.Blindbox.Draw.{one_nft_succeeds}
use toolkit_contracts.Blindbox.Funding.{plan_memo_funds}
use toolkit_contracts.Chain.Memory.{empty_table, memory, one_row, signed_at, text_number}
use toolkit_contracts.Split.{ontransfer, plan_word, split_payment}

abbrev box : Nfts
box = (7, 2) ∷ (9, 1) ∷ []

abbrev booth_one : Booth
booth_one = record {
  id = 1;
  owner = 5;
  title = [];
  nft_contract = 2;
  fund_contract = 2;
  split_plan_id = 3;
  price = record { amount = pos 10; symbol = 4 };
  fund_recd = record { amount = pos 0; symbol = 4 };
  nft_box_num = 2;
  nft_num = 3;
  nft_num_sum = 3;
  status = enabled;
  created_at = 0;
  updated_at = 0;
  opened_at = 0;
  closed_at = 900;
}

abbrev start : BoxState memory
start = record {
  global = record {
    admin = 5;
    fund_distributor = 6;
    max_booth_boxes = 200;
    max_nfts_purchase = 100;
    last_booth_id = 1;
  };
  booths = one_row 1 booth_one;
  boothboxes = one_row 1 box;
  sent = [];
  sent_nfts = [];
  traces = [];
}

abbrev coins : ℕ → Asset
coins n = record { amount = pos n; symbol = 4 }

abbrev draws : List (List ℕ)
draws = (0 ∷ []) ∷ (1 ∷ []) ∷ []

abbrev bought : BoxState memory
bought = after start (buy_nfts memory (signed_at 0) draws 8 1 (coins 25) start)

-- Two NFTs for 25 coins: the price of two goes to the distributor, and 5 coins come back.
buy_two-sent :
    bought.sent
    ≡ record { transfer = record { bank = 2; to = 8; quantity = coins 5 }; memo = change_memo }
      ∷ record { transfer = record { bank = 2; to = 6; quantity = coins 20 }; memo = plan_memo 3 }
      ∷ []
unfolding buy_nfts ◌/ℤ◌ ◌*ℤ◌ ◌-ℤ◌ ◌+ℤ◌
buy_two-sent = refl

buy_two-traces : length bought.traces ≡ 2
unfolding buy_nfts ◌/ℤ◌ ◌*ℤ◌ ◌-ℤ◌ ◌+ℤ◌
buy_two-traces = refl

-- The memo of the payment, byte by byte.
plan_memo-one : plan_memo 40 ≡ b'p' ∷ b'l' ∷ b'a' ∷ b'n' ∷ b':' ∷ b'4' ∷ b'0' ∷ b':' ∷ b'1' ∷ []
unfolding plan_memo to_string
plan_memo-one = refl

box-Matches : Matches booth_one box
box-Matches = record { sorted = (omega arith, tt); nfts = refl; boxes = refl }

-- `booth:1`
abbrev memo_one : Text
memo_one = b'b' ∷ b'o' ∷ b'o' ∷ b't' ∷ b'h' ∷ b':' ∷ b'1' ∷ []

-- The booth 1 is stocked with three NFTs of a new symbol, and two are sold.
abbrev history : List (Context × Call)
history =
    (signed_at 0, nft_call 5 1 (record { amount = pos 3; symbol = 11 } ∷ []) memo_one)
    ∷ (signed_at 0, token_call draws 8 1 (coins 25) memo_one)
    ∷ []

abbrev unchecked : ℕ → ℕ → ℕ → Bool
unchecked code scope id = true

-- Both calls succeed: of six NFTs four are left.
history_left :
    memory.find (run memory unchecked history start).boothboxes 1 ≡ some ((7, 1) ∷ (11, 3) ∷ [])
unfolding run on_transfer_ntoken transfer_token booth_of stock_booth buy_nfts text_eq split stoul
    ◌/ℤ◌ ◌*ℤ◌ ◌-ℤ◌ ◌+ℤ◌
history_left = refl

buy_nfts-Bought_example :
    OnOk
      (Bought memory (signed_at 0) 8 1 (coins 25) start booth_one)
      (buy_nfts memory (signed_at 0) draws 8 1 (coins 25) start)
buy_nfts-Bought_example =
    buy_nfts-Bought memory (signed_at 0) draws 8 1 (coins 25) start booth_one refl (omega arith)

abbrev no_plans : SplitState memory
no_plans = record {
  global = record { admin = 5; min_split_count = 1; max_split_count = 10; last_plan_id = 0 };
  plans = empty_table;
  wallets = λ p. empty_table;
  sent = [];
  events = [];
}

plan_memo_funds_example :
    ontransfer memory (signed_at 0) 8 1 (coins 20) (plan_memo 3) no_plans
    ≡ split_payment memory (signed_at 0) 8 3 (coins 20) (pos 1) no_plans
plan_memo_funds_example =
    plan_memo_funds memory (signed_at 0) 8 3 (coins 20) no_plans refl refl (text_number plan_word)
      refl (omega arith)

one_nft_succeeds_example :
    (k : ℕ) × (n : ℕ) × (b' : Booth) × (one_nft (1 ∷ []) booth_one box
      ≡ ok (k, b', take_nft k n box))
    × (lookup k box ≡ some n)
    × (b'.nft_num + 1 ≡ 3)
unfolding rand
one_nft_succeeds_example = one_nft_succeeds (1 ∷ []) booth_one box 2 box-Matches (omega arith) refl
