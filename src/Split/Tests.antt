-- ===== src/Split/Tests.antt =====
-- flon.split: examples of the theorems, and runs of the actions on small tables.
use toolkit_contracts.Base.{
  Bool-cases, List, [], after, arith, if◌then◌else◌, inl, inr, ok, pos, refl, ℕ, ◌*◌, ◌+ℤ◌, ◌-ℤ◌,
  ◌/◌, ◌<◌, ◌==◌, ◌^◌, ◌↔◌, ◌∷◌, ◌≡◌, ◌≤ℤ◌, ◌≤◌,
}
use toolkit_contracts.Chain.{Asset, Context, weigh}
use toolkit_contracts.Split.Books.{Inv, funds}
use toolkit_contracts.Chain.Memory.{empty_table, memory, one_row, signed_at}
use toolkit_contracts.Split.Actions.{check_rate, claim, claimall, share_amount, split_payment}
use toolkit_contracts.Split.Conserve.{handed_out, split_payment_conserves}
use toolkit_contracts.Split.Held.{held}
use toolkit_contracts.Split.Rates.{AreUnits, check_rate_lem, rate_sum}
use toolkit_contracts.Split.Run.{
  Call, claim_call, claimall_call, received, run, run_pays_what_came, transfer_call,
}
use toolkit_contracts.Split.Share.{share_amount_lem}
use toolkit_contracts.Split.State.{Plan, SplitUnit, State, Wallet, manual}

abbrev halves : List SplitUnit
halves =
    record { token_receiver = 7; token_split_amount = 3333 }
    ∷ record { token_receiver = 8; token_split_amount = 6667 }
    ∷ []

abbrev plan_one : Plan
plan_one = record {
  id = 1;
  creator = 5;
  split_conf = halves;
  split_type = manual;
  title = [];
  create_at = 0;
}

abbrev coins : ℕ → Asset
coins n = record { amount = pos n; symbol = 9 }

abbrev full_wallet : Wallet
full_wallet = record {
  owner = 7;
  balances = record { symbol = 9; contract = 2; quantity = coins 30 } ∷ [];
  create_at = 0;
  update_at = 0;
}

abbrev start : State memory
start = record {
  global = record { admin = 5; min_split_count = 1; max_split_count = 10; last_plan_id = 1 };
  plans = one_row 1 plan_one;
  wallets = λ p. if p == 1 then one_row 7 full_wallet else empty_table;
  sent = [];
  events = [];
}

check_rate-halves : check_rate (signed_at 0) halves ≡ ok tt
unfolding check_rate
check_rate-halves = refl

check_rate_lem_example :
    (check_rate (signed_at 0) halves ≡ ok tt)
    ↔ (AreUnits (signed_at 0) [] halves × (rate_sum halves ≡ 10000))
check_rate_lem_example = check_rate_lem (signed_at 0) halves (ground arith)

share_amount_lem_example :
    (1000 * 3333 < 2 ^ 64 → share_amount (pos 1000) 3333 ≡ 1000 * 3333 / 10000)
    × (2 ^ 64 ≤ 1000 * 3333 → share_amount (pos 1000) 3333 < 1000 * 3333 / 10000)
share_amount_lem_example = share_amount_lem 1000 3333 (ground arith)

abbrev paid : State memory
paid = after start (split_payment memory (signed_at 0) 6 1 (coins 100) (pos 0) start)

split_payment_runs : split_payment memory (signed_at 0) 6 1 (coins 100) (pos 0) start ≡ ok paid
unfolding split_payment ◌+ℤ◌ ◌-ℤ◌
split_payment_runs = refl

split_payment_conserves_example :
    handed_out 2 9 memory 1 paid ≡ handed_out 2 9 memory 1 start +ℤ weigh 2 9 2 (coins 100)
split_payment_conserves_example =
    split_payment_conserves 2 9 memory (signed_at 0) 6 1 (coins 100) (pos 0) start paid
      (ground arith) split_payment_runs

abbrev claimed : State memory
claimed = after start (claim memory 1 7 start)

claim_runs : claim memory 1 7 start ≡ ok claimed
unfolding claim
claim_runs = refl

abbrev emptied : State memory
emptied = after start (claimall memory 1 start)

claimall_runs : claimall memory 1 start ≡ ok emptied
unfolding claimall
claimall_runs = refl

start-Inv : Inv memory start
start-Inv = record {
  sound = λ p. elim (Bool-cases (p == 1)) [
    | inl here ↦ rw here ((refl, omega arith, tt), tt)
    | inr other ↦ rw other tt
  ];
  numbered = λ k p e. ground (arith, e);
}

abbrev history : List (Context × Call)
history =
    (signed_at 0, transfer_call 6 1 (coins 100) (b'p' ∷ b'l' ∷ b'a' ∷ b'n' ∷ b':' ∷ b'1' ∷ []))
    ∷ (signed_at 1, claim_call 1 7)
    ∷ (signed_at 1, claim_call 1 7)
    ∷ (signed_at 2, claimall_call 1)
    ∷ []

run_pays_what_came_example :
    (funds memory 2 9 100 (run memory history start)
      ≡ funds memory 2 9 100 start +ℤ received memory 2 9 history start)
    × (pos 0 ≤ℤ held memory 2 9 100 (run memory history start))
run_pays_what_came_example =
    run_pays_what_came memory 2 9 100 (omega arith) history start start-Inv (omega arith)
