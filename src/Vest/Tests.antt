-- ===== src/Vest/Tests.antt =====
-- flon.vest: examples of the theorems, and runs of the actions on small tables.
use toolkit_contracts.Base.{
  List, Text, [], after, arith, ok, pos, pos_part, refl, some, split, text_eq, to_uint64, trim,
  true, ℕ, ◌*ℤ◌, ◌*◌, ◌++◌, ◌+ℤ◌, ◌-ℤ◌, ◌/ℤ◌, ◌↔◌, ◌∷◌, ◌≡◌, ◌≤ℤ◌,
}
use toolkit_contracts.Chain.{Asset, Context, total_lem}
use toolkit_contracts.Chain.Memory.{empty_table, memory, one_row, signed_at}
use toolkit_contracts.Arithmetic.{multiply_decimal64}
use toolkit_contracts.Vest.State.{Issue, Plan, State, enabled, finished, is_finished, ongoing}
use toolkit_contracts.Vest.Actions.{
  addplan, endissue, init, total_unlocked, unlock, unlocked_days, unlocked_times,
}
use toolkit_contracts.Vest.Books.{locked_under}
use toolkit_contracts.Vest.Transfers.{create_issue, issue_word, on_memo, ontransfer, sys_symbol}
use toolkit_contracts.Vest.Run.{
  Call, Inv, addplan_call, endissue_call, init_call, run, run-Inv, transfer_call, unlock_call,
}
use toolkit_contracts.Vest.Schedule.{total_unlocked_lem, unlock_pays}

abbrev coins : ℕ → Asset
coins n = record { amount = pos n; symbol = 9 }

abbrev plan_one : Plan
plan_one = record {
  id = 1;
  owner = 5;
  title = [];
  asset_contract = 2;
  asset_symbol = 9;
  unlock_interval_days = 30;
  unlock_times = 4;
  total_issued = coins 1000;
  total_unlocked = coins 0;
  total_refunded = coins 0;
  status = enabled;
  created_at = 0;
  updated_at = 0;
}

abbrev issue_three : Issue
issue_three = record {
  issue_id = 3;
  plan_id = 1;
  issuer = 6;
  receiver = 7;
  issued = coins 1000;
  locked = coins 1000;
  unlocked = coins 0;
  first_unlock_days = 10;
  unlock_interval_days = 30;
  unlock_times = 4;
  status = ongoing;
  issued_at = 0;
  updated_at = 0;
}

abbrev blank : State memory
blank = record {
  global = record { admin = 5; fee_receiver = 5; plan_fee = coins 0 };
  plans = empty_table;
  issues = empty_table;
  accounts = empty_table;
  sent = [];
}

abbrev start : State memory
start = record blank { plans = one_row 1 plan_one; issues = one_row 3 issue_three }

-- Forty days in microseconds.
abbrev forty_days : ℕ
forty_days = 40 * 86400 * 1000000

due_after_forty_days : total_unlocked 30 plan_one issue_three ≡ ok (pos 500)
unfolding total_unlocked unlocked_times multiply_decimal64
due_after_forty_days = refl

total_unlocked_lem_example : total_unlocked 30 plan_one issue_three ≡ ok (pos 500)
total_unlocked_lem_example =
    total_unlocked_lem 30 1000 0 plan_one issue_three refl refl (ground arith) (ground arith)
      (ground arith)

abbrev unlocked_state : State memory
unlocked_state = after start (unlock memory (signed_at forty_days) 6 1 3 start)

unlock_runs : unlock memory (signed_at forty_days) 6 1 3 start ≡ ok unlocked_state
unfolding unlock unlocked_days total_unlocked unlocked_times multiply_decimal64 ◌-ℤ◌
unlock_runs = refl

unlock_due :
    total_unlocked (pos_part (unlocked_days forty_days issue_three)) plan_one issue_three
    ≡ ok (pos 500)
unfolding total_unlocked unlocked_days unlocked_times multiply_decimal64
unlock_due = refl

abbrev ended : State memory
ended = after start (endissue memory (signed_at 0) 1 6 3 start)

endissue_runs : endissue memory (signed_at 0) 1 6 3 start ≡ ok ended
unfolding endissue ◌+ℤ◌
endissue_runs = refl

abbrev UnlockPaid : State memory → Type 0
UnlockPaid s' =
    let paid = pos 500 -ℤ pos 0 in
    (pos 1 ≤ℤ paid)
    × (s'.sent ≡ record { bank = 2; to = 7; quantity = record { amount = paid; symbol = 9 } } ∷ [])
    × ((i' : Issue) × (memory.find s'.issues 3 ≡ some i')
        × (i'.unlocked.amount ≡ pos 500)
        × (i'.locked.amount ≡ pos 1000 -ℤ pos 500)
        × ((is_finished i'.status ≡ true) ↔ (pos 500 ≡ pos 1000)))

unlock_pays_example : UnlockPaid unlocked_state
unlock_pays_example =
    unlock_pays memory (signed_at forty_days) 6 1 3 issue_three plan_one (pos 500) start
      unlocked_state refl refl unlock_due refl unlock_runs

abbrev closed_issue : Issue
closed_issue = record issue_three { status = finished }

abbrev closed : State memory
closed = record start { issues = one_row 3 closed_issue }

abbrev sys_coins : ℕ → Asset
sys_coins n = record { amount = pos n; symbol = sys_symbol }

-- `issue:7:1:10`, where the name of the receiver is a byte of its own.
abbrev issue_memo : Text
issue_memo = issue_word ++ b':' ∷ 7 ∷ b':' ∷ b'1' ∷ b':' ∷ b'1' ∷ b'0' ∷ []

abbrev history : List (Context × Call)
history =
    (signed_at 0, init_call 5 (coins 0) 5)
    ∷ (signed_at 0, addplan_call 5 [] 2 9 30 (pos 4))
    ∷ (signed_at 0, transfer_call 6 1 (coins 1000) issue_memo)
    ∷ (signed_at forty_days, unlock_call 6 1 1)
    ∷ (signed_at forty_days, endissue_call 1 6 1)
    ∷ []

-- Two instalments are paid to the receiver, and the rest is refunded to the issuer.
history_sent :
    (run memory history blank).sent
    ≡ record { bank = 2; to = 6; quantity = coins 500 }
      ∷ record { bank = 2; to = 7; quantity = coins 500 }
      ∷ []
unfolding run init addplan ontransfer on_memo create_issue unlock endissue text_eq split trim
    to_uint64 ◌+ℤ◌ ◌-ℤ◌ ◌*ℤ◌ ◌/ℤ◌ unlocked_days total_unlocked unlocked_times multiply_decimal64
history_sent = refl

blank-Inv : Inv memory blank
blank-Inv = record { books = λ id. total_lem memory (locked_under id) empty_table; sound = λ j. tt }

run-Inv_example : Inv memory (run memory history blank)
run-Inv_example = run-Inv memory history blank blank-Inv
