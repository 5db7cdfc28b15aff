-- ===== src/Swap/Tests.antt =====
-- flon.proxyswap: examples of the theorems, and runs of the actions on small tables.
use toolkit_contracts.Base.{
  List, OnOk, Option, Text, [], after, arith, none, ok, pos, refl, some, split_raw, stoll, text_eq,
  to_int64, to_uint64, trim, ℕ, ◌*ℤ◌, ◌+ℤ◌, ◌-ℤ◌, ◌/ℤ◌, ◌∷◌, ◌≡◌,
}
use toolkit_contracts.Chain.{Asset, Context}
use toolkit_contracts.Arithmetic.Safe.{safe_add, safe_mul}
use toolkit_contracts.Swap.State.{Order, Pair, State, buy, enabled, get_token_contract}
use toolkit_contracts.Swap.Actions.{cancelorder, finishorder, new_order, place_order, rmtradpair}
use toolkit_contracts.Swap.Memo.{on_transfer}
use toolkit_contracts.Swap.Orders.{cancelorder-place_order}
use toolkit_contracts.Swap.Settled.{Inv, settled_times}
use toolkit_contracts.Swap.Run.{
  Call, addtradpair_call, cancelorder_call, init_call, run, settled_once, transfer_call,
}
use toolkit_contracts.Swap.Stranded.{rmtradpair_strands}
use toolkit_contracts.Chain.Memory.{empty_table, memory, one_row, signed_at}

abbrev coins : ℕ → ℕ → Asset
coins raw n = record { amount = pos n; symbol = raw }

-- Symbol 8 of contract 2 against symbol 9 of contract 3.
abbrev pair_four : Pair
pair_four = record {
  tpcode = 4;
  left_symbol = 8;
  left_contract = 2;
  right_symbol = 9;
  right_contract = 3;
  status = enabled;
  mini_left = coins 8 1;
  mini_right = coins 9 1;
  max_slippage = 50;
}

abbrev start : State memory
start = record {
  global = record { admin = 5; oracle = 5; fee_receiver = 6; last_order_id = 0 };
  pairs = one_row 4 pair_four;
  orders = empty_table;
  sent = [];
  settled = [];
}

-- The payment comes from contract 2, which is not the contract of symbol 9.
abbrev placed : State memory
placed =
    after start
      (place_order memory (signed_at 0) 7 4 buy (coins 9 3) (pos 10) (coins 9 100) [] start)

place_order_runs :
    place_order memory (signed_at 0) 7 4 buy (coins 9 3) (pos 10) (coins 9 100) [] start ≡ ok placed
unfolding place_order
place_order_runs = refl

abbrev refunded : State memory
refunded = after placed (cancelorder memory (signed_at 1) 1 [] placed)

cancelorder_runs : cancelorder memory (signed_at 1) 1 [] placed ≡ ok refunded
unfolding place_order cancelorder new_order
cancelorder_runs = refl

cancelorder-place_order_example :
    ((bank : ℕ) × (get_token_contract pair_four (coins 9 100) ≡ some bank)
      × (refunded.sent ≡ record { bank = bank; to = 7; quantity = coins 9 100 } ∷ []))
    × (memory.find refunded.orders 1 ≡ none)
unfolding place_order
cancelorder-place_order_example =
    cancelorder-place_order memory (signed_at 0) (signed_at 1) 7 4 buy (coins 9 3) (pos 10)
      (coins 9 100) [] [] start placed refunded pair_four refl place_order_runs cancelorder_runs

abbrev removed : State memory
removed = after placed (rmtradpair memory (signed_at 1) 4 placed)

abbrev order_one : Order
order_one = new_order (signed_at 0) 1 7 buy 10 (coins 9 3) (coins 9 100) pair_four [] 4

rmtradpair_runs : rmtradpair memory (signed_at 1) 4 placed ≡ ok removed
unfolding rmtradpair place_order
rmtradpair_runs = refl

order_one-found : memory.find placed.orders 1 ≡ some order_one
unfolding place_order
order_one-found = refl

order_one_code : order_one.tpcode ≡ 4
unfolding new_order
order_one_code = refl

-- `4:buy:0.03 X:10`, where the name in front is a byte of its own, and the symbol is 9.
abbrev memo_four : Text
memo_four =
    4 ∷ b':' ∷ b'b' ∷ b'u' ∷ b'y' ∷ b':' ∷ b'0' ∷ b'.' ∷ b'0' ∷ b'3' ∷ b' ' ∷ b'X' ∷ b':' ∷ b'1'
    ∷ b'0' ∷ []

on_transfer-memo_four :
    on_transfer memory (λ code precision. some 9) (signed_at 0) 7 1 (coins 9 100) memo_four start
    ≡ place_order memory (signed_at 0) 7 4 buy (coins 9 3) (pos 10) (coins 9 100) memo_four start
unfolding on_transfer split_raw stoll to_int64 to_uint64 safe_mul safe_add trim ◌*ℤ◌ ◌+ℤ◌ ◌-ℤ◌ ◌/ℤ◌
    text_eq
on_transfer-memo_four = refl

abbrev symbol_nine : Text → ℕ → Option ℕ
symbol_nine code precision = some 9

start-Inv : Inv memory start
start-Inv = record {
  open_orders = λ k o e. absurd (ground (arith, e));
  fresh = λ k h. refl;
  once = λ k. omega arith;
  booked = refl;
}

-- The numbers are set to start after 5; an order gets the number 6 and is cancelled, once.
abbrev history : List (Context × Call)
history =
    (signed_at 0, init_call 5 5 6 5)
    ∷ (signed_at 0, transfer_call 7 1 (coins 9 100) memo_four)
    ∷ (signed_at 1, cancelorder_call 6 [])
    ∷ (signed_at 2, cancelorder_call 6 [])
    ∷ []

settled_once_example : Inv memory (run memory symbol_nine history start)
unfolding run
settled_once_example =
    settled_once memory symbol_nine history start start-Inv
      (omega arith, (omega arith, (tt, (tt, tt))))

-- The last number is set back to 0 after an order with the number 1 is cancelled.
abbrev set_back : List (Context × Call)
set_back =
    (signed_at 0, transfer_call 7 1 (coins 9 100) memo_four)
    ∷ (signed_at 1, cancelorder_call 1 [])
    ∷ (signed_at 2, init_call 5 5 6 0)
    ∷ (signed_at 3, transfer_call 7 1 (coins 9 100) memo_four)
    ∷ (signed_at 4, cancelorder_call 1 [])
    ∷ []

settled_twice : settled_times 1 (run memory symbol_nine set_back start).settled ≡ 2
unfolding run on_transfer place_order new_order cancelorder split_raw stoll to_int64 to_uint64
    safe_mul safe_add trim ◌*ℤ◌ ◌+ℤ◌ ◌-ℤ◌ ◌/ℤ◌ text_eq
settled_twice = refl

-- Another pair is added and the order of the removed one is not cancelled.
abbrev later_calls : List (Context × Call)
later_calls =
    (signed_at 1, addtradpair_call (record pair_four { tpcode = 5 }))
    ∷ (signed_at 1, cancelorder_call 1 [])
    ∷ []

rmtradpair_strands_example :
    (memory.find (run memory symbol_nine later_calls removed).orders 1 ≡ some order_one)
    × ((memo : Text)
        → OnOk
            (λ t. ⊥)
            (cancelorder memory (signed_at 2) 1 memo (run memory symbol_nine later_calls removed)))
    × ((paid deal price fee : Asset) (memo : Text)
        → OnOk
            (λ t. ⊥)
            (finishorder memory
              (signed_at 2)
              1
              paid
              deal
              price
              fee
              memo
              (run memory symbol_nine later_calls removed)))
rmtradpair_strands_example =
    rmtradpair_strands memory symbol_nine 4 1 order_one order_one_code (signed_at 1) (signed_at 2)
      placed removed later_calls order_one-found rmtradpair_runs (refl, tt)
