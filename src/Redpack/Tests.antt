-- ===== src/Redpack/Tests.antt =====
-- flon.redpack: examples of the theorems, and runs of the actions on small tables.
use toolkit_contracts.Base.{
  List, Text, [], after, arith, false, ok, pos, refl, some, split_raw, text_eq, true, ℕ, ◌*ℤ◌, ◌*◌,
  ◌++◌, ◌+ℤ◌, ◌-ℤ◌, ◌/ℤ◌, ◌<◌, ◌∷◌, ◌≡◌, ◌≤ℤ◌, ◌≤◌,
}
use toolkit_contracts.Chain.{Asset, Context, total}
use toolkit_contracts.Arithmetic.{power10}
use toolkit_contracts.Redpack.State.{Redpack, State, created, random, servicing}
use toolkit_contracts.Redpack.Assign.{
  assign_redpack, draw_units, min_unit_of, min_unit_value, share_of,
}
use toolkit_contracts.Redpack.Memo.{fee_word, flon_token, sys_symbol}
use toolkit_contracts.Redpack.Actions.{
  cancel, claimredpack, handle_fee_payment, pay_claim, token_transfer,
}
use toolkit_contracts.Redpack.Conserve.{funds, left_value}
use toolkit_contracts.Redpack.Claims.{Paid, claimredpack_once, claimredpack_pays, no_more}
use toolkit_contracts.Redpack.Random.{assign_redpack-bounds, unit_of}
use toolkit_contracts.Redpack.Starved.{DrawsAll, claimredpack_starves}
use toolkit_contracts.Redpack.Fair.{AllFair}
use toolkit_contracts.Redpack.Run.{
  Call, cancel_call, claim_call, fee_gap, inflow, run, run_solvent, tally, transfer_call,
}
use toolkit_contracts.Chain.Memory.{empty_table, memory, one_row, signed_at, text_number}

-- 2,ABC
abbrev raw : ℕ
raw = 0x43424102

abbrev coins : ℕ → Asset
coins n = record { amount = pos n; symbol = raw }

abbrev pack : Redpack
pack = record {
  redpack_id = 1;
  code = 4;
  assign_type = random;
  creator = 6;
  did_required = false;
  unwrapped_by_admin = true;
  cover_code = 0;
  passwd_hash = [];
  token_contract = 2;
  total_quant = coins 1000;
  total_count = 2;
  remaining_quant = coins 1000;
  remaining_count = 2;
  status = servicing;
  created_at = 0;
  updated_at = 0;
}

abbrev start : State memory
start = record {
  global = record {
    admin = 5;
    claim_admin = 5;
    did_contract = 3;
    dids = [];
    redpack_expiry_hours = 24;
    unwrap_unit_fee = coins 0;
    unwrap_fee_required = false;
  };
  globalidx = record { last_redpack_id = 1; last_claim_id = 0 };
  redpacks = one_row 4 pack;
  claims = empty_table;
  tokens = empty_table;
  sent = [];
}

abbrev claimed : State memory
claimed = after start (claimredpack memory (signed_at 0) 3 [] 7 4 [] start)

claimredpack_runs : claimredpack memory (signed_at 0) 3 [] 7 4 [] start ≡ ok claimed
unfolding claimredpack text_eq share_of assign_redpack min_unit_value draw_units power10 ◌/ℤ◌
    pay_claim ◌-ℤ◌
claimredpack_runs = refl

abbrev drained : State memory
drained = after start (claimredpack memory (signed_at 0) 9 [] 7 4 [] start)

drained_runs : claimredpack memory (signed_at 0) 9 [] 7 4 [] start ≡ ok drained
unfolding claimredpack text_eq share_of assign_redpack min_unit_value draw_units power10 ◌/ℤ◌
    pay_claim ◌-ℤ◌
drained_runs = refl

pack-DrawsAll : DrawsAll memory 9 10 pack
unfolding min_unit_of
pack-DrawsAll = record {
  two_left = refl;
  even_units = refl;
  even = refl;
  some_units = ground arith;
  some_unit = ground arith;
  in_range = ground arith;
  digits = omega arith;
  valid = refl;
  last = refl;
}

claimredpack_starves_example : ¬ (claimredpack memory (signed_at 1) 3 [] 8 4 [] drained ≡ ok start)
claimredpack_starves_example =
    claimredpack_starves memory (signed_at 0) (signed_at 1) 9 3 10 [] [] 7 8 4 [] [] start drained
      pack refl refl pack-DrawsAll drained_runs start

assign_redpack_draws : assign_redpack memory 3 pack ≡ some (coins 400)
unfolding assign_redpack min_unit_value draw_units power10 ◌/ℤ◌
assign_redpack_draws = refl

assign_redpack-bounds_example :
    (raw ≡ raw)
    × ((k : ℕ) × (pos 400 ≡ pos (k * unit_of pack))
        × (0 < k * unit_of pack)
        × (k * unit_of pack ≤ 1000)
        × (k * unit_of pack ≤ 1000))
assign_redpack-bounds_example =
    assign_redpack-bounds memory 3 1000 pack (coins 400) refl (ground arith) (omega arith)
      (ground arith) assign_redpack_draws

claimredpack_pays_example :
    (q : Asset) × (share_of memory 3 random pack ≡ some q)
    × ((r' : Redpack) × Paid memory 7 4 pack q start r' claimed)
claimredpack_pays_example =
    claimredpack_pays memory (signed_at 0) 3 [] 7 4 [] start claimed pack claimredpack_runs refl

claimredpack_once_example : ¬ (claimredpack memory (signed_at 1) 8 [] 7 4 [] claimed ≡ ok start)
claimredpack_once_example =
    claimredpack_once memory (signed_at 0) (signed_at 1) 3 8 [] [] 7 4 [] [] start claimed claimed
      start claimredpack_runs no_more

abbrev cancelled : State memory
cancelled = after start (cancel memory (signed_at 86400000001) 4 start)

cancel_runs : cancel memory (signed_at 86400000001) 4 start ≡ ok cancelled
unfolding cancel
cancel_runs = refl

-- The packet waits for its fee, which is 5 FLON for each count.
abbrev waiting : State memory
waiting = record start {
  global = record start.global {
    unwrap_unit_fee = record { amount = pos 5; symbol = sys_symbol };
    unwrap_fee_required = true;
  };
  redpacks = one_row 4 (record pack { status = created });
}

waiting-AllFair : AllFair memory waiting
waiting-AllFair k r e = ground (arith, e)

abbrev fee_memo : Text
fee_memo = fee_word ++ b':' ∷ 4 ∷ b':' ∷ b'1' ∷ []

-- The fee is paid in a token of the contract 9 with the symbol of FLON. Then there are a claim, one
-- that fails, and the cancellation of what is left.
abbrev history : List (Context × Call)
history =
    (
      record (signed_at 0) { first_receiver = 9 },
      transfer_call 7 1 (record { amount = pos 10; symbol = sys_symbol }) fee_memo,
    )
    ∷ (signed_at 0, claim_call 3 [] 7 4 [])
    ∷ (signed_at 0, claim_call 3 [] 7 4 [])
    ∷ (signed_at 100000000000, cancel_call 4)
    ∷ []

-- The fee is passed on in FLON, and all that the packet held is sent.
history_sent :
    (run memory history waiting).sent
    ≡ record { bank = 2; to = 6; quantity = coins 600 }
      ∷ record { bank = 2; to = 7; quantity = coins 400 }
      ∷ record {
        bank = text_number flon_token;
        to = 5;
        quantity = record { amount = pos 10; symbol = sys_symbol };
      }
      ∷ []
unfolding run claimredpack token_transfer handle_fee_payment text_eq split_raw share_of
    assign_redpack min_unit_value draw_units power10 pay_claim cancel ◌-ℤ◌ ◌*ℤ◌ ◌/ℤ◌
history_sent = refl

run_solvent_example :
    (funds 9 sys_symbol memory (run memory history waiting)
      ≡ funds 9 sys_symbol memory waiting
        +ℤ (tally memory 9 sys_symbol (inflow memory 9 sys_symbol) history waiting
            +ℤ tally memory 9 sys_symbol (fee_gap memory 9 sys_symbol) history waiting))
    × (pos 0 ≤ℤ total memory (left_value 9 sys_symbol memory) (run memory history waiting).redpacks)
run_solvent_example = run_solvent memory 9 sys_symbol history waiting waiting-AllFair
