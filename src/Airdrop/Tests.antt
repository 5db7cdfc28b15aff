-- ===== src/Airdrop/Tests.antt =====
-- flon.airdrop: examples of the theorems, and runs of the actions on small tables.
use toolkit_contracts.Base.{List, [], after, ok, pos, refl, some, ℕ, ◌-ℤ◌, ◌∷◌, ◌≡◌}
use toolkit_contracts.Chain.{Asset, Context}
use toolkit_contracts.Chain.Memory.{empty_table, memory, one_row, signed_at}
use toolkit_contracts.Airdrop.State.{Plan, State}
use toolkit_contracts.Airdrop.Actions.{claim}
use toolkit_contracts.Airdrop.Conserve.{airdrop_conserves, funds}
use toolkit_contracts.Airdrop.Rules.{
  Call, SoundAt, addplan_call, addtoken_call, call, init_call, run, run-IsSound, setclaim_call,
}

abbrev coins : ℕ → Asset
coins n = record { amount = pos n; symbol = 9 }

abbrev blank : State memory
blank = record {
  global = record { admin = 0; oracles = []; last_plan_id = 0; last_token_id = 0 };
  plans = empty_table;
  tokens = empty_table;
  sent = [];
}

abbrev set_up : List (Context × Call)
set_up =
    (signed_at 0, init_call 5 (6 ∷ []))
    ∷ (signed_at 0, addtoken_call 2 9)
    ∷ (signed_at 0, addplan_call [] 0 100)
    ∷ (signed_at 0, setclaim_call 1 9 2 (coins 10) (coins 25))
    ∷ []

abbrev one_plan : Plan
one_plan = record {
  id = 1;
  title = [];
  plan_started_at = 0;
  plan_ended_at = 100;
  claims = record { symbol = 9; contract = 2; single_claim = coins 10; available = coins 25 } ∷ [];
  claimed_cnt = 0;
  created_at = 0;
  updated_at = 0;
}

set_up_runs : memory.find (run memory set_up blank).plans 1 ≡ some one_plan
unfolding run call
set_up_runs = refl

run-IsSound_example : SoundAt memory 1 (run memory set_up blank)
run-IsSound_example = run-IsSound memory set_up blank (λ k. tt) 1

abbrev start : State memory
start = record blank {
  global = record { admin = 5; oracles = 6 ∷ []; last_plan_id = 1; last_token_id = 1 };
  plans = one_row 1 one_plan;
}

abbrev paid : State memory
paid = after start (claim memory (signed_at 50) 1 6 7 start)

claim_runs : claim memory (signed_at 50) 1 6 7 start ≡ ok paid
unfolding claim ◌-ℤ◌
claim_runs = refl

airdrop_conserves_example : funds 2 9 memory paid ≡ funds 2 9 memory start
airdrop_conserves_example = airdrop_conserves 2 9 memory (signed_at 50) 1 6 7 start paid claim_runs
