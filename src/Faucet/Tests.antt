-- ===== src/Faucet/Tests.antt =====
-- flon.faucet: examples of the theorems.
use toolkit_contracts.Base.{List, [], arith, ok, pos, refl, ◌∷◌, ◌≡◌}
use toolkit_contracts.Chain.{Asset, Context}
use toolkit_contracts.Faucet.State.{State, sys_symbol, transfer_message}
use toolkit_contracts.Faucet.Actions.{claim}
use toolkit_contracts.Faucet.Daily.{
  Call, PaidAt, active_call, claim_call, claim_pays, paid_once_a_day, paid_to, run,
}
use toolkit_contracts.Chain.Memory.{memory, one_row, signed_at}

abbrev coins : Asset
coins = record { amount = pos 1000000000; symbol = sys_symbol }

-- The account 7 was paid once, at the second 100.
abbrev paid_once : State memory
paid_once = record {
  accounts = one_row 7 (record { owner = 7; updated_at = 100000000 });
  sent = transfer_message 7 coins ∷ [];
}

abbrev tries : List (Context × Call)
tries =
    (signed_at 200000000, claim_call 7)
    ∷ (signed_at 300000000, claim_call 8)
    ∷ (signed_at 86499999999, active_call 7 5)
    ∷ []

paid_once_a_day_example : paid_to 7 (run memory tries paid_once).sent ≡ 1
unfolding paid_to
paid_once_a_day_example =
    paid_once_a_day memory 7 100 1 tries paid_once
      ((record { owner = 7; updated_at = 100000000 }, refl, refl), refl)
      (omega arith, omega arith, (omega arith, omega arith, (omega arith, omega arith, tt)))

claim_pays_example :
    (s' : State memory) × (claim memory (signed_at 86500000000) 7 paid_once ≡ ok s')
    × PaidAt memory 7 86500 2 s'
    × (s'.sent ≡ transfer_message 7 coins ∷ paid_once.sent)
unfolding paid_to
claim_pays_example =
    claim_pays memory (signed_at 86500000000) 7 1 paid_once coins refl (λ row e. ground arith) refl
