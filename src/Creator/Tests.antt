-- ===== src/Creator/Tests.antt =====
-- flon.creator: examples of the theorems.
use toolkit_contracts.Base.{List, [], not, pos, refl, ℕ, ◌==◌, ◌∷◌, ◌≡◌}
use toolkit_contracts.Chain.{Asset, Context}
use toolkit_contracts.Creator.State.{State, buygas_message, newaccount_message}
use toolkit_contracts.Creator.Admin.{
  Call, Idle, accounts_by_admin, init_call, newaccount_call, run, setgasquant_call,
}

abbrev coins : ℕ → Asset
coins n = record { amount = pos n; symbol = 0x4e4f4c4608 }

abbrev fresh : State
fresh = record { global = record { admin = 3; gas_quant = coins 300000 }; sent = [] }

-- The account 7 has not been created, and `who` signs.
abbrev signed_by : ℕ → Context
signed_by who = record {
  self = 1;
  first_receiver = 1;
  now = 0;
  has_auth = λ a. a == who;
  is_account = λ a. not (a == 7);
}

-- The contract signs the first two calls, and another account the others.
abbrev tries : List (Context × Call)
tries =
    (signed_by 1, setgasquant_call (coins 5))
    ∷ (signed_by 1, newaccount_call 3 9 7)
    ∷ (signed_by 8, newaccount_call 8 9 7)
    ∷ (signed_by 8, init_call 8)
    ∷ []

accounts_by_admin_example : Idle fresh (run tries fresh)
accounts_by_admin_example = accounts_by_admin tries fresh (refl, (refl, (refl, ((refl, refl), tt))))

-- After them the administrator creates the account, with the gas that the contract has set.
tries_sent :
    (run ((signed_by 3, newaccount_call 3 9 7) ∷ []) (run tries fresh)).sent
    ≡ buygas_message 7 (coins 5) ∷ newaccount_message 7 9 ∷ []
unfolding run
tries_sent = refl
