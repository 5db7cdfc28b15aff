-- ===== src/Applybp/Tests.antt =====
-- flon.applybp: examples of the theorems.
use toolkit_contracts.Base.{List, [], arith, refl, some, true, ℕ, ◌==◌, ◌∷◌, ◌≡◌}
use toolkit_contracts.Chain.{Context}
use toolkit_contracts.Applybp.State.{Profile, State, disable, enable}
use toolkit_contracts.Applybp.Status.{
  AreProducers, Call, Keeps, applybp_call, init_call, run, run-AreProducers, setstatus_call,
  status_kept, updatebp_call,
}
use toolkit_contracts.Chain.Memory.{empty_table, memory, signed_at}

abbrev profile_of : ℕ → Profile
profile_of code = record {
  logo_uri = [];
  org_name = [];
  org_info = [];
  dao_code = code;
  reward_shared_plan = [];
  manifesto = [];
  issuance_plan = [];
}

abbrev nobody_applied : State memory
nobody_applied = record { global = record { admin = 3; dao_contract = 4 }; producers = empty_table }

-- All accounts exist, and the account 7 signs.
abbrev signed_by_7 : Context
signed_by_7 = record {
  self = 1;
  first_receiver = 1;
  now = 5000000;
  has_auth = λ a. a == 7;
  is_account = λ a. true;
}

abbrev tries : List (Context × Call)
tries =
    (signed_by_7, applybp_call 7 (profile_of 1))
    ∷ (signed_by_7, setstatus_call 7 7 enable)
    ∷ (signed_by_7, updatebp_call 7 (profile_of 2))
    ∷ (signed_by_7, init_call 7)
    ∷ []

run-AreProducers_example :
    AreProducers memory
      (run memory ((signed_at 0, setstatus_call 3 7 enable) ∷ tries) nobody_applied)
run-AreProducers_example =
    run-AreProducers memory ((signed_at 0, setstatus_call 3 7 enable) ∷ tries) nobody_applied
      (λ k p e. ground (arith, e))

status_kept_example : Keeps memory nobody_applied (run memory tries nobody_applied)
status_kept_example =
    status_kept memory tries nobody_applied
      (refl, refl, (refl, refl, (refl, refl, (refl, refl, tt))))

-- The profile is there, with the second text, and disabled.
tries_lem :
    memory.find (run memory tries nobody_applied).producers 7
    ≡ some (record {
      owner = 7;
      logo_uri = [];
      org_name = [];
      org_info = [];
      dao_code = 2;
      reward_shared_ratio = 0;
      manifesto = [];
      issuance_plan = [];
      reward_shared_plan = [];
      status = disable;
      created_at = 5;
      updated_at = 5;
    })
unfolding run
tries_lem = refl
