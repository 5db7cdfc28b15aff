-- ===== src/Applybp/Actions.antt =====
-- flon.applybp: the actions (src/flon.applybp.cpp).
use toolkit_contracts.Base.{
  Bool, Option, Result, check, false, if◌then◌else◌, is_some, leb, length, none, not, ok, or_abort,
  some, true, ℕ, ◌==◌, ◌>>=◌, ◌>>◌, ◌||◌,
}
use toolkit_contracts.Chain.{Chain, Context, emplace, seconds}
use toolkit_contracts.Applybp.State.{
  Error, Producer, Profile, State, account_invalid, blank, disable, enable, max_logo_size,
  max_title_size, no_auth, oversized, param_error, platform, record_existing, record_not_found,
  status_error, unauthorized,
}

-- The setter of `_set_producer`.
unfoldable pub fill_profile : Context → ℕ → Profile → Bool → Producer → Producer
fill_profile ctx owner f is_new p =
    let new_row = record p { owner = owner; created_at = seconds ctx.now; status = disable } in
    let q : Producer = if is_new then new_row else p in
    record q {
      logo_uri = f.logo_uri;
      org_name = f.org_name;
      org_info = f.org_info;
      dao_code = f.dao_code;
      reward_shared_plan = f.reward_shared_plan;
      manifesto = f.manifesto;
      issuance_plan = f.issuance_plan;
      updated_at = seconds ctx.now;
    }

-- The setter of `setstatus`.
unfoldable pub fill_status : Context → ℕ → ℕ → Bool → Producer → Producer
fill_status ctx owner status is_new p =
    let new_row = record p { owner = owner; created_at = seconds ctx.now } in
    let q : Producer = if is_new then new_row else p in
    record q { status = status; updated_at = seconds ctx.now }

module _ (c : Chain) where
  -- `db::set`: a row that is not there is emplaced, one that is there is modified.
  unfoldable pub set :
      c.Table Producer → ℕ → (Bool → Producer → Producer) → Option (c.Table Producer)
  unfolding emplace
  set t owner setter = elim (c.find t owner) [
    | none ↦ emplace c t owner (setter true blank)
    | some p ↦ some (c.put t owner (setter false p))
  ]

  -- `_set_producer`
  unfoldable pub set_producer : Context → ℕ → Profile → State c → Result Error (State c)
  unfolding set fill_profile
  set_producer ctx owner f s = do
    check (ctx.is_account owner) account_invalid
    check (leb (length f.logo_uri) max_logo_size) oversized
    check (leb (length f.org_name) max_title_size) oversized
    check (leb (length f.org_info) max_title_size) oversized
    check (leb (length f.manifesto) max_title_size) oversized
    check (leb (length f.issuance_plan) max_title_size) oversized
    check (leb (length f.reward_shared_plan) max_title_size) oversized
    producers ← or_abort (set s.producers owner (fill_profile ctx owner f)) platform
    ok (record s { producers = producers })

  unfoldable pub init : Context → ℕ → State c → Result Error (State c)
  init ctx admin s = do
    check (ctx.has_auth ctx.self) unauthorized
    check (ctx.is_account admin) account_invalid
    ok (record s { global = record s.global { admin = admin } })

  unfoldable pub applybp : Context → ℕ → Profile → State c → Result Error (State c)
  unfolding set_producer
  applybp ctx owner f s = do
    check (ctx.has_auth owner) unauthorized
    check (not (is_some (c.find s.producers owner))) record_existing
    set_producer ctx owner f s

  unfoldable pub updatebp : Context → ℕ → Profile → State c → Result Error (State c)
  unfolding set_producer
  updatebp ctx owner f s = do
    check (ctx.has_auth owner) unauthorized
    check (is_some (c.find s.producers owner)) record_not_found
    set_producer ctx owner f s

  unfoldable pub addproducer : Context → ℕ → ℕ → Profile → State c → Result Error (State c)
  unfolding set_producer
  addproducer ctx submiter owner f s = do
    check (ctx.has_auth submiter) unauthorized
    check (submiter == s.global.admin) no_auth
    set_producer ctx owner f s

  unfoldable pub setstatus : Context → ℕ → ℕ → ℕ → State c → Result Error (State c)
  unfolding set fill_status
  setstatus ctx submiter owner status s = do
    check (ctx.has_auth submiter) unauthorized
    check (submiter == s.global.admin) no_auth
    p ← or_abort (c.find s.producers owner) record_not_found
    check (not (p.status == status)) status_error
    check (status == enable || status == disable) param_error
    producers ← or_abort (set s.producers owner (fill_status ctx owner status)) platform
    ok (record s { producers = producers })
