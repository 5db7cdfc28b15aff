-- ===== src/Airdrop/Actions.antt =====
-- flon.airdrop: the actions (src/flon.airdrop.cpp).
use toolkit_contracts.Base.{
  Bool, List, Option, Result, Text, [], check, if◌then◌else◌, is_some, leb, leb_ℤ, length, ltb,
  ltb_ℤ, not, ok, or_abort, pos, ℕ, ◌%◌, ◌&&◌, ◌+◌, ◌==◌, ◌>>=◌, ◌>>◌, ◌^◌, ◌||◌, ◌∷◌,
}
use toolkit_contracts.Chain.{Asset, Chain, Context, Transfer, emplace}
use toolkit_contracts.Airdrop.State.{
  ClaimConf, Error, State, account_invalid, all_known, already_exists, did_not_auth, erase_conf,
  expired, find_token, insufficient_quantity, invalid_format, is_oracle, known_account,
  not_positive, platform, record_no_found, remove_oracle, set_conf, status_mismatch, type_invalid,
  unauthorized, valid_time_invalid, value_or,
}

-- What one entry pays: a full share, or what is left where that is less.
unfoldable pub claim_quant : ClaimConf → Asset
claim_quant e =
    if leb_ℤ e.single_claim.amount e.available.amount then e.single_claim else e.available

module _ (c : Chain) where
  -- The guard of the actions that the admin or the contract may call.
  abbrev pub is_admin : Context → State c → Bool
  is_admin ctx s = ctx.has_auth s.global.admin || ctx.has_auth ctx.self

  unfoldable pub init : Context → ℕ → List ℕ → State c → Result Error (State c)
  init ctx admin oracles s = do
    check (ctx.has_auth ctx.self) unauthorized
    check (known_account ctx admin) account_invalid
    check (all_known ctx oracles) account_invalid
    ok (record s {
      global = record { admin = admin; oracles = oracles; last_plan_id = 0; last_token_id = 0 };
    })

  unfoldable pub addoracle : Context → ℕ → State c → Result Error (State c)
  unfolding is_oracle
  addoracle ctx oracle s = do
    check (is_admin ctx s) unauthorized
    check (known_account ctx oracle) account_invalid
    check (not (is_oracle s.global.oracles oracle)) already_exists
    ok (record s { global = record s.global { oracles = oracle ∷ s.global.oracles } })

  unfoldable pub deloracle : Context → ℕ → State c → Result Error (State c)
  unfolding is_oracle remove_oracle
  deloracle ctx oracle s = do
    check (is_admin ctx s) unauthorized
    check (is_oracle s.global.oracles oracle) record_no_found
    ok (record s { global = record s.global { oracles = remove_oracle oracle s.global.oracles } })

  unfoldable pub addtoken : Context → ℕ → ℕ → State c → Result Error (State c)
  unfolding find_token emplace
  addtoken ctx token_bank raw s = do
    check (is_admin ctx s) unauthorized
    check (known_account ctx token_bank) account_invalid
    check (c.symbol_is_valid raw) invalid_format
    check (not (is_some (find_token token_bank raw (c.entries s.tokens)))) already_exists
    let id = (s.global.last_token_id + 1) % 2 ^ 64
    tokens ←
        or_abort
          (emplace c s.tokens id (record {
            id = id;
            token_bank = token_bank;
            sym = raw;
            created_at = ctx.now;
            updated_at = ctx.now;
          }))
          platform
    ok (record s { tokens = tokens; global = record s.global { last_token_id = id } })

  unfoldable pub deltoken : Context → ℕ → ℕ → State c → Result Error (State c)
  unfolding find_token
  deltoken ctx token_bank raw s = do
    check (is_admin ctx s) unauthorized
    row ← or_abort (find_token token_bank raw (c.entries s.tokens)) record_no_found
    ok (record s { tokens = c.erase s.tokens row.0 })

  unfoldable pub addplan : Context → Text → ℕ → ℕ → State c → Result Error (State c)
  unfolding emplace
  addplan ctx title started_at ended_at s = do
    check (is_admin ctx s) unauthorized
    check (leb started_at ended_at) valid_time_invalid
    let id = (s.global.last_plan_id + 1) % 2 ^ 64
    plans ←
        or_abort
          (emplace c s.plans id (record {
            id = id;
            title = title;
            plan_started_at = started_at;
            plan_ended_at = ended_at;
            claims = [];
            claimed_cnt = 0;
            created_at = ctx.now;
            updated_at = ctx.now;
          }))
          platform
    ok (record s { plans = plans; global = record s.global { last_plan_id = id } })

  unfoldable pub setclaim : Context → ℕ → ℕ → ℕ → Asset → Asset → State c → Result Error (State c)
  unfolding find_token set_conf
  setclaim ctx plan_id raw contract single_claim allocated s = do
    check (is_admin ctx s) unauthorized
    check (single_claim.symbol == raw) type_invalid
    check (single_claim.symbol == allocated.symbol) type_invalid
    check (ctx.is_account contract) account_invalid
    check (ltb_ℤ (pos 0) single_claim.amount) not_positive
    check (leb_ℤ single_claim.amount allocated.amount) not_positive
    check (is_some (find_token contract raw (c.entries s.tokens))) status_mismatch
    p ← or_abort (c.find s.plans plan_id) record_no_found
    let conf : ClaimConf = record {
      symbol = raw;
      contract = contract;
      single_claim = single_claim;
      available = allocated;
    }
    ok (record s { plans = c.put s.plans plan_id (record p { claims = set_conf conf p.claims }) })

  unfoldable pub delclaim : Context → ℕ → ℕ → ℕ → State c → Result Error (State c)
  unfolding erase_conf
  delclaim ctx plan_id raw contract s = do
    check (is_admin ctx s) unauthorized
    p ← or_abort (c.find s.plans plan_id) record_no_found
    ok (record s {
      plans = c.put s.plans plan_id (record p { claims = erase_conf raw contract p.claims });
    })

  unfoldable pub setplan :
      Context → ℕ → Option Text → Option ℕ → Option ℕ → State c → Result Error (State c)
  setplan ctx plan_id title started_at ended_at s = do
    check (is_admin ctx s) unauthorized
    p ← or_abort (c.find s.plans plan_id) record_no_found
    let started = value_or p.plan_started_at started_at
    let ended = value_or p.plan_ended_at ended_at
    check (leb started ended) valid_time_invalid
    ok (record s {
      plans = c.put s.plans plan_id (record p {
        title = value_or p.title title;
        plan_started_at = started;
        plan_ended_at = ended;
        updated_at = ctx.now;
      });
    })

  unfoldable pub delplan : Context → ℕ → State c → Result Error (State c)
  delplan ctx plan_id s = do
    check (ctx.has_auth ctx.self) unauthorized
    p ← or_abort (c.find s.plans plan_id) record_no_found
    ok (record s { plans = c.erase s.plans plan_id })

  -- The loop of `claim` over the entries of a plan: the entries after it, and what it has sent.
  unfoldable pub claim_loop :
      ℕ → List ClaimConf → List Transfer → Result Error (List ClaimConf × List Transfer)
  unfolding claim_quant
  claim_loop beneficiary [] sent = ok ([], sent)
  claim_loop beneficiary (e ∷ es) sent = do
    check (e.available.symbol == e.single_claim.symbol) platform
    let quant = claim_quant e
    available ← or_abort (c.sub_asset e.available quant) platform
    rest ←
        claim_loop beneficiary es
          (record { bank = e.contract; to = beneficiary; quantity = quant } ∷ sent)
    ok (record e { available = available } ∷ rest.0, rest.1)

  unfoldable pub claim : Context → ℕ → ℕ → ℕ → State c → Result Error (State c)
  unfolding is_oracle claim_loop
  claim ctx plan_id claimer beneficiary s = do
    check (ctx.has_auth claimer) unauthorized
    check (is_oracle s.global.oracles claimer) did_not_auth
    check (known_account ctx beneficiary) account_invalid
    p ← or_abort (c.find s.plans plan_id) record_no_found
    check (leb p.plan_started_at ctx.now && leb ctx.now p.plan_ended_at) expired
    result ← claim_loop beneficiary p.claims s.sent
    check (ltb 0 (length p.claims)) insufficient_quantity
    ok (record s {
      plans = c.put s.plans plan_id (record p {
        claims = result.0;
        claimed_cnt = (p.claimed_cnt + 1) % 2 ^ 64;
        updated_at = ctx.now;
      });
      sent = result.1;
    })
