-- ===== src/Redpack/Actions.antt =====
-- flon.redpack: the actions (src/redpack.cpp).
use mathlib.Core.List.{head?}
use toolkit_contracts.Base.{
  Bool, List, Option, Result, Text, [], check, eq_ℤ, err, if◌then◌else◌, is_some, leb, leb_ℤ,
  length, ltb, ltb_ℤ, map_option, none, not, ok, or_abort, pos, pos_part, some, split_raw, stoi,
  text_eq, true, ℕ, ℤ, ◌%◌, ◌&&◌, ◌*◌, ◌+◌, ◌-◌, ◌/ℤ◌, ◌==◌, ◌>>=◌, ◌>>◌, ◌^◌, ◌||◌, ◌∷◌,
}
use toolkit_contracts.Chain.{Asset, Chain, Context, Rows, emplace}
use toolkit_contracts.Redpack.State.{
  AssignType, Claim, Error, Redpack, State, account_invalid, amount_too_large, created,
  did_not_auth, did_not_supported, did_pack_symbol_err, expired, fee_not_positive, fee_not_required,
  find_token, finished, has_claim, insufficient_quantity, invalid_format, is_created, is_servicing,
  none_deleted, not_expired, not_positive, not_repeat_receive, platform, pwhash_invalid,
  record_no_found, redpack_exist, servicing, symbol_mismatch, type_invalid, unauthorized,
  under_maintenance, valid_time_invalid,
}
use toolkit_contracts.Redpack.Assign.{share_of}
use toolkit_contracts.Redpack.Memo.{
  awrap_word, did_matched, fee_word, flon_token, is_did_symbol, member, sys_symbol, type_of,
  uwrap_word,
}

-- The packet that a deposit opens.
abbrev pub new_redpack :
    Context → ℕ → Asset → ℕ → AssignType → Bool → ℤ → Text → ℕ → Bool → ℕ → Redpack
new_redpack ctx from quantity code rp_type did_required count passwd_hash cover_code fee_required
      new_redpack_id =
    record {
      redpack_id = new_redpack_id;
      code = code;
      assign_type = rp_type;
      creator = from;
      did_required = did_required;
      unwrapped_by_admin = true;
      cover_code = cover_code;
      passwd_hash = passwd_hash;
      token_contract = ctx.first_receiver;
      total_quant = quantity;
      total_count = pos_part count;
      remaining_quant = quantity;
      remaining_count = pos_part count;
      status = if fee_required then created else servicing;
      created_at = ctx.now;
      updated_at = ctx.now;
    }

module _ (c : Chain) where
  unfoldable pub init : Context → ℕ → ℕ → ℕ → ℕ → State c → Result Error (State c)
  init ctx admin claim_admin hours did_contract s = do
    check (ctx.has_auth ctx.self) unauthorized
    check (ctx.is_account admin) account_invalid
    check (ctx.is_account claim_admin) account_invalid
    check (ltb 0 hours) valid_time_invalid
    ok (record s {
      global = record s.global {
        admin = admin;
        claim_admin = claim_admin;
        redpack_expiry_hours = hours;
        did_contract = did_contract;
      };
    })

  unfoldable pub delisttoken : Context → ℕ → State c → Result Error (State c)
  delisttoken ctx token_id s = do
    check (ctx.has_auth s.global.admin) unauthorized
    token ← or_abort (c.find s.tokens token_id) record_no_found
    ok (record s { tokens = c.erase s.tokens token_id })

  unfoldable pub listtoken : Context → ℕ → ℕ → State c → Result Error (State c)
  unfolding find_token
  listtoken ctx contract raw s = do
    check (ctx.has_auth s.global.admin) unauthorized
    let tid : ℕ = elim (find_token contract raw (c.entries s.tokens)) [
      | none ↦ c.available_primary_key s.tokens
      | some t ↦ t.id
    ]
    ok (record s {
      tokens =
          c.put s.tokens tid (record { id = tid; token_contract = contract; token_symbol = raw });
    })

  -- `_handle_deposit`, once the parts of the memo are read.
  unfoldable pub deposit :
      Context
      → ℕ
      → Asset
      → ℕ
      → Option AssignType
      → Bool
      → ℤ
      → Text
      → Option ℕ
      → State c
      → Result Error (State c)
  unfolding find_token emplace
  deposit ctx from quantity code kind did_required count passwd_hash cover s = do
    check (not (is_some (c.find s.redpacks code))) redpack_exist
    rp_type ← or_abort kind type_invalid
    check (ltb_ℤ (pos 0) count) not_positive
    check (leb_ℤ count (pos 10000)) amount_too_large
    cover_code ← or_abort cover platform
    check (leb_ℤ (pos 100) (quantity.amount /ℤ count)) insufficient_quantity
    check (not did_required || is_did_symbol quantity.symbol) did_pack_symbol_err
    let new_redpack_id = (s.globalidx.last_redpack_id + 1) % 2 ^ 64
    redpacks ←
        or_abort
          (emplace c s.redpacks code (
            new_redpack ctx from quantity code rp_type did_required count passwd_hash cover_code
              s.global.unwrap_fee_required new_redpack_id))
          platform
    ok (record s {
      redpacks = redpacks;
      globalidx = record s.globalidx { last_redpack_id = new_redpack_id };
    })

  -- `_handle_deposit`; the memo is wrap:code:type:did_required:count:password_hash:cover_code.
  unfoldable pub handle_deposit : Context → ℕ → Asset → List Text → State c → Result Error (State c)
  unfolding deposit type_of
  handle_deposit ctx from quantity (w ∷ code ∷ kind ∷ did ∷ count ∷ hash ∷ cover ∷ rest) s = do
    or_abort
        (map_option (λ t. tt) (find_token ctx.first_receiver quantity.symbol (c.entries s.tokens)))
        record_no_found
    code ← or_abort (c.name_of code) platform
    check (not (is_some (c.find s.redpacks code))) redpack_exist
    or_abort (map_option (λ n. tt) (c.name_of kind)) platform
    or_abort (map_option (λ k. tt) (type_of c kind)) type_invalid
    did ← or_abort (stoi did) platform
    count ← or_abort (stoi count) platform
    deposit ctx from quantity code (type_of c kind) (eq_ℤ did (pos 1)) count hash (c.name_of cover)
        s
  handle_deposit ctx from quantity _ s = err invalid_format

  unfoldable pub handle_fee_payment : Context → Asset → List Text → State c → Result Error (State c)
  handle_fee_payment ctx fee_quant (w ∷ code ∷ rest) s = do
    check (ltb_ℤ (pos 0) s.global.unwrap_unit_fee.amount) fee_not_required
    check s.global.unwrap_fee_required fee_not_required
    check (fee_quant.symbol == sys_symbol) symbol_mismatch
    code ← or_abort (c.name_of code) platform
    r ← or_abort (c.find s.redpacks code) redpack_exist
    check r.unwrapped_by_admin account_invalid
    required ← or_abort (c.mul_asset r.total_count s.global.unwrap_unit_fee) platform
    check (leb_ℤ required.amount fee_quant.amount) fee_not_positive
    bank ← or_abort (c.name_of flon_token) platform
    check (is_created r.status) expired
    ok (record s {
      sent = record { bank = bank; to = s.global.admin; quantity = fee_quant } ∷ s.sent;
      redpacks = c.put s.redpacks code (record r { status = servicing; updated_at = ctx.now });
    })
  handle_fee_payment ctx fee_quant _ s = err platform

  -- The branches of `_token_transfer`, by the first part of the memo.
  unfoldable pub on_action :
      Context → ℕ → Asset → Text → List Text → State c → Result Error (State c)
  on_action ctx from quantity action parts s =
      if text_eq action awrap_word
      then check (leb 6 (length parts)) invalid_format >> handle_deposit ctx from quantity parts s
      else if text_eq action fee_word
      then check (leb 3 (length parts)) invalid_format >> handle_fee_payment ctx quantity parts s
      else if text_eq action uwrap_word
      then err under_maintenance
      else err invalid_format

  -- `_token_transfer`, which all the `on_…_transfer` notifications call.
  unfoldable pub token_transfer : Context → ℕ → ℕ → Asset → Text → State c → Result Error (State c)
  unfolding on_action
  token_transfer ctx from to quantity memo s =
      let parts = split_raw [] b':' memo in
      let handled = do
        check (ltb_ℤ (pos 0) quantity.amount) not_positive
        check (ctx.is_account from) account_invalid
        action ← or_abort (head? parts) invalid_format
        on_action ctx from quantity action parts s
      in if from == ctx.self || not (to == ctx.self) then ok s else handled

  -- The end of `claimredpack`: the share is sent, and the packet and the claim are recorded.
  unfoldable pub pay_claim : Context → ℕ → ℕ → Redpack → Asset → State c → Result Error (State c)
  unfolding emplace
  pay_claim ctx claimer code r assigned s = do
    check (r.remaining_quant.symbol == assigned.symbol) platform
    check (leb_ℤ assigned.amount r.remaining_quant.amount) insufficient_quantity
    left ← or_abort (c.sub_asset r.remaining_quant assigned) platform
    let new_claim_id = (s.globalidx.last_claim_id + 1) % 2 ^ 64
    claims ←
        or_abort
          (emplace c s.claims new_claim_id (record {
            id = new_claim_id;
            redpack_id = r.redpack_id;
            redpack_code = code;
            redpack_creator = r.creator;
            claimer = claimer;
            quantity = assigned;
            claimed_at = ctx.now;
          }))
          platform
    ok (record s {
      sent = record { bank = r.token_contract; to = claimer; quantity = assigned } ∷ s.sent;
      redpacks = c.put s.redpacks code (record r {
        remaining_quant = left;
        remaining_count = r.remaining_count - 1;
        status = if r.remaining_count == 1 then finished else r.status;
        updated_at = ctx.now;
      });
      claims = claims;
      globalidx = record s.globalidx { last_claim_id = new_claim_id };
    })

  -- `claimredpack`, given the seed of `_rand` and the claimer's DID tokens.
  unfoldable pub claimredpack :
      Context → ℕ → List (ℕ × ℤ) → ℕ → ℕ → Text → State c → Result Error (State c)
  unfolding has_claim did_matched
  claimredpack ctx seed did_tokens claimer code pwhash s = do
    check (ctx.has_auth s.global.claim_admin) unauthorized
    r ← or_abort (c.find s.redpacks code) record_no_found
    check (text_eq r.passwd_hash pwhash) pwhash_invalid
    check (not (has_claim claimer code (c.entries s.claims))) not_repeat_receive
    check (is_servicing r.status) expired
    check (not r.did_required || ltb 0 (length s.global.dids)) did_not_supported
    check (not r.did_required || did_matched s.global.dids did_tokens) did_not_auth
    check (ltb 0 r.remaining_count) insufficient_quantity
    check (ltb_ℤ (pos 0) r.remaining_quant.amount) insufficient_quantity
    assigned ← or_abort (share_of c seed r.assign_type r) platform
    pay_claim ctx claimer code r assigned s

  unfoldable pub cancel : Context → ℕ → State c → Result Error (State c)
  cancel ctx code s = do
    r ← or_abort (c.find s.redpacks code) record_no_found
    check (ltb (r.created_at + s.global.redpack_expiry_hours * 3600000000) ctx.now) not_expired
    let refundable =
        (is_created r.status || is_servicing r.status) && ltb_ℤ (pos 0) r.remaining_quant.amount
    ok (record s {
      sent =
          if refundable
          then record { bank = r.token_contract; to = r.creator; quantity = r.remaining_quant }
            ∷ s.sent
          else s.sent;
      redpacks = c.erase s.redpacks code;
    })

  -- The loop of `delclaims` over the rows: the codes known to be missing, and the rows deleted.
  unfoldable pub delclaims_loop :
      c.Table Redpack → ℕ → ℕ → List ℕ → Rows Claim → c.Table Claim → ℕ × c.Table Claim
  unfolding member
  delclaims_loop packs max_rows count missing [] t = (count, t)
  delclaims_loop packs max_rows count missing ((k, r) ∷ rows) t =
      let gone = member r.redpack_code missing || not (is_some (c.find packs r.redpack_code)) in
      let missing' = if gone then r.redpack_code ∷ missing else missing in
      let rest =
        delclaims_loop packs max_rows (if gone then count + 1 else count) missing' rows
          (if gone then c.erase t k else t) in
      if ltb count max_rows then rest else (count, t)

  unfoldable pub delclaims : ℕ → State c → Result Error (State c)
  unfolding delclaims_loop
  delclaims max_rows s = do
    let (count, t) = delclaims_loop s.redpacks max_rows 0 [] (c.entries s.claims) s.claims
    check (ltb 0 count) none_deleted
    ok (record s { claims = t })

  unfoldable pub setglobalidx : Context → ℕ → ℕ → State c → Result Error (State c)
  setglobalidx ctx last_redpack_id last_claim_id s = do
    check (ctx.has_auth ctx.self) unauthorized
    ok (record s {
      globalidx = record {
        last_redpack_id =
            if ltb 0 last_redpack_id then last_redpack_id else s.globalidx.last_redpack_id;
        last_claim_id = if ltb 0 last_claim_id then last_claim_id else s.globalidx.last_claim_id;
      };
    })
