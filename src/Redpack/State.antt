-- ===== src/Redpack/State.antt =====
-- flon.redpack: the tables (redpackdb.hpp) and the lookups by a secondary index.
use toolkit_contracts.Base.{
  Bool, List, Option, Text, [], false, if◌then◌else◌, none, some, true, ℕ, ◌&&◌, ◌==◌, ◌||◌, ◌∷◌,
}
use toolkit_contracts.Chain.{Asset, Chain, Rows, Transfer}

-- The codes of `err` that the contract raises; `unauthorized` is a failed `require_auth`, and
-- `platform` an abort inside the libraries.
pub data Error : Type 0 where
  invalid_format type_invalid insufficient_quantity not_positive symbol_mismatch expired : Error
  pwhash_invalid record_no_found not_repeat_receive not_expired account_invalid : Error
  fee_not_positive valid_time_invalid redpack_exist did_not_auth under_maintenance : Error
  none_deleted amount_too_large fee_not_required did_not_supported did_pack_symbol_err : Error
  unauthorized platform : Error

pub data AssignType : Type 0 where
  random mean : AssignType

pub data Status : Type 0 where
  created servicing finished : Status

pub record Global : Type 0 where
  pub admin : ℕ
  pub claim_admin : ℕ
  pub did_contract : ℕ
  pub dids : List ℕ
  pub redpack_expiry_hours : ℕ
  pub unwrap_unit_fee : Asset
  pub unwrap_fee_required : Bool

pub record GlobalIdx : Type 0 where
  pub last_redpack_id : ℕ
  pub last_claim_id : ℕ

-- A row of `redpacks`, without `fee`, which no action reads or sets.
pub record Redpack : Type 0 where
  pub redpack_id : ℕ
  pub code : ℕ
  pub assign_type : AssignType
  pub creator : ℕ
  pub did_required : Bool
  pub unwrapped_by_admin : Bool
  pub cover_code : ℕ
  pub passwd_hash : Text
  pub token_contract : ℕ
  pub total_quant : Asset
  pub total_count : ℕ
  pub remaining_quant : Asset
  pub remaining_count : ℕ
  pub status : Status
  pub created_at : ℕ
  pub updated_at : ℕ

pub record Claim : Type 0 where
  pub id : ℕ
  pub redpack_id : ℕ
  pub redpack_code : ℕ
  pub redpack_creator : ℕ
  pub claimer : ℕ
  pub quantity : Asset
  pub claimed_at : ℕ

pub record Token : Type 0 where
  pub id : ℕ
  pub token_contract : ℕ
  pub token_symbol : ℕ

-- The tables, and the transfers that the actions have sent, the last one first.
pub record State (c : Chain) : Type 0 where
  pub global : Global
  pub globalidx : GlobalIdx
  pub redpacks : c.Table Redpack
  pub claims : c.Table Claim
  pub tokens : c.Table Token
  pub sent : List Transfer

abbrev pub is_servicing : Status → Bool
is_servicing created = false
is_servicing servicing = true
is_servicing finished = false

abbrev pub is_finished : Status → Bool
is_finished created = false
is_finished servicing = false
is_finished finished = true

abbrev pub is_created : Status → Bool
is_created created = true
is_created servicing = false
is_created finished = false

-- The index `by.consymb`: the row of a token contract and a symbol.
unfoldable pub find_token : ℕ → ℕ → Rows Token → Option Token
find_token contract raw [] = none
find_token contract raw ((k, t) ∷ rows) =
    if t.token_contract == contract && t.token_symbol == raw
    then some t
    else find_token contract raw rows

-- The index `by.unionid`: whether a claimer has a claim under a code.
unfoldable pub has_claim : ℕ → ℕ → Rows Claim → Bool
has_claim claimer code [] = false
has_claim claimer code ((k, r) ∷ rows) =
    r.claimer == claimer && r.redpack_code == code || has_claim claimer code rows
