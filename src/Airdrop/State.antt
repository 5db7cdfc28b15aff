-- ===== src/Airdrop/State.antt =====
-- flon.airdrop: the tables (flon.airdrop.db.hpp) and the lookups of flon.airdrop.cpp.
use toolkit_contracts.Base.{
  Bool, List, Option, Text, [], false, if◌then◌else◌, none, not, some, true, ℕ, ◌&&◌, ◌/◌, ◌==◌,
  ◌||◌, ◌∷◌,
}
use toolkit_contracts.Chain.{Asset, Chain, Context, Rows, Transfer}

-- The codes of `err` that the contract raises; `unauthorized` is a failed `require_auth`, and
-- `platform` an abort inside the chain's library.
pub data Error : Type 0 where
  type_invalid insufficient_quantity not_positive expired record_no_found account_invalid : Error
  valid_time_invalid did_not_auth status_mismatch already_exists invalid_format : Error
  unauthorized platform : Error

pub record Global : Type 0 where
  pub admin : ℕ
  pub oracles : List ℕ
  pub last_plan_id : ℕ
  pub last_token_id : ℕ

-- An entry of a plan's map from extended symbols to what is paid of them.
pub record ClaimConf : Type 0 where
  pub symbol : ℕ
  pub contract : ℕ
  pub single_claim : Asset
  pub available : Asset

pub record Plan : Type 0 where
  pub id : ℕ
  pub title : Text
  pub plan_started_at : ℕ
  pub plan_ended_at : ℕ
  pub claims : List ClaimConf
  pub claimed_cnt : ℕ
  pub created_at : ℕ
  pub updated_at : ℕ

pub record Token : Type 0 where
  pub id : ℕ
  pub token_bank : ℕ
  pub sym : ℕ
  pub created_at : ℕ
  pub updated_at : ℕ

-- The tables, and the transfers that the actions have sent, the last one first.
pub record State (c : Chain) : Type 0 where
  pub global : Global
  pub plans : c.Table Plan
  pub tokens : c.Table Token
  pub sent : List Transfer

-- `is_oracle`, on the set of the oracles.
unfoldable pub is_oracle : List ℕ → ℕ → Bool
is_oracle [] n = false
is_oracle (o ∷ oracles) n = o == n || is_oracle oracles n

unfoldable pub remove_oracle : ℕ → List ℕ → List ℕ
remove_oracle n [] = []
remove_oracle n (o ∷ oracles) =
    let rest = remove_oracle n oracles in if o == n then rest else o ∷ rest

-- The index `bybankcode`: the row of a token contract and a symbol's code, without its precision.
unfoldable pub find_token : ℕ → ℕ → Rows Token → Option (ℕ × Token)
find_token bank raw [] = none
find_token bank raw ((k, t) ∷ rows) =
    let rest = find_token bank raw rows in
    if t.token_bank == bank && t.sym / 256 == raw / 256 then some (k, t) else rest

-- `claims[symb] = …`
unfoldable pub set_conf : ClaimConf → List ClaimConf → List ClaimConf
set_conf e [] = e ∷ []
set_conf e (x ∷ es) =
    let rest = set_conf e es in
    if x.symbol == e.symbol && x.contract == e.contract then e ∷ es else x ∷ rest

-- `claims.erase(symb)`
unfoldable pub erase_conf : ℕ → ℕ → List ClaimConf → List ClaimConf
erase_conf raw contract [] = []
erase_conf raw contract (x ∷ es) =
    let rest = erase_conf raw contract es in
    if x.symbol == raw && x.contract == contract then es else x ∷ rest

module _ (ctx : Context) where
  -- `n.value && is_account(n)`
  abbrev pub known_account : ℕ → Bool
  known_account n = not (n == 0) && ctx.is_account n

  abbrev pub all_known : List ℕ → Bool
  all_known [] = true
  all_known (n ∷ ns) = known_account n && all_known ns

-- A `std::optional` argument that replaces a value where it is given.
abbrev pub value_or : {A : Type 0} → A → Option A → A
value_or a none = a
value_or a (some b) = b
