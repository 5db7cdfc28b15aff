-- ===== src/Applybp/State.antt =====
-- flon.applybp: the tables (include/flon.applybp/flon.applybp.db.hpp).
use toolkit_contracts.Base.{Text, [], ℕ}
use toolkit_contracts.Chain.{Chain}

-- `unauthorized` is the abort of `require_auth`, `platform` one inside the libraries.
pub data Error : Type 0 where
  record_not_found record_existing param_error no_auth : Error
  oversized account_invalid status_error : Error
  unauthorized platform : Error

pub record Global : Type 0 where
  pub admin : ℕ
  pub dao_contract : ℕ

-- The times are in seconds.
pub record Producer : Type 0 where
  pub owner : ℕ
  pub logo_uri : Text
  pub org_name : Text
  pub org_info : Text
  pub dao_code : ℕ
  pub reward_shared_ratio : ℕ
  pub manifesto : Text
  pub issuance_plan : Text
  pub reward_shared_plan : Text
  pub status : ℕ
  pub created_at : ℕ
  pub updated_at : ℕ

pub record State (c : Chain) : Type 0 where
  pub global : Global
  pub producers : c.Table Producer

-- What the three actions that write a profile are given.
pub record Profile : Type 0 where
  pub logo_uri : Text
  pub org_name : Text
  pub org_info : Text
  pub dao_code : ℕ
  pub reward_shared_plan : Text
  pub manifesto : Text
  pub issuance_plan : Text

-- The names `disable` and `enable`.
abbrev pub disable : ℕ
disable = 0x4bb063c540000000

abbrev pub enable : ℕ
enable = 0x54cc78a800000000

abbrev pub max_logo_size : ℕ
max_logo_size = 512

abbrev pub max_title_size : ℕ
max_title_size = 2048

-- `producer_t()`
abbrev pub blank : Producer
blank = record {
  owner = 0;
  logo_uri = [];
  org_name = [];
  org_info = [];
  dao_code = 0;
  reward_shared_ratio = 0;
  manifesto = [];
  issuance_plan = [];
  reward_shared_plan = [];
  status = 0;
  created_at = 0;
  updated_at = 0;
}
