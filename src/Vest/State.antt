-- ===== src/Vest/State.antt =====
-- flon.vest: the tables (vestdb.hpp).
use toolkit_contracts.Base.{Bool, List, Text, false, if◌then◌else◌, true, ℕ, ◌==◌, ◌∷◌}
use toolkit_contracts.Chain.{Asset, Chain, Transfer}

-- What a failed `CHECK` reports, one for each kind of message; `unauthorized` is a failed
-- `require_auth`, and `platform` an abort inside the chain's library.
pub data Error : Type 0 where
  unauthorized account_invalid title_too_long invalid_symbol invalid_interval invalid_times : Error
  fee_receiver_not_set plan_not_found owner_mismatch plan_fees_unpaid status_unchanged : Error
  not_positive memo_format wrong_bank symbol_mismatch fee_mismatch account_missing no_plan : Error
  plan_id_zero plan_fees_paid plan_not_enabled invalid_first_days contract_mismatch : Error
  same_receiver issue_not_found issue_abnormal receiver_mismatch insufficient_locked : Error
  insufficient_issued plan_id_mismatch issue_finished issuer_mismatch too_early : Error
  premature arithmetic issue_not_finished invalid_quantity platform : Error

pub data PlanStatus : Type 0 where
  pending enabled disabled : PlanStatus

-- The code never sets the status TERMINATED.
pub data IssueStatus : Type 0 where
  ongoing terminated finished : IssueStatus

pub record Global : Type 0 where
  pub admin : ℕ
  pub fee_receiver : ℕ
  pub plan_fee : Asset

pub record Plan : Type 0 where
  pub id : ℕ
  pub owner : ℕ
  pub title : Text
  pub asset_contract : ℕ
  pub asset_symbol : ℕ
  pub unlock_interval_days : ℕ
  pub unlock_times : ℕ
  pub total_issued : Asset
  pub total_unlocked : Asset
  pub total_refunded : Asset
  pub status : PlanStatus
  pub created_at : ℕ
  pub updated_at : ℕ

-- A row of `vestissues`, without its memo.
pub record Issue : Type 0 where
  pub issue_id : ℕ
  pub plan_id : ℕ
  pub issuer : ℕ
  pub receiver : ℕ
  pub issued : Asset
  pub locked : Asset
  pub unlocked : Asset
  pub first_unlock_days : ℕ
  pub unlock_interval_days : ℕ
  pub unlock_times : ℕ
  pub status : IssueStatus
  pub issued_at : ℕ
  pub updated_at : ℕ

pub record Account : Type 0 where
  pub owner : ℕ
  pub last_plan_id : ℕ

-- The tables, and the transfers that the actions have sent, the last one first.
pub record State (c : Chain) : Type 0 where
  pub global : Global
  pub plans : c.Table Plan
  pub issues : c.Table Issue
  pub accounts : c.Table Account
  pub sent : List Transfer

abbrev pub max_lock_days : ℕ
max_lock_days = 3650

abbrev pub max_title_size : ℕ
max_title_size = 64

abbrev pub is_pending : PlanStatus → Bool
is_pending pending = true
is_pending enabled = false
is_pending disabled = false

abbrev pub is_enabled : PlanStatus → Bool
is_enabled pending = false
is_enabled enabled = true
is_enabled disabled = false

abbrev pub is_ongoing : IssueStatus → Bool
is_ongoing ongoing = true
is_ongoing terminated = false
is_ongoing finished = false

abbrev pub is_finished : IssueStatus → Bool
is_finished ongoing = false
is_finished terminated = false
is_finished finished = true

abbrev pub transfer_out : (c : Chain) → State c → Transfer → State c
transfer_out c s t = record s { sent = t ∷ s.sent }

-- A fresh primary key; the contract starts at 1.
abbrev pub fresh_key : {A : Type 0} (c : Chain) → c.Table A → ℕ
fresh_key c t = if c.available_primary_key t == 0 then 1 else c.available_primary_key t
