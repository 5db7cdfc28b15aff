-- ===== src/TestContract/State.antt =====
-- flon.test: the table of messages (include/testcontract.hpp).
use toolkit_contracts.Base.{Text, ℕ}
use toolkit_contracts.Chain.{Chain}

-- `unauthorized` is the abort of `require_auth`, `platform` one inside the libraries.
pub data Error : Type 0 where
  wrong_name record_not_found unauthorized platform : Error

pub record Plan : Type 0 where
  pub id : ℕ
  pub account : ℕ
  pub msg : Text

-- Each account has a table of its own, under its name as the scope.
pub record State (c : Chain) : Type 0 where
  pub plans : ℕ → c.Table Plan

-- The name `testcontract`.
abbrev pub testcontract : ℕ
testcontract = 0xcab1945279b99190
