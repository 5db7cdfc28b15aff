-- ===== src/Chain/Defs.antt =====
-- The interface: multi-index tables, assets, account names, and the context of an action.
use toolkit_contracts.Base.{
  Bool, Option, Text, if◌then◌else◌, is_some, leb_ℤ, negsuc, none, pos, some, ℕ, ℤ, ◌&&◌, ◌*ℤ◌,
  ◌+ℤ◌, ◌-ℤ◌, ◌/ℤ◌, ◌/◌, ◌%◌, ◌^◌, ◌==◌, ◌≡◌,
}
use toolkit_contracts.Chain.RowList.{IsSorted, Rows, insert, lookup, remove}

-- An amount of a token; the symbol is its raw number, the precision in the lowest byte and the
-- code above it.
pub record Asset : Type 0 where
  pub amount : ℤ
  pub symbol : ℕ

-- `asset::max_amount` is 2^62 - 1.
abbrev pub is_amount_within_range : ℤ → Bool
is_amount_within_range n = leb_ℤ n (pos 4611686018427387903) && leb_ℤ (negsuc 4611686018427387902) n

-- An operation of the library answers `none` where it aborts the action.
pub record Chain : Type 1 where
  -- Multi-index tables with 64-bit primary keys.
  pub Table : Type 0 → Type 0
  pub entries : {A : Type 0} → Table A → Rows A
  pub find : {A : Type 0} → Table A → ℕ → Option A
  pub put : {A : Type 0} → Table A → ℕ → A → Table A
  pub erase : {A : Type 0} → Table A → ℕ → Table A
  pub available_primary_key : {A : Type 0} → Table A → ℕ
  pub entries-IsSorted : {A : Type 0} (t : Table A) → IsSorted (entries t)
  pub find-entries : {A : Type 0} (t : Table A) (k : ℕ) → find t k ≡ lookup k (entries t)
  pub entries-put :
      {A : Type 0} (t : Table A) (k : ℕ) (v : A) → entries (put t k v) ≡ insert k v (entries t)
  pub entries-erase :
      {A : Type 0} (t : Table A) (k : ℕ) → entries (erase t k) ≡ remove k (entries t)
  -- Asset arithmetic, which checks symbols and range.
  pub symbol_is_valid : ℕ → Bool
  pub make_asset : ℤ → ℕ → Option Asset
  pub add_asset : Asset → Asset → Option Asset
  pub sub_asset : Asset → Asset → Option Asset
  pub make_asset_lem :
      (n : ℤ) (s : ℕ)
      → make_asset n s ≡ (
          if is_amount_within_range n && symbol_is_valid s
          then some (record { amount = n; symbol = s })
          else none)
  pub add_asset_lem :
      (a b : Asset)
      → add_asset a b ≡ (
          if a.symbol == b.symbol && is_amount_within_range (a.amount +ℤ b.amount)
          then some (record a { amount = a.amount +ℤ b.amount })
          else none)
  pub sub_asset_lem :
      (a b : Asset)
      → sub_asset a b ≡ (
          if a.symbol == b.symbol && is_amount_within_range (a.amount -ℤ b.amount)
          then some (record a { amount = a.amount -ℤ b.amount })
          else none)
  -- An asset divided by a count, and a count times an asset.
  pub div_asset : Asset → ℕ → Option Asset
  pub mul_asset : ℕ → Asset → Option Asset
  pub div_asset_lem :
      (a : Asset) (n : ℕ)
      → div_asset a n ≡ (if n == 0 then none else some (record a { amount = a.amount /ℤ pos n }))
  pub mul_asset_lem :
      (n : ℕ) (a : Asset)
      → mul_asset n a ≡ (
          if is_amount_within_range (pos n *ℤ a.amount)
          then some (record a { amount = pos n *ℤ a.amount })
          else none)
  -- `name(text)`: an account name as its number, with `none` for a text that is no name.
  pub name_of : Text → Option ℕ

-- What an action is told: the contract's own account, the contract that sent the notification,
-- the time in microseconds, who has signed, and which accounts exist.
pub record Context : Type 0 where
  pub self : ℕ
  pub first_receiver : ℕ
  pub now : ℕ
  pub has_auth : ℕ → Bool
  pub is_account : ℕ → Bool

-- An inline `transfer` that the action sends. Its memo is left out.
pub record Transfer : Type 0 where
  pub bank : ℕ
  pub to : ℕ
  pub quantity : Asset

-- `emplace`, which aborts where the key is taken.
unfoldable pub emplace : {A : Type 0} (c : Chain) → c.Table A → ℕ → A → Option (c.Table A)
emplace c t k v = if is_some (c.find t k) then none else some (c.put t k v)

-- A time in the seconds of the epoch, which are 32 bits wide; times are in microseconds.
abbrev pub seconds : ℕ → ℕ
seconds t = t / 1000000 % 2 ^ 32
