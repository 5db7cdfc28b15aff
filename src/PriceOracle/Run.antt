-- ===== src/PriceOracle/Run.antt =====
-- price.oracle: histories of calls, and what the rows of prices are.
use toolkit_contracts.Base.{List, Option, Result, Text, [], after, some, ℕ, ◌<◌, ◌∷◌, ◌≡◌}
use toolkit_contracts.Chain.{Chain, Context, IsSorted, Rows, lookup}
use toolkit_contracts.PriceOracle.State.{CoinPrice, CoinPriceInfo, Error, State, as_uint64}
use toolkit_contracts.PriceOracle.Actions.{
  addcoin, addoracle, removecoin, removeoracle, updateprice,
}

pub data Call : Type 0 where
  addoracle_call : ℕ → Call
  removeoracle_call : ℕ → Call
  addcoin_call : ℕ → Call
  removecoin_call : ℕ → Call
  updateprice_call : ℕ → List CoinPriceInfo → Call

-- A coin without a price has no row or, once it was removed and added again, an old one; a coin
-- with a price has one row, with that price.
abbrev pub Single : Option ℕ → Rows CoinPrice → Type 0
Single o [] = (n : ℕ) → o ≡ some n → n ≡ 0
Single o ((k, row) ∷ []) =
    (row.id ≡ k) × ((n : ℕ) → o ≡ some n → 0 < n → as_uint64 row.price.amount ≡ n)
Single o (r ∷ r' ∷ rows) = ⊥

module _ (c : Chain) where
  pub record Inv (s : State c) : Type 0 where
    pub sorted : IsSorted s.global.prices
    pub single : (j : ℕ) → Single (lookup j s.global.prices) (c.entries (s.prices j))

module _ (c : Chain) (to_text : ℕ → Text) where
  unfoldable pub call : Context → Call → State c → Result Error (State c)
  unfolding addoracle removeoracle addcoin removecoin updateprice
  call ctx (addoracle_call o) = addoracle c ctx o
  call ctx (removeoracle_call o) = removeoracle c ctx o
  call ctx (addcoin_call n) = addcoin c ctx n
  call ctx (removecoin_call n) = removecoin c ctx n
  call ctx (updateprice_call o infos) = updateprice c to_text ctx o infos

  unfoldable pub run : List (Context × Call) → State c → State c
  unfolding call
  run [] s = s
  run ((ctx, a) ∷ rest) s = run rest (after s (call ctx a s))
