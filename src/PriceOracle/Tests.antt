-- ===== src/PriceOracle/Tests.antt =====
-- price.oracle: examples of the theorems, and runs of the actions on small tables.
use toolkit_contracts.Base.{
  Bool-cases, List, Text, [], after, arith, err, if◌then◌else◌, inl, inr, ok, pos, refl, some,
  split, ℕ, ◌*◌, ◌+◌, ◌/◌, ◌<◌, ◌==◌, ◌↔◌, ◌∷◌, ◌≡◌,
}
use toolkit_contracts.Chain.{Asset, emplace, lookup}
use toolkit_contracts.PriceOracle.State.{CoinPrice, CoinPriceInfo, State, param_error}
use toolkit_contracts.PriceOracle.Actions.{check_price, price_coin, updateprice}
use toolkit_contracts.PriceOracle.Run.{Inv, run, updateprice_call}
use toolkit_contracts.PriceOracle.Limits.{check_price_lem}
use toolkit_contracts.PriceOracle.Prices.{price_coin_succeeds, prices_agree}
use toolkit_contracts.Chain.Memory.{empty_table, memory, one_row, signed_at}
use toolkit_contracts.Arithmetic.{multiply_decimal64}

abbrev usdt : ℕ → Asset
usdt n = record { amount = pos n; symbol = 4 }

abbrev old_row : CoinPrice
old_row = record { id = 6; tpcode = 30; price = usdt 100; updated_at = 0 }

-- The coin has the price 100, in the row 6.
abbrev start : State memory
start = record {
  global = record {
    prices = (5, 100) ∷ [];
    price_history_count = 10;
    quote_code = 7;
    quote_symbol = 4;
  };
  oracles = one_row 8 8;
  prices = λ k. if k == 5 then one_row 6 old_row else empty_table;
}

-- The names that the memory table reads are the numbers of their bytes: 5 and 7 are one byte each.
abbrev five_seven : ℕ → Text
five_seven n = 5 ∷ b'.' ∷ 7 ∷ []

abbrev report : ℕ → List CoinPriceInfo
report n = record { tpcode = 30; price = usdt n } ∷ []

-- 149 is within the limits, and 150 is not.
updateprice-149 :
    memory.entries
      ((after start (updateprice memory five_seven (signed_at 0) 8 (report 149) start)).prices 5)
    ≡ (7, record { id = 7; tpcode = 30; price = usdt 149; updated_at = 0 }) ∷ []
unfolding updateprice multiply_decimal64 split emplace
updateprice-149 = refl

updateprice-150 : updateprice memory five_seven (signed_at 0) 8 (report 150) start ≡ err param_error
unfolding updateprice multiply_decimal64 split emplace
updateprice-150 = refl

check_price_lem_example :
    (check_price 101 (pos 52) ≡ ok tt)
    ↔ ((n : ℕ) × (pos 52 ≡ pos n) × ((101 + 1) / 2 < n) × (n < (3 * 101 + 1) / 2))
check_price_lem_example = check_price_lem 101 (pos 52) (omega arith) (omega arith)

start-Inv : Inv memory start
start-Inv = record {
  sorted = (tt);
  single = λ j. elim (Bool-cases (j == 5)) [
    | inl same ↦ rw same (refl, λ n e l. ground arith)
    | inr other ↦ rw other (λ n e. ground arith)
  ];
}

check_price-120 : check_price 100 (pos 120) ≡ ok tt
unfolding check_price multiply_decimal64
check_price-120 = refl

price_coin_succeeds_example :
    (s' : State memory) × (price_coin memory
        (signed_at 0)
        30
        5
        start.global.quote_code
        (usdt 120)
        start
      ≡ ok s')
    × (lookup 5 s'.global.prices ≡ some 120)
    × ((r : ℕ × CoinPrice) × (memory.entries (s'.prices 5) ≡ r ∷ []) × (r.1.price ≡ usdt 120))
price_coin_succeeds_example =
    price_coin_succeeds memory start start-Inv (signed_at 0) 30 5 (usdt 120) 100 refl refl
      check_price-120

prices_agree_example :
    Inv memory (run memory five_seven ((signed_at 0, updateprice_call 8 (report 149)) ∷ []) start)
prices_agree_example =
    prices_agree memory five_seven ((signed_at 0, updateprice_call 8 (report 149)) ∷ []) start
      start-Inv
