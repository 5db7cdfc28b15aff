-- ===== src/PriceOracle/Actions.antt =====
-- price.oracle: the actions (src/price.oracle.cpp). The text of a name is given, `name::to_string`.
use toolkit_contracts.Base.{
  List, Option, Result, Text, [], check, err, if◌then◌else◌, is_some, length, ltb, ltb_ℤ, not, ok,
  or_abort, pos, split, ℕ, ℤ, ◌%◌, ◌&&◌, ◌+◌, ◌==◌, ◌>>=◌, ◌>>◌, ◌^◌, ◌∷◌,
}
use toolkit_contracts.Chain.{Asset, Chain, Context, emplace, insert, lookup, remove}
use toolkit_contracts.PriceOracle.State.{
  CoinPrice, CoinPriceInfo, Error, State, as_uint64, no_auth, param_error, platform, record_found,
  record_not_found, unauthorized,
}
use toolkit_contracts.Arithmetic.{multiply_decimal64}

-- The limits that a new price has to stay within, where there is an old one.
unfoldable pub check_price : ℕ → ℤ → Result Error (Unit {0})
unfolding multiply_decimal64
check_price old_price amount =
    let limited = do
      upper_limit ← or_abort (multiply_decimal64 (pos old_price) (pos 15) (pos 10)) platform
      lower_limit ← or_abort (multiply_decimal64 (pos old_price) (pos 5) (pos 10)) platform
      check (ltb_ℤ lower_limit amount && ltb_ℤ amount upper_limit) param_error
    in if old_price == 0 then ok tt else limited

module _ (c : Chain) where
  unfoldable pub addoracle : Context → ℕ → State c → Result Error (State c)
  unfolding emplace
  addoracle ctx oracle s = do
    check (ctx.has_auth ctx.self) unauthorized
    check (not (is_some (c.find s.oracles oracle))) no_auth
    oracles ← or_abort (emplace c s.oracles oracle oracle) platform
    ok (record s { oracles = oracles })

  unfoldable pub removeoracle : Context → ℕ → State c → Result Error (State c)
  removeoracle ctx oracle s = do
    check (ctx.has_auth ctx.self) unauthorized
    check (is_some (c.find s.oracles oracle)) record_not_found
    ok (record s { oracles = c.erase s.oracles oracle })

  unfoldable pub addcoin : Context → ℕ → State c → Result Error (State c)
  addcoin ctx coin s = do
    check (ctx.has_auth ctx.self) unauthorized
    check (not (is_some (lookup coin s.global.prices))) record_found
    ok (record s { global = record s.global { prices = insert coin 0 s.global.prices } })

  unfoldable pub removecoin : Context → ℕ → State c → Result Error (State c)
  removecoin ctx coin s = do
    check (ctx.has_auth ctx.self) unauthorized
    check (is_some (lookup coin s.global.prices)) record_not_found
    ok (record s { global = record s.global { prices = remove coin s.global.prices } })

  -- The row of a coin makes place for the new one, whose number is the next.
  unfoldable pub replace_row : (ℕ → CoinPrice) → c.Table CoinPrice → Option (c.Table CoinPrice)
  unfolding emplace
  replace_row row t = elim (c.entries t) [
    | [] ↦ emplace c t 1 (row 1)
    | (k, old) ∷ rows ↦
        emplace c (c.erase t k) ((old.id + 1) % 2 ^ 64) (row ((old.id + 1) % 2 ^ 64))
  ]

  -- `_updateprice`, once the code is split into the coin and its quote.
  unfoldable pub price_coin : Context → ℕ → ℕ → ℕ → Asset → State c → Result Error (State c)
  unfolding check_price replace_row
  price_coin ctx tpcode base_coin quote_coin price s = do
    check (quote_coin == s.global.quote_code) record_not_found
    check (price.symbol == s.global.quote_symbol) record_not_found
    old_price ← or_abort (lookup base_coin s.global.prices) record_not_found
    check_price old_price price.amount
    let row : ℕ → CoinPrice =
        λ id. record { id = id; tpcode = tpcode; price = price; updated_at = ctx.now }
    prices ← or_abort (replace_row row (s.prices base_coin)) platform
    ok (record s {
      global = record s.global {
        prices = insert base_coin (as_uint64 price.amount) s.global.prices;
      };
      prices = λ k. if k == base_coin then prices else s.prices k;
    })

  -- The coin and the quote that a code names.
  unfoldable pub coins_of : List Text → Result Error (ℕ × ℕ)
  coins_of (base ∷ quote ∷ []) = do
    base_coin ← or_abort (c.name_of base) platform
    quote_coin ← or_abort (c.name_of quote) platform
    ok (base_coin, quote_coin)
  coins_of _ = err param_error

  module _ (to_text : ℕ → Text) where
    -- `_updateprice`
    unfoldable pub update_one : Context → CoinPriceInfo → State c → Result Error (State c)
    unfolding coins_of price_coin
    update_one ctx info s = do
      coins ← coins_of (split (to_text info.tpcode) b'.')
      price_coin ctx info.tpcode coins.0 coins.1 info.price s

    unfoldable pub update_all : Context → List CoinPriceInfo → State c → Result Error (State c)
    unfolding update_one
    update_all ctx [] s = ok s
    update_all ctx (info ∷ infos) s = do s' ← update_one ctx info s; update_all ctx infos s'

    unfoldable pub updateprice : Context → ℕ → List CoinPriceInfo → State c → Result Error (State c)
    unfolding update_all
    updateprice ctx oracle infos s = do
      check (ctx.has_auth oracle) unauthorized
      check (is_some (c.find s.oracles oracle)) no_auth
      check (ltb 0 (length infos)) param_error
      update_all ctx infos s
