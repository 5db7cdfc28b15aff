-- ===== src/PriceOracle/Prices.antt =====
-- price.oracle: the rows of prices that a history leaves.
use toolkit_contracts.Base.{
  ==_iff, Bool-cases, List, OnOk, OnOk-bind, Option, Option-cases, Result-cases, Text, [], after,
  after_holds, arith, false, if◌then◌else◌, inl, inr, none, ok, refl, some, split, true, ℕ, ◌%◌,
  ◌+◌, ◌<◌, ◌==◌, ◌^◌, ◌∷◌, ◌≡◌, ◌⊎◌,
}
use toolkit_contracts.Chain.{
  Asset, Chain, Context, IsSorted-insert, IsSorted-remove, Rows, emplace, emplace-free, insert,
  lookup, lookup-insert, lookup-remove, remove,
}
use toolkit_contracts.PriceOracle.State.{CoinPrice, CoinPriceInfo, State, as_uint64}
use toolkit_contracts.PriceOracle.Actions.{
  addcoin, addoracle, check_price, coins_of, price_coin, removecoin, removeoracle, replace_row,
  update_all, update_one, updateprice,
}
use toolkit_contracts.PriceOracle.Run.{
  Call, Inv, Single, addcoin_call, addoracle_call, call, removecoin_call, removeoracle_call, run,
  updateprice_call,
}

rows_cases :
    (o : Option ℕ) (m : Rows CoinPrice)
    → Single o m
    → (m ≡ []) ⊎ ((r : ℕ × CoinPrice) × (m ≡ r ∷ []))
rows_cases o [] h = inl refl
rows_cases o ((k, row) ∷ []) h = inr ((k, row), refl)
rows_cases o (r ∷ r' ∷ rows) h = absurd h

Single-weaken :
    (o o' : Option ℕ) (m : Rows CoinPrice)
    → ((n : ℕ) → o' ≡ some n → 0 < n → o ≡ some n)
    → Single o m
    → Single o' m
Single-weaken o o' [] f h = λ n e. elim (Bool-cases (n == 0)) [
  | inl zero_price ↦ (==_iff n 0).0 zero_price
  | inr price ↦ h n (f n e (ground arith))
]
Single-weaken o o' ((k, row) ∷ []) f h = (h.0, λ n e l. h.1 n (f n e l) l)
Single-weaken o o' (r ∷ r' ∷ rows) f h = h

module _ (c : Chain) where
  replace_row-Single :
      (row : ℕ → CoinPrice) (o : Option ℕ) (t : c.Table CoinPrice)
      → Single o (c.entries t)
      → (t' : c.Table CoinPrice) × (id : ℕ) × (replace_row c row t ≡ some t')
        × (c.entries t' ≡ (id, row id) ∷ [])
  unfolding replace_row
  replace_row-Single row o t h = elim (rows_cases o (c.entries t) h) [
    | inl e ↦
        let free : c.find t 1 ≡ none = rw (c.find-entries t 1, e) refl in
        (
          c.put t 1 (row 1),
          1,
          rw (e, replace_row, emplace-free c t 1 (row 1) free) refl,
          rw (c.entries-put t 1 (row 1), e) refl,
        )
    | inr ((k, old), e) ↦
        let id : ℕ = (old.id + 1) % 2 ^ 64 in
        let t' = c.erase t k in
        let gone : c.entries t' ≡ [] = rw (c.entries-erase t k, e) (ground arith) in
        let free : c.find t' id ≡ none = rw (c.find-entries t' id, gone) refl in
        (
          c.put t' id (row id),
          id,
          rw (e, replace_row, emplace-free c t' id (row id) free) refl,
          rw (c.entries-put t' id (row id), gone) refl,
        )
  ]

  module _ (s : State c) (i : Inv c s) where
    priced-Inv :
        (base : ℕ) (row : ℕ → CoinPrice) (t' : c.Table CoinPrice) (id : ℕ)
        → ((k : ℕ) → (row k).id ≡ k)
        → c.entries t' ≡ (id, row id) ∷ []
        → Inv c (record s {
          global = record s.global {
            prices = insert base (as_uint64 (row id).price.amount) s.global.prices;
          };
          prices = λ k. if k == base then t' else s.prices k;
        })
    priced-Inv base row t' id r e = record {
      sorted = IsSorted-insert base (as_uint64 (row id).price.amount) s.global.prices i.sorted;
      single = λ j.
          rw (lookup-insert base (as_uint64 (row id).price.amount) j s.global.prices)
            (elim (Bool-cases (j == base)) [
              | inl same ↦
                  let e' : j ≡ base = (==_iff j base).0 same in
                  let same' : base == j ≡ true = ground arith in
                  rw (same, same', e) (r id, λ n h l. ground arith)
              | inr other ↦
                  let other' : base == j ≡ false = ground arith in rw (other, other') (i.single j)
            ]);
    }

    price_coin-Inv :
        (ctx : Context) (tpcode base quote : ℕ) (price : Asset)
        → OnOk (Inv c) (price_coin c ctx tpcode base quote price s)
    unfolding price_coin
    price_coin-Inv ctx tpcode base quote price =
        let row : ℕ → CoinPrice =
          λ id. record { id = id; tpcode = tpcode; price = price; updated_at = ctx.now } in
        let o = lookup base s.global.prices in
        let (t', id, f, e) = replace_row-Single row o (s.prices base) (i.single base) in
        let done = priced-Inv base row t' id (λ k. refl) e in
        elim (Option-cases o) [
          | inl unknown ↦ ground (arith, unknown)
          | inr (old, fo) ↦ elim (Result-cases (check_price old price.amount)) [
            | inr (x, fx) ↦ ground (arith, fo, fx)
            | inl (u, fu) ↦ ground (arith, fo, fu, f, done)
          ]
        ]

    -- Where the quote and the symbol are those of the contract, the coin is known and the price is
    -- within the limits, the price is taken: no row is in its way.
    pub price_coin_succeeds :
        (ctx : Context) (tpcode base : ℕ) (price : Asset) (old : ℕ)
        → price.symbol ≡ s.global.quote_symbol
        → lookup base s.global.prices ≡ some old
        → check_price old price.amount ≡ ok tt
        → (s' : State c) × (price_coin c ctx tpcode base s.global.quote_code price s ≡ ok s')
          × (lookup base s'.global.prices ≡ some (as_uint64 price.amount))
          × ((r : ℕ × CoinPrice) × (c.entries (s'.prices base) ≡ r ∷ []) × (r.1.price ≡ price))
    unfolding price_coin
    price_coin_succeeds ctx tpcode base price old sym_ok fo fu =
        let row : ℕ → CoinPrice =
          λ id. record { id = id; tpcode = tpcode; price = price; updated_at = ctx.now } in
        let o = lookup base s.global.prices in
        let (t', id, f, e) = replace_row-Single row o (s.prices base) (i.single base) in
        let s' : State c = record s {
          global = record s.global {
            prices = insert base (as_uint64 price.amount) s.global.prices;
          };
          prices = λ k. if k == base then t' else s.prices k;
        } in
        (
          s',
          ground (arith, fo, fu, f),
          ground (arith, lookup-insert base (as_uint64 price.amount) base s.global.prices),
          ((id, row id), ground (arith, e), refl),
        )

    addcoin-Inv : (ctx : Context) (coin : ℕ) → OnOk (Inv c) (addcoin c ctx coin s)
    unfolding addcoin
    addcoin-Inv ctx coin =
        let done : Inv c
            (record s { global = record s.global { prices = insert coin 0 s.global.prices } }) =
          record {
            sorted = IsSorted-insert coin 0 s.global.prices i.sorted;
            single = λ j.
                Single-weaken (lookup j s.global.prices) (lookup j (insert coin 0 s.global.prices))
                  (c.entries (s.prices j))
                  (λ n e l. ground (arith, lookup-insert coin 0 j s.global.prices)) (i.single j);
          } in
        ground (arith, done)

    removecoin-Inv : (ctx : Context) (coin : ℕ) → OnOk (Inv c) (removecoin c ctx coin s)
    unfolding removecoin
    removecoin-Inv ctx coin =
        let done : Inv c
            (record s { global = record s.global { prices = remove coin s.global.prices } }) =
          record {
            sorted = IsSorted-remove coin s.global.prices i.sorted;
            single = λ j.
                Single-weaken (lookup j s.global.prices) (lookup j (remove coin s.global.prices))
                  (c.entries (s.prices j))
                  (λ n e l. ground (arith, lookup-remove coin j s.global.prices i.sorted))
                  (i.single j);
          } in
        ground (arith, done)

module _ (c : Chain) (to_text : ℕ → Text) where
  update_one-Inv :
      (ctx : Context) (info : CoinPriceInfo) (s : State c)
      → Inv c s
      → OnOk (Inv c) (update_one c to_text ctx info s)
  unfolding update_one
  update_one-Inv ctx info s i =
      elim (Result-cases (coins_of c (split (to_text info.tpcode) b'.'))) [
        | inr (x, fx) ↦ ground (arith, fx)
        | inl (coins, fc) ↦
            ground (arith, fc, price_coin-Inv c s i ctx info.tpcode coins.0 coins.1 info.price)
      ]

  update_all-Inv :
      (ctx : Context) (infos : List CoinPriceInfo) (s : State c)
      → Inv c s
      → OnOk (Inv c) (update_all c to_text ctx infos s)
  unfolding update_all
  update_all-Inv ctx [] s i = i
  update_all-Inv ctx (info ∷ infos) s i =
      OnOk-bind (Inv c) (Inv c) (update_one c to_text ctx info s) (update_all c to_text ctx infos)
        (update_one-Inv ctx info s i) (update_all-Inv ctx infos)

  call-Inv :
      (ctx : Context) (a : Call) (s : State c) → Inv c s → OnOk (Inv c) (call c to_text ctx a s)
  unfolding call addoracle removeoracle updateprice
  call-Inv ctx (addoracle_call o) s i = elim (Option-cases (emplace c s.oracles o o)) [
    | inl taken ↦ ground (arith, taken)
    | inr (t, f) ↦
        let done : Inv c (record s { oracles = t }) = record {
          sorted = i.sorted;
          single = i.single;
        } in
        ground (arith, f, done)
  ]
  call-Inv ctx (removeoracle_call o) s i =
      let done : Inv c (record s { oracles = c.erase s.oracles o }) = record {
        sorted = i.sorted;
        single = i.single;
      } in
      ground (arith, done)
  call-Inv ctx (addcoin_call n) s i = addcoin-Inv c s i ctx n
  call-Inv ctx (removecoin_call n) s i = removecoin-Inv c s i ctx n
  call-Inv ctx (updateprice_call o infos) s i = ground (arith, update_all-Inv ctx infos s i)

  -- In every history of calls, from a state where this holds: a coin has one row of prices or none,
  -- and a coin that has a price has one row, with the price that the contract checks the next one
  -- against.
  pub prices_agree :
      (calls : List (Context × Call)) (s : State c) → Inv c s → Inv c (run c to_text calls s)
  unfolding run
  prices_agree [] s i = i
  prices_agree ((ctx, a) ∷ rest) s i =
      prices_agree rest (after s (call c to_text ctx a s))
        (after_holds (Inv c) s (call c to_text ctx a s) i (call-Inv ctx a s i))
