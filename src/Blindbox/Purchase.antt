-- ===== src/Blindbox/Purchase.antt =====
-- flon.blindbox: what a purchase pays, and what it hands out.
use toolkit_contracts.Base.{
  ==_iff, Bool-cases, List, OnOk, OnOk_apply, Option-cases, Result-cases, [], arith, inl, inr,
  int_laws, length, ltb_ℤ, neg_part, negsuc, none, ok, parts_of_eq, pos, pos-+ℤ, pos_part, refl,
  some, true, ℕ, ℤ, ◌*ℤ◌, ◌+ℤ◌, ◌+◌, ◌-ℤ◌, ◌/ℤ◌, ◌<◌, ◌==◌, ◌^◌, ◌∷◌, ◌≡◌,
}
use toolkit_contracts.Chain.{
  Asset, Chain, Context, IsSorted, IsSorted-insert, Rows, add_asset-eq-some, find-put, insert,
  lookup, seconds, sub_asset-eq-some, tally, tally-insert, tally-insert_new, tally-remove,
}
use toolkit_contracts.Blindbox.State.{Booth, NAsset, Nfts, State}
use toolkit_contracts.Blindbox.Stock.{add_bought, buy_loop, id_of, one_nft, pick, rand, values}
use toolkit_contracts.Blindbox.Actions.{buy_nfts, pay_out, trace_all}

abbrev pub sold : List NAsset → ℕ
sold [] = 0
sold (nft ∷ nfts) = pos_part nft.amount + sold nfts

sold-values : (m : Rows NAsset) → sold (values m) ≡ tally (λ a. pos_part a.amount) m
sold-values [] = refl
sold-values ((k, a) ∷ m) = omega (arith, sold-values m)

-- The amounts of what has been drawn so far are counts.
abbrev Fair : Rows NAsset → Type 0
Fair m = IsSorted m × (tally (λ a. neg_part a.amount) m ≡ 0)

plus_one :
    (a : ℤ)
    → neg_part a ≡ 0
    → (pos_part (a +ℤ pos 1) ≡ pos_part a + 1) × (neg_part (a +ℤ pos 1) ≡ 0)
plus_one (pos n) h = rw (pos-+ℤ n 1) (refl, refl)
plus_one (negsuc n) h = ground arith

add_bought-Fair :
    (symbol : ℕ) (m m' : Rows NAsset)
    → Fair m
    → add_bought symbol m ≡ some m'
    → Fair m' × (sold (values m') ≡ sold (values m) + 1)
unfolding add_bought
add_bought-Fair symbol m m' f h = elim (Option-cases (lookup (id_of symbol) m)) [
  | inl new ↦
      let nft : NAsset = record { amount = pos 1; symbol = symbol } in
      let k = id_of symbol in
      let e : some m' ≡ some (insert k nft m) = ground (arith, new) in
      let e' : m' ≡ insert k nft m = ground (arith, e) in
      let after_it : Fair (insert k nft m)
          × (sold (values (insert k nft m)) ≡ sold (values m) + 1) =
        (
          (
            IsSorted-insert k nft m f.0,
            omega (arith, tally-insert_new (λ a. neg_part a.amount) k nft m new, f.1),
          ),
          omega (
            arith,
            tally-insert_new (λ a. pos_part a.amount) k nft m new,
            sold-values m,
            sold-values (insert k nft m),
          ),
        ) in
      rw e' after_it
  | inr (nft, old) ↦
      let more : NAsset = record nft { amount = nft.amount +ℤ pos 1 } in
      let k = id_of symbol in
      let e : some m' ≡ some (insert k more m) = ground (arith, old) in
      let e' : m' ≡ insert k more m = ground (arith, e) in
      let none_below : neg_part nft.amount ≡ 0 =
        omega (arith, tally-remove (λ a. neg_part a.amount) k nft m old, f.1) in
      let one = plus_one nft.amount none_below in
      let after_it : Fair (insert k more m)
          × (sold (values (insert k more m)) ≡ sold (values m) + 1) =
        (
          (
            IsSorted-insert k more m f.0,
            omega (arith, tally-insert (λ a. neg_part a.amount) k more nft m f.0 old, one.1, f.1),
          ),
          omega (
            arith,
            tally-insert (λ a. pos_part a.amount) k more nft m f.0 old,
            one.0,
            sold-values m,
            sold-values (insert k more m),
          ),
        ) in
      rw e' after_it
]

rand_nothing : (hashes : List ℕ) → rand 0 hashes ≡ none
unfolding rand
rand_nothing [] = refl
rand_nothing (r ∷ hashes) = refl

one_nft_takes :
    (hashes : List ℕ) (b : Booth) (m : Nfts) {r : ℕ × Booth × Nfts}
    → b.nft_num < 2 ^ 64
    → one_nft hashes b m ≡ ok r
    → (r.1.nft_num + 1 ≡ b.nft_num) × (r.1.fund_recd ≡ b.fund_recd)
unfolding one_nft
one_nft_takes hashes b m l h = elim (Option-cases (rand b.nft_num hashes)) [
  | inl trap ↦ ground arith
  | inr (i, fi) ↦ elim (Option-cases (pick i 0 m)) [
    | inl trap ↦ ground arith
    | inr (e, fe) ↦ elim (Bool-cases (b.nft_num == 0)) [
      | inl empty ↦
          let no_num : b.nft_num ≡ 0 = (==_iff b.nft_num 0).0 empty in
          let some_num : rand 0 hashes ≡ some i = rw no_num at fi in
          let never = rand_nothing hashes in cc
      | inr left ↦ ground (arith, fi, fe, h)
    ]
  ]
]

-- What the loop of a purchase hands out and takes from the booth's number.
abbrev Sells : Booth → Rows NAsset → List (List ℕ) → Booth × Nfts × Rows NAsset → Type 0
Sells b bought draws r =
    Fair r.2
    × (sold (values r.2) ≡ sold (values bought) + length draws)
    × (r.0.nft_num + length draws ≡ b.nft_num)
    × (r.0.fund_recd ≡ b.fund_recd)

buy_loop-Sells :
    (draws : List (List ℕ)) (b : Booth) (m : Nfts) (bought : Rows NAsset)
    → Fair bought
    → b.nft_num < 2 ^ 64
    → OnOk (Sells b bought draws) (buy_loop draws b m bought)
unfolding buy_loop
buy_loop-Sells [] b m bought f l = (f, omega arith, omega arith, refl)
buy_loop-Sells (hashes ∷ draws) b m bought f l = elim (Result-cases (one_nft hashes b m)) [
  | inr (x, fx) ↦ ground (arith, fx)
  | inl (one, f1) ↦ elim (Option-cases (add_bought one.0 bought)) [
    | inl clash ↦ ground (arith, f1)
    | inr (bought', fb) ↦
        let n = add_bought-Fair one.0 bought bought' f fb in
        let num = one_nft_takes hashes b m l f1 in
        ground (arith, f1, fb, n, num, buy_loop-Sells draws one.1 one.2 bought' n.0)
  ]
]

positive_count : (z : ℤ) → ltb_ℤ (pos 0) z ≡ true → (pos (pos_part z) ≡ z) × (0 < pos_part z)
positive_count (pos n) h = (refl, ground arith)
positive_count (negsuc n) h = ground arith

whole_lem : (q p l : ℤ) → l ≡ q -ℤ p → p +ℤ l ≡ q
whole_lem q p l h = omega (int_laws, parts_of_eq h)

module _ (c : Chain) where
  -- What a purchase of some booth `b` comes to.
  pub record Bought (ctx : Context) (from k : ℕ) (quantity : Asset) (s : State c) (b : Booth)
      (s' : State c) : Type 0 where
    pub count : ℕ
    pub paid : Asset
    pub left : Asset
    pub nfts : List NAsset
    pub booth : Booth
    pub count_lem : pos count ≡ quantity.amount /ℤ b.price.amount
    pub positive : 0 < count
    pub price : paid.amount ≡ pos count *ℤ b.price.amount
    pub whole : paid.amount +ℤ left.amount ≡ quantity.amount
    pub payments : s'.sent ≡ pay_out c from s.global.fund_distributor b paid left s.sent
    pub handed_out :
        s'.sent_nfts ≡ record { bank = b.nft_contract; to = from; assets = nfts } ∷ s.sent_nfts
    pub sold_count : sold nfts ≡ count
    pub booth_lem : c.find s'.booths k ≡ some booth
    pub one_less : booth.nft_num + count ≡ b.nft_num
    pub received : booth.fund_recd.amount ≡ b.fund_recd.amount +ℤ paid.amount

  -- A purchase that succeeds, of a booth with fewer than 2^64 NFTs, buys a positive whole number of
  -- NFTs at the price of the booth. What it pays and what it gives back make up what was sent; the
  -- price goes to the fund distributor with the memo of the booth's plan, and the rest to the
  -- buyer. As many NFTs as were paid for are sent to the buyer in one transfer, and the booth's
  -- number of NFTs falls and its receipts grow by just that.
  pub buy_nfts-Bought :
      (ctx : Context) (draws : List (List ℕ)) (from k : ℕ) (q : Asset) (s : State c) (b : Booth)
      → c.find s.booths k ≡ some b
      → b.nft_num < 2 ^ 64
      → OnOk (Bought ctx from k q s b) (buy_nfts c ctx draws from k q s)
  unfolding buy_nfts
  buy_nfts-Bought ctx draws from k q s b fb l =
      let count = pos_part (q.amount /ℤ b.price.amount) in
      elim (Option-cases (c.mul_asset count b.price)) [
        | inl over ↦ ground arith
        | inr (paid, fp) ↦ elim (Option-cases (c.sub_asset q paid)) [
          | inl over ↦ ground arith
          | inr (left, fl) ↦ elim (Option-cases (c.add_asset b.fund_recd paid)) [
            | inl over ↦ ground arith
            | inr (recd, fr) ↦ elim (Option-cases (c.find s.boothboxes k)) [
              | inl none_there ↦ ground arith
              | inr (m, fm) ↦
                  let b' : Booth = record b { fund_recd = recd; updated_at = seconds ctx.now } in
                  elim (Result-cases (buy_loop draws b' m [])) [
                    | inr (x, fx) ↦ ground (arith, fx)
                    | inl (r, f1) ↦
                        elim (Result-cases (trace_all c ctx from r.0 (values r.2) s.traces)) [
                          | inr (x, fx) ↦ ground (arith, f1, fx)
                          | inl (traces, ft) ↦
                              let start : Fair [] = (tt, refl) in
                              let loop =
                                OnOk_apply (Sells b' [] draws) (buy_loop draws b' m [])
                                  (buy_loop-Sells draws b' m [] start l) f1 in
                              let s' : State c = record s {
                                booths = c.put s.booths k r.0;
                                boothboxes = c.put s.boothboxes k r.1;
                                sent = pay_out c from s.global.fund_distributor b paid left s.sent;
                                sent_nfts =
                                    record { bank = b.nft_contract; to = from; assets = values r.2 }
                                    ∷ s.sent_nfts;
                                traces = traces;
                              } in
                              let done : ltb_ℤ (pos 0) (q.amount /ℤ b.price.amount) ≡ true
                                  → length draws ≡ count
                                  → Bought ctx from k q s b s' =
                                λ some_paid enough. record {
                                  count = count;
                                  paid = paid;
                                  left = left;
                                  nfts = values r.2;
                                  booth = r.0;
                                  count_lem =
                                      (positive_count (q.amount /ℤ b.price.amount) some_paid).0;
                                  positive =
                                      (positive_count (q.amount /ℤ b.price.amount) some_paid).1;
                                  price = ground (arith, fp, c.mul_asset_lem count b.price);
                                  whole =
                                      whole_lem q.amount paid.amount left.amount
                                        (sub_asset-eq-some c q paid left fl).0;
                                  payments = refl;
                                  handed_out = refl;
                                  sold_count = omega (arith, loop.1, enough);
                                  booth_lem = rw (find-put c s.booths k r.0 k) (ground arith);
                                  one_less = omega (arith, loop.2, enough);
                                  received =
                                      rw loop.3 (add_asset-eq-some c b.fund_recd paid recd fr).0;
                                } in
                              ground (arith, f1, ft, done)
                        ]
                  ]
            ]
          ]
        ]
      ]
