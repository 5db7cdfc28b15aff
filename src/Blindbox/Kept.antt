-- ===== src/Blindbox/Kept.antt =====
-- flon.blindbox: what the calls keep of the booths that there are.
use toolkit_contracts.Base.{
  ==_iff, Bool, Bool-cases, List, OnOk, OnOk_apply, Option, Option-cases, Result-cases, Text, [],
  ap, arith, false, if◌then◌else◌, inl, inr, length, ltb, none, ok, pos_part, refl, some, ℕ, ◌%◌,
  ◌+◌, ◌/ℤ◌, ◌==◌, ◌^◌, ◌∷◌, ◌≡◌,
}
use toolkit_contracts.Chain.{Asset, Chain, Context, find-erase, find-put, seconds}
use toolkit_contracts.Blindbox.State.{Booth, DealTrace, NAsset, Nfts, State, disabled, enabled}
use toolkit_contracts.Blindbox.Stock.{add_loop, buy_loop, nfts_or_none}
use toolkit_contracts.Blindbox.Actions.{
  booth_of, buy_nfts, closebooth, dealtrace, enablebooth, init, on_transfer_ntoken, setboothtime,
  setmaxbox, stock_booth, transfer_token,
}
use toolkit_contracts.Blindbox.Counts.{Grown, Matches, add_loop-Grown, buy_loop-Matches}
use toolkit_contracts.Blindbox.Run.{Kept, Stocked, StockedAt}

Stocked-found :
    (b : Booth) (p : Option Booth) (o : Option Nfts)
    → Stocked p o
    → p ≡ some b
    → Matches b (nfts_or_none o)
Stocked-found b none o h e = cc
Stocked-found b (some b') o h e = ground arith

add_loop-nothing :
    (assets : List NAsset) (m : Nfts)
    → ltb 0 (length assets) ≡ false
    → add_loop assets m 0 0 ≡ ok (m, 0, 0)
unfolding add_loop
add_loop-nothing [] m h = refl
add_loop-nothing (nft ∷ assets) m h = ground arith

module _ (c : Chain) where
  module _ (j : ℕ) (ctx : Context) (s : State c) (all : (k : ℕ) → StockedAt c k s) where
    -- A change of a booth and its NFTs that keeps its numbers true.
    pub put_both-Kept :
        (k : ℕ) (b' b : Booth) (m : Nfts)
        → c.find s.booths k ≡ some b'
        → Matches b m
        → Stocked (c.find (c.put s.booths k b) j) (c.find (c.put s.boothboxes k m) j)
          × (c.find s.booths j ≡ none → c.find (c.put s.booths k b) j ≡ none)
    put_both-Kept k b' b m f v =
        rw (find-put c s.booths k b j, find-put c s.boothboxes k m j) (ground (arith, all j))

    -- A change of a booth that leaves its numbers alone.
    pub put_booth-Kept :
        (k : ℕ) (b' b : Booth)
        → c.find s.booths k ≡ some b'
        → Matches b (nfts_or_none (c.find s.boothboxes k))
        → Stocked (c.find (c.put s.booths k b) j) (c.find s.boothboxes j)
          × (c.find s.booths j ≡ none → c.find (c.put s.booths k b) j ≡ none)
    put_booth-Kept k b' b f v = rw (find-put c s.booths k b j) (elim (Bool-cases (k == j)) [
      | inl same ↦
          let e = (==_iff k j).0 same in rw same (rw e at v, λ n. ground (arith, rw e at f))
      | inr other ↦ rw other (all j, λ n. n)
    ])

    pub enablebooth-Kept : (o k : ℕ) (on : Bool) → OnOk (Kept c j s) (enablebooth c ctx o k on s)
    unfolding enablebooth
    enablebooth-Kept o k on = elim (Option-cases (c.find s.booths k)) [
      | inl missing ↦ ground arith
      | inr (b, fb) ↦
          let v = Stocked-found b (c.find s.booths k) (c.find s.boothboxes k) (all k) fb in
          let b' : Booth = record b {
            status = if on then enabled else disabled;
            updated_at = seconds ctx.now;
          } in
          ground (
            arith,
            put_booth-Kept k b b' fb (record { sorted = v.sorted; nfts = v.nfts; boxes = v.boxes }),
          )
    ]

    pub setboothtime-Kept : (o k p q : ℕ) → OnOk (Kept c j s) (setboothtime c ctx o k p q s)
    unfolding setboothtime
    setboothtime-Kept o k p q = elim (Option-cases (c.find s.booths k)) [
      | inl missing ↦ ground arith
      | inr (b, fb) ↦
          let v = Stocked-found b (c.find s.booths k) (c.find s.boothboxes k) (all k) fb in
          let b' : Booth = record b {
            opened_at = p;
            closed_at = q;
            updated_at = seconds ctx.now;
          } in
          ground (
            arith,
            put_booth-Kept k b b' fb (record { sorted = v.sorted; nfts = v.nfts; boxes = v.boxes }),
          )
    ]

    pub stock_booth-Kept :
        (from k : ℕ) (assets : List NAsset) → OnOk (Kept c j s) (stock_booth c ctx from k assets s)
    unfolding stock_booth
    stock_booth-Kept from k assets = elim (Option-cases (c.find s.booths k)) [
      | inl missing ↦ ground arith
      | inr (b, fb) ↦
          let m = nfts_or_none (c.find s.boothboxes k) in
          let v = Stocked-found b (c.find s.booths k) (c.find s.boothboxes k) (all k) fb in
          elim (Result-cases (add_loop assets m 0 0)) [
            | inr (x, fx) ↦ ground arith
            | inl (r, fr) ↦
                let g : Grown m 0 0 r =
                  OnOk_apply (Grown m 0 0) (add_loop assets m 0 0)
                    (add_loop-Grown assets m 0 0 v.sorted) fr in
                let b' : Booth = record b {
                  nft_box_num = (b.nft_box_num + r.2) % 2 ^ 64;
                  nft_num = (b.nft_num + r.1) % 2 ^ 64;
                  nft_num_sum = (b.nft_num_sum + r.1) % 2 ^ 64;
                  updated_at = seconds ctx.now;
                } in
                let v' : Matches b' r.0 = record {
                  sorted = g.0;
                  nfts = omega (arith, v.nfts, g.1);
                  boxes = omega (arith, v.boxes, g.2);
                } in
                elim (Bool-cases (ltb 0 (length assets))) [
                  | inl some_nft ↦ ground (arith, fr, some_nft, put_both-Kept k b b' r.0 fb v')
                  | inr no_nft ↦
                      let none_new = add_loop-nothing assets m no_nft in
                      let all_same : r ≡ (m, 0, 0) = cc in
                      let same : r.0 ≡ m = ap (λ t. t.0) all_same in
                      let v'' : Matches b' m = rw same at v' in
                      ground (arith, fr, no_nft, put_booth-Kept k b b' fb v'')
                ]
          ]
    ]

    pub buy_nfts-Kept :
        (draws : List (List ℕ)) (from k : ℕ) (q : Asset)
        → OnOk (Kept c j s) (buy_nfts c ctx draws from k q s)
    unfolding buy_nfts
    buy_nfts-Kept draws from k q = elim (Option-cases (c.find s.booths k)) [
      | inl missing ↦ ground arith
      | inr (b, fb) ↦
          let paid = c.mul_asset (pos_part (q.amount /ℤ b.price.amount)) b.price in
          elim (Option-cases paid) [
            | inl over ↦ ground arith
            | inr (paid, fp) ↦ elim (Option-cases (c.add_asset b.fund_recd paid)) [
              | inl over ↦ ground arith
              | inr (recd, fr) ↦ elim (Option-cases (c.find s.boothboxes k)) [
                | inl empty ↦ ground arith
                | inr (m, fm) ↦
                    let v =
                      Stocked-found b (c.find s.booths k) (c.find s.boothboxes k) (all k) fb in
                    let b' : Booth = record b { fund_recd = recd; updated_at = seconds ctx.now } in
                    let w : Matches b m = rw fm at v in
                    let v' : Matches b' m = record {
                      sorted = w.sorted;
                      nfts = w.nfts;
                      boxes = w.boxes;
                    } in
                    elim (Result-cases (buy_loop draws b' m [])) [
                      | inr (x, fx) ↦ ground (arith, fx)
                      | inl (r, fl) ↦ ground (
                        arith,
                        fl,
                        put_both-Kept k b r.0 r.1 fb (
                            OnOk_apply (λ r. Matches r.0 r.1) (buy_loop draws b' m [])
                              (buy_loop-Matches draws b' m [] v') fl),
                      )
                    ]
              ]
            ]
          ]
    ]

    pub closebooth-Kept : (o k : ℕ) → OnOk (Kept c j s) (closebooth c ctx o k s)
    unfolding closebooth
    closebooth-Kept o k =
        ground (arith, find-erase c s.booths k j, find-erase c s.boothboxes k j, all j)

    pub init-Kept : (a d : ℕ) → OnOk (Kept c j s) (init c ctx a d s)
    unfolding init
    init-Kept a d = ground (arith, all j)

    pub setmaxbox-Kept : (n : ℕ) → OnOk (Kept c j s) (setmaxbox c ctx n s)
    unfolding setmaxbox
    setmaxbox-Kept n = ground (arith, all j)

    pub dealtrace-Kept : (d : DealTrace) → OnOk (Kept c j s) (dealtrace c ctx d s)
    unfolding dealtrace
    dealtrace-Kept d = ground (arith, all j)

    pub on_transfer_ntoken-Kept :
        (from to : ℕ) (assets : List NAsset) (memo : Text)
        → OnOk (Kept c j s) (on_transfer_ntoken c ctx from to assets memo s)
    unfolding on_transfer_ntoken
    on_transfer_ntoken-Kept from to assets memo = elim (Result-cases (booth_of memo)) [
      | inr (x, fx) ↦ ground (arith, fx, all j)
      | inl (k, fk) ↦ ground (arith, fk, all j, stock_booth-Kept from k assets)
    ]

    pub transfer_token-Kept :
        (draws : List (List ℕ)) (from to : ℕ) (q : Asset) (memo : Text)
        → OnOk (Kept c j s) (transfer_token c ctx draws from to q memo s)
    unfolding transfer_token
    transfer_token-Kept draws from to q memo = elim (Result-cases (booth_of memo)) [
      | inr (x, fx) ↦ ground (arith, fx, all j)
      | inl (k, fk) ↦ ground (arith, fk, all j, buy_nfts-Kept draws from k q)
    ]
