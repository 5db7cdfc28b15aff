-- ===== src/Swap/Settled.antt =====
-- flon.proxyswap: an order is settled once, and what is sent is what the settled orders say.
use toolkit_contracts.Base.{
  List, OnOk, OnOk-intro, Option-cases, Text, [], arith, if◌then◌else◌, inl, inr, pos_part, refl,
  some, true, ℕ, ℤ, ◌%◌, ◌++◌, ◌+◌, ◌<◌, ◌==◌, ◌^◌, ◌∷◌, ◌≡◌, ◌≤◌,
}
use toolkit_contracts.Chain.{Asset, Chain, Context, Transfer, find-erase, find-put}
use toolkit_contracts.Swap.State.{
  Order, OrderStatus, OrderType, State, buy, by_kind, cancelled, created, finished, is_created,
  paid_quant, sell,
}
use toolkit_contracts.Swap.Actions.{cancelorder, finishorder, new_order, place_order}

-- How often an order is settled.
abbrev pub settled_times : ℕ → List Order → ℕ
settled_times k [] = 0
settled_times k (o ∷ orders) =
    let rest = settled_times k orders in if o.order_id == k then 1 + rest else rest

-- What the owner of a finished order has bought or sold for.
abbrev pub got_quant : Order → OrderType → Asset
got_quant o buy = o.left_quant
got_quant o sell = o.right_quant

-- What is sent for a settled order, the last transfer first: the fee and the deal, or the refund.
abbrev pub payments_by : Order → OrderStatus → List Asset
payments_by o created = []
payments_by o finished = o.fee ∷ got_quant o o.kind ∷ []
payments_by o cancelled = o.refund_quant ∷ []

abbrev pub payments : List Order → List Asset
payments [] = []
payments (o ∷ orders) = payments_by o o.status ++ payments orders

abbrev pub quantities : List Transfer → List Asset
quantities [] = []
quantities (t ∷ sent) = t.quantity ∷ quantities sent

got_lem :
    (t : OrderType) (deal : Asset) (o : Order) (l r : Asset)
    → o.left_quant ≡ by_kind t deal l
    → o.right_quant ≡ by_kind t r deal
    → got_quant o t ≡ deal
got_lem buy deal o l r h k = h
got_lem sell deal o l r h k = k

module _ (c : Chain) where
  -- An open order: its number is its key and not above the last one, and it is not settled.
  abbrev pub IsOpen : State c → ℕ → Order → Type 0
  IsOpen s k o =
      (o.order_id ≡ k)
      × (is_created o.status ≡ true)
      × (k ≤ s.global.last_order_id)
      × (settled_times k s.settled ≡ 0)

  pub record Inv (s : State c) : Type 0 where
    pub open_orders : (k : ℕ) (o : Order) → c.find s.orders k ≡ some o → IsOpen s k o
    pub fresh : (k : ℕ) → s.global.last_order_id < k → settled_times k s.settled ≡ 0
    pub once : (k : ℕ) → settled_times k s.settled ≤ 1
    pub booked : quantities s.sent ≡ payments s.settled

  -- The invariant after a call, which takes at most one number.
  abbrev pub Next : State c → State c → Type 0
  Next s s' = Inv s' × (s'.global.last_order_id ≤ s.global.last_order_id + 1)

  pub place_order-Next :
      (ctx : Context) (from tpcode : ℕ) (kind : OrderType) (price : Asset) (slippage : ℤ)
      (q : Asset) (memo : Text) (s : State c)
      → Inv s
      → s.global.last_order_id + 1 < 2 ^ 64
      → OnOk (Next s) (place_order c ctx from tpcode kind price slippage q memo s)
  unfolding place_order new_order
  place_order-Next ctx from tpcode kind price slippage q memo s v small =
      OnOk-intro (Next s) (place_order c ctx from tpcode kind price slippage q memo s) (λ s' e.
        elim (Option-cases (c.find s.pairs tpcode)) [
          | inl bad ↦ absurd (ground (arith, e, bad))
          | inr (p, fp) ↦
              let id = (s.global.last_order_id + 1) % 2 ^ 64 in
              let same : id ≡ s.global.last_order_id + 1 = omega arith in
              let o = new_order ctx id from kind (pos_part slippage) price q p memo tpcode in
              (
                record {
                  open_orders = λ k o' g. ground (
                    arith,
                    e,
                    fp,
                    same,
                    g,
                    find-put c s.orders id o k,
                    v.open_orders k o',
                    v.fresh k,
                  );
                  fresh = λ k h. ground (arith, e, fp, same, h, v.fresh k);
                  once = λ k. ground (arith, e, fp, v.once k);
                  booked = ground (arith, e, fp, v.booked);
                },
                ground (arith, e, fp, same),
              )
        ])

  -- What `finishorder` and `cancelorder` make of an open order.
  settled-Next :
      (s s' : State c) (k : ℕ) (o done : Order)
      → Inv s
      → c.find s.orders k ≡ some o
      → done.order_id ≡ o.order_id
      → s'.orders ≡ c.erase s.orders k
      → s'.settled ≡ done ∷ s.settled
      → s'.global ≡ s.global
      → quantities s'.sent ≡ payments s'.settled
      → Next s s'
  settled-Next s s' k o done v fo number erased added global books =
      let opened = v.open_orders k o fo in
      (
        record {
          open_orders = λ j o' g. ground (
            arith,
            fo,
            number,
            erased,
            added,
            global,
            g,
            find-erase c s.orders k j,
            v.open_orders j o',
            opened,
          );
          fresh = λ j h. ground (arith, number, added, global, h, v.fresh j, opened);
          once = λ j. ground (arith, number, added, v.once j, opened);
          booked = books;
        },
        ground (arith, global),
      )

  pub cancelorder-Next :
      (ctx : Context) (k : ℕ) (memo : Text) (s : State c)
      → Inv s
      → OnOk (Next s) (cancelorder c ctx k memo s)
  unfolding cancelorder
  cancelorder-Next ctx k memo s v = OnOk-intro (Next s) (cancelorder c ctx k memo s) (λ s' e.
      elim (Option-cases (c.find s.orders k)) [
        | inl bad ↦ absurd (ground (arith, e, bad))
        | inr (o, fo) ↦ elim (Option-cases (c.find s.pairs o.tpcode)) [
          | inl bad ↦ absurd (ground (arith, e, fo, bad))
          | inr (p, fp) ↦
              let done : Order = record o {
                refund_quant = paid_quant o o.kind;
                status = cancelled;
                memo = memo;
                updated_at = ctx.now;
              } in
              settled-Next s s' k o done v fo refl (ground (arith, e, fo, fp))
                (ground (arith, e, fo, fp)) (ground (arith, e, fo, fp))
                (ground (arith, e, fo, fp, v.booked))
        ]
      ])

  pub finishorder-Next :
      (ctx : Context) (k : ℕ) (paid deal price fee : Asset) (memo : Text) (s : State c)
      → Inv s
      → OnOk (Next s) (finishorder c ctx k paid deal price fee memo s)
  unfolding finishorder
  finishorder-Next ctx k paid deal price fee memo s v =
      OnOk-intro (Next s) (finishorder c ctx k paid deal price fee memo s) (λ s' e.
        elim (Option-cases (c.find s.orders k)) [
          | inl bad ↦ absurd (ground (arith, e, bad))
          | inr (o, fo) ↦ elim (Option-cases (c.find s.pairs o.tpcode)) [
            | inl bad ↦ absurd (ground (arith, e, fo, bad))
            | inr (p, fp) ↦
                let done : Order = record o {
                  left_quant = by_kind o.kind deal o.left_quant;
                  right_quant = by_kind o.kind o.right_quant deal;
                  fee = fee;
                  status = finished;
                  memo = memo;
                  deal_price = price;
                  updated_at = ctx.now;
                } in
                let got : got_quant done done.kind ≡ deal =
                  got_lem o.kind deal done o.left_quant o.right_quant refl refl in
                settled-Next s s' k o done v fo refl (ground (arith, e, fo, fp))
                  (ground (arith, e, fo, fp)) (ground (arith, e, fo, fp))
                  (ground (arith, e, fo, fp, got, v.booked))
          ]
        ])
