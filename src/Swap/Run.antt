-- ===== src/Swap/Run.antt =====
-- flon.proxyswap: histories of calls (the actions that flon.proxyswap.hpp declares).
use toolkit_contracts.Base.{
  List, OnOk, OnOk-intro, OnOk-map, Option, Option-cases, Result, Result-cases, Text, [], after,
  after_holds, arith, inl, inr, split_raw, stoll, ℕ, ◌+◌, ◌<◌, ◌^◌, ◌∷◌, ◌≤◌,
}
use toolkit_contracts.Chain.{Asset, Chain, Context}
use toolkit_contracts.Swap.State.{Error, Pair, State}
use toolkit_contracts.Swap.Actions.{
  addtradpair, cancelorder, distradpair, enabtradpair, finishorder, init, rmtradpair, setadmin,
  setoracle,
}
use toolkit_contracts.Swap.Memo.{asset_from_string, on_transfer, params_of, type_of}
use toolkit_contracts.Swap.Settled.{Inv, Next, cancelorder-Next, finishorder-Next, place_order-Next}

-- The actions with their arguments.
pub data Call : Type 0 where
  init_call : ℕ → ℕ → ℕ → ℕ → Call
  addtradpair_call : Pair → Call
  rmtradpair_call distradpair_call enabtradpair_call : ℕ → Call
  transfer_call : ℕ → ℕ → Asset → Text → Call
  finishorder_call : ℕ → Asset → Asset → Asset → Asset → Text → Call
  cancelorder_call : ℕ → Text → Call
  setadmin_call setoracle_call : ℕ → Call

module _ (c : Chain) (symbol_of : Text → ℕ → Option ℕ) where
  unfoldable pub call : Context → Call → State c → Result Error (State c)
  unfolding init addtradpair rmtradpair distradpair enabtradpair on_transfer finishorder cancelorder
      setadmin setoracle
  call ctx (init_call a o f n) = init c ctx a o f n
  call ctx (addtradpair_call p) = addtradpair c ctx p
  call ctx (rmtradpair_call k) = rmtradpair c ctx k
  call ctx (distradpair_call k) = distradpair c ctx k
  call ctx (enabtradpair_call k) = enabtradpair c ctx k
  call ctx (transfer_call f t q m) = on_transfer c symbol_of ctx f t q m
  call ctx (finishorder_call k o q p f m) = finishorder c ctx k o q p f m
  call ctx (cancelorder_call k m) = cancelorder c ctx k m
  call ctx (setadmin_call a) = setadmin c ctx a
  call ctx (setoracle_call a) = setoracle c ctx a

  unfoldable pub run : List (Context × Call) → State c → State c
  unfolding call
  run [] s = s
  run ((ctx, a) ∷ rest) s = run rest (after s (call ctx a s))

  on_transfer-Next :
      (ctx : Context) (f t : ℕ) (q : Asset) (memo : Text) (s : State c)
      → Inv c s
      → s.global.last_order_id + 1 < 2 ^ 64
      → OnOk (Next c s) (on_transfer c symbol_of ctx f t q memo s)
  unfolding on_transfer
  on_transfer-Next ctx f t q memo s v small =
      let same : Next c s s = (v, omega arith) in
      elim (Result-cases (params_of (split_raw [] b':' memo))) [
        | inr (bad, e) ↦ ground (arith, e, same)
        | inl ((code, kind, price, rate), e) ↦ elim (Option-cases (c.name_of code)) [
          | inl bad ↦ ground (arith, e, bad, same)
          | inr (n, fn) ↦ elim (Result-cases (type_of kind)) [
            | inr (bad, b) ↦ ground (arith, e, fn, b, same)
            | inl (o, fo) ↦ elim (Option-cases (stoll rate)) [
              | inl bad ↦ ground (arith, e, fn, fo, bad, same)
              | inr (r, fr) ↦ elim (Result-cases (asset_from_string c symbol_of price)) [
                | inr (bad, b) ↦ ground (arith, e, fn, fo, fr, b, same)
                | inl (a, fa) ↦ ground (
                  arith,
                  e,
                  fn,
                  fo,
                  fr,
                  fa,
                  same,
                  place_order-Next c ctx f n o a r q memo s v small,
                )
              ]
            ]
          ]
        ]
      ]

  -- What keeps the numbers of orders from being used again: an `init` sets a last number that is not
  -- below the present one, and the numbers are not used up.
  abbrev pub KeepsNumbers : Call → State c → Type 0
  KeepsNumbers (init_call a o f n) s = s.global.last_order_id ≤ n
  KeepsNumbers (transfer_call f t q m) s = s.global.last_order_id + 1 < 2 ^ 64
  KeepsNumbers a s = Unit {0}

  abbrev pub AllKeepNumbers : List (Context × Call) → State c → Type 0
  AllKeepNumbers [] s = Unit {0}
  AllKeepNumbers ((ctx, a) ∷ rest) s =
      KeepsNumbers a s × AllKeepNumbers rest (after s (call ctx a s))

  init-Inv :
      (ctx : Context) (a o f n : ℕ) (s : State c)
      → Inv c s
      → s.global.last_order_id ≤ n
      → OnOk (Inv c) (init c ctx a o f n s)
  unfolding init
  init-Inv ctx a o f n s v h = OnOk-intro (Inv c) (init c ctx a o f n s) (λ s' e. record {
    open_orders = λ k x g. ground (arith, e, g, v.open_orders k x);
    fresh = λ k l. ground (arith, e, l, v.fresh k);
    once = λ k. ground (arith, e, v.once k);
    booked = ground (arith, e, v.booked);
  })

  Next-Inv : (s : State c) (r : Result Error (State c)) → OnOk (Next c s) r → OnOk (Inv c) r
  Next-Inv s r = OnOk-map (Next c s) (Inv c) r (λ t n. n.0)

  call-Inv :
      (ctx : Context) (a : Call) (s : State c)
      → Inv c s
      → KeepsNumbers a s
      → OnOk (Inv c) (call ctx a s)
  unfolding call addtradpair rmtradpair distradpair enabtradpair setadmin setoracle
  call-Inv ctx (init_call a o f n) s v h = init-Inv ctx a o f n s v h
  call-Inv ctx (addtradpair_call p) s v h = ground (arith, v)
  call-Inv ctx (rmtradpair_call k) s v h = ground (arith, v)
  call-Inv ctx (distradpair_call k) s v h = ground (arith, v)
  call-Inv ctx (enabtradpair_call k) s v h = ground (arith, v)
  call-Inv ctx (transfer_call f t q m) s v h =
      Next-Inv s (on_transfer c symbol_of ctx f t q m s) (on_transfer-Next ctx f t q m s v h)
  call-Inv ctx (finishorder_call k o q p f m) s v h =
      Next-Inv s (finishorder c ctx k o q p f m s) (finishorder-Next c ctx k o q p f m s v)
  call-Inv ctx (cancelorder_call k m) s v h =
      Next-Inv s (cancelorder c ctx k m s) (cancelorder-Next c ctx k m s v)
  call-Inv ctx (setadmin_call a) s v h = ground (arith, v)
  call-Inv ctx (setoracle_call a) s v h = ground (arith, v)

  -- In any history of calls in which no `init` sets the number of the last order back, and in which
  -- the numbers of orders are not used up, and that starts where this holds: every order is settled
  -- at most once, and is not open any more when it is; an open order stands under its own number,
  -- which is not above the last one; and what has been sent is, in order, what the settled orders
  -- say: the refund of one that was cancelled, and the deal and the fee of one that was finished.
  pub settled_once :
      (calls : List (Context × Call)) (s : State c)
      → Inv c s
      → AllKeepNumbers calls s
      → Inv c (run calls s)
  unfolding run
  settled_once [] s v h = v
  settled_once ((ctx, a) ∷ rest) s v (now, later) =
      settled_once rest (after s (call ctx a s))
        (after_holds (Inv c) s (call ctx a s) v (call-Inv ctx a s v now)) later
