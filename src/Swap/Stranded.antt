-- ===== src/Swap/Stranded.antt =====
-- flon.proxyswap: the open orders of a pair that is removed.
use toolkit_contracts.Base.{
  List, OnOk, Option, Option-cases, Result-cases, Text, [], after, after_holds, arith, false, inl,
  inr, none, ok, pos_part, some, split_raw, stoll, ℕ, ℤ, ◌%◌, ◌+◌, ◌==◌, ◌^◌, ◌∷◌, ◌≡◌,
}
use toolkit_contracts.Chain.{Asset, Chain, Context, find-erase, find-put}
use toolkit_contracts.Swap.State.{Order, OrderType, Pair, State, disabled, enabled}
use toolkit_contracts.Swap.Actions.{
  addtradpair, cancelorder, distradpair, enabtradpair, finishorder, init, new_order, place_order,
  rmtradpair, setadmin, setoracle,
}
use toolkit_contracts.Swap.Memo.{asset_from_string, on_transfer, params_of, type_of}
use toolkit_contracts.Swap.Run.{
  Call, addtradpair_call, call, cancelorder_call, distradpair_call, enabtradpair_call,
  finishorder_call, init_call, rmtradpair_call, run, setadmin_call, setoracle_call, transfer_call,
}

-- No call of the history adds a pair with this code.
abbrev pub NotAdded : ℕ → List (Context × Call) → Type 0
NotAdded code [] = Unit {0}
NotAdded code ((ctx, addtradpair_call p) ∷ rest) = (p.tpcode == code ≡ false) × NotAdded code rest
NotAdded code ((ctx, a) ∷ rest) = NotAdded code rest

module _ (c : Chain) (symbol_of : Text → ℕ → Option ℕ) (code k : ℕ) (o : Order)
    (of_pair : o.tpcode ≡ code) where
  -- The order is there, and its pair is not.
  abbrev pub Stuck : State c → Type 0
  Stuck s = (c.find s.pairs code ≡ none) × (c.find s.orders k ≡ some o)

  module _ (ctx : Context) (s : State c) (stuck : Stuck s) where
    addtradpair-Stuck : (p : Pair) → p.tpcode == code ≡ false → OnOk Stuck (addtradpair c ctx p s)
    unfolding addtradpair
    addtradpair-Stuck p other =
        ground
          (arith, other, stuck, find-put c s.pairs p.tpcode (record p { status = enabled }) code)

    rmtradpair-Stuck : (j : ℕ) → OnOk Stuck (rmtradpair c ctx j s)
    unfolding rmtradpair
    rmtradpair-Stuck j = ground (arith, stuck, find-erase c s.pairs j code)

    distradpair-Stuck : (j : ℕ) → OnOk Stuck (distradpair c ctx j s)
    unfolding distradpair
    distradpair-Stuck j = elim (Option-cases (c.find s.pairs j)) [
      | inl bad ↦ ground (arith, bad)
      | inr (p, fp) ↦
          ground (arith, fp, stuck, find-put c s.pairs j (record p { status = disabled }) code)
    ]

    enabtradpair-Stuck : (j : ℕ) → OnOk Stuck (enabtradpair c ctx j s)
    unfolding enabtradpair
    enabtradpair-Stuck j = elim (Option-cases (c.find s.pairs j)) [
      | inl bad ↦ ground (arith, bad)
      | inr (p, fp) ↦
          ground (arith, fp, stuck, find-put c s.pairs j (record p { status = enabled }) code)
    ]

    place_order-Stuck :
        (from tpcode : ℕ) (kind : OrderType) (price : Asset) (slippage : ℤ) (q : Asset)
        (memo : Text)
        → OnOk Stuck (place_order c ctx from tpcode kind price slippage q memo s)
    unfolding place_order
    place_order-Stuck from tpcode kind price slippage q memo =
        elim (Option-cases (c.find s.pairs tpcode)) [
          | inl bad ↦ ground (arith, bad)
          | inr (p, fp) ↦
              let id = (s.global.last_order_id + 1) % 2 ^ 64 in
              let new = new_order ctx id from kind (pos_part slippage) price q p memo tpcode in
              ground (arith, fp, stuck, find-put c s.orders id new k)
        ]

    on_transfer-Stuck :
        (f t : ℕ) (q : Asset) (memo : Text) → OnOk Stuck (on_transfer c symbol_of ctx f t q memo s)
    unfolding on_transfer
    on_transfer-Stuck f t q memo = elim (Result-cases (params_of (split_raw [] b':' memo))) [
      | inr (bad, e) ↦ ground (arith, e, stuck)
      | inl ((part, kind, price, rate), e) ↦ elim (Option-cases (c.name_of part)) [
        | inl bad ↦ ground (arith, e, bad, stuck)
        | inr (n, fn) ↦ elim (Result-cases (type_of kind)) [
          | inr (bad, b) ↦ ground (arith, e, fn, b, stuck)
          | inl (w, fw) ↦ elim (Option-cases (stoll rate)) [
            | inl bad ↦ ground (arith, e, fn, fw, bad, stuck)
            | inr (r, fr) ↦ elim (Result-cases (asset_from_string c symbol_of price)) [
              | inr (bad, b) ↦ ground (arith, e, fn, fw, fr, b, stuck)
              | inl (a, fa) ↦
                  ground (arith, e, fn, fw, fr, fa, stuck, place_order-Stuck f n w a r q memo)
            ]
          ]
        ]
      ]
    ]

    finishorder-Stuck :
        (j : ℕ) (paid deal price fee : Asset) (memo : Text)
        → OnOk Stuck (finishorder c ctx j paid deal price fee memo s)
    unfolding finishorder
    finishorder-Stuck j paid deal price fee memo =
        ground (arith, stuck, of_pair, find-erase c s.orders j k)

    cancelorder-Stuck : (j : ℕ) (memo : Text) → OnOk Stuck (cancelorder c ctx j memo s)
    unfolding cancelorder
    cancelorder-Stuck j memo = ground (arith, stuck, of_pair, find-erase c s.orders j k)

  call-Stuck :
      (ctx : Context) (a : Call) (rest : List (Context × Call)) (s : State c)
      → Stuck s
      → NotAdded code ((ctx, a) ∷ rest)
      → OnOk Stuck (call c symbol_of ctx a s) × NotAdded code rest
  unfolding call init setadmin setoracle
  call-Stuck ctx (init_call a r f n) rest s h u = (ground (arith, h), u)
  call-Stuck ctx (addtradpair_call p) rest s h (other, u) = (addtradpair-Stuck ctx s h p other, u)
  call-Stuck ctx (rmtradpair_call j) rest s h u = (rmtradpair-Stuck ctx s h j, u)
  call-Stuck ctx (distradpair_call j) rest s h u = (distradpair-Stuck ctx s h j, u)
  call-Stuck ctx (enabtradpair_call j) rest s h u = (enabtradpair-Stuck ctx s h j, u)
  call-Stuck ctx (transfer_call f t q m) rest s h u = (on_transfer-Stuck ctx s h f t q m, u)
  call-Stuck ctx (finishorder_call j p d r f m) rest s h u =
      (finishorder-Stuck ctx s h j p d r f m, u)
  call-Stuck ctx (cancelorder_call j m) rest s h u = (cancelorder-Stuck ctx s h j m, u)
  call-Stuck ctx (setadmin_call a) rest s h u = (ground (arith, h), u)
  call-Stuck ctx (setoracle_call a) rest s h u = (ground (arith, h), u)

  run-Stuck :
      (calls : List (Context × Call)) (s : State c)
      → Stuck s
      → NotAdded code calls
      → Stuck (run c symbol_of calls s)
  unfolding run
  run-Stuck [] s h u = h
  run-Stuck ((ctx, a) ∷ rest) s h u =
      let (step, u') = call-Stuck ctx a rest s h u in
      run-Stuck rest (after s (call c symbol_of ctx a s))
        (after_holds Stuck s (call c symbol_of ctx a s) h step) u'

  -- Once a pair is removed, and through any history of calls that does not add a pair with its code
  -- again, each of its open orders stays as it is, and can be neither cancelled nor finished.
  pub rmtradpair_strands :
      (ctx ctx' : Context) (s s' : State c) (calls : List (Context × Call))
      → c.find s.orders k ≡ some o
      → rmtradpair c ctx code s ≡ ok s'
      → NotAdded code calls
      → (c.find (run c symbol_of calls s').orders k ≡ some o)
        × ((memo : Text) → OnOk (λ t. ⊥) (cancelorder c ctx' k memo (run c symbol_of calls s')))
        × ((paid deal price fee : Asset) (memo : Text)
            → OnOk
                (λ t. ⊥)
                (finishorder c ctx' k paid deal price fee memo (run c symbol_of calls s')))
  unfolding rmtradpair cancelorder finishorder
  rmtradpair_strands ctx ctx' s s' calls fo e u =
      let gone = find-erase c s.pairs code code in
      let t = run c symbol_of calls s' in
      let (missing, there) = run-Stuck calls s' (ground (arith, gone), ground arith) u in
      (
        there,
        λ memo. ground (arith, missing, there, of_pair),
        λ paid deal price fee memo. ground (arith, missing, there, of_pair),
      )
