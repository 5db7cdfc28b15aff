-- ===== src/Swap/Orders.antt =====
-- flon.proxyswap: the life of an order.
use toolkit_contracts.Base.{
  Option-cases, Text, arith, inl, inr, none, ok, pos_part, refl, some, ℕ, ℤ, ◌%◌, ◌+◌, ◌^◌, ◌∷◌,
  ◌≡◌,
}
use toolkit_contracts.Chain.{Asset, Chain, Context, find-erase, find-put}
use toolkit_contracts.Swap.State.{OrderType, Pair, State, buy, get_token_contract, paid_quant, sell}
use toolkit_contracts.Swap.Actions.{cancelorder, new_order, place_order}

paid_new :
    (ctx : Context) (id from : ℕ) (kind : OrderType) (slippage : ℕ) (price quantity : Asset)
    (p : Pair) (memo : Text) (tpcode : ℕ)
    → paid_quant (new_order ctx id from kind slippage price quantity p memo tpcode) kind ≡ quantity
unfolding new_order
paid_new ctx id from buy slippage price quantity p memo tpcode = refl
paid_new ctx id from sell slippage price quantity p memo tpcode = refl

module _ (c : Chain) where
  -- An order that is cancelled right after it was placed sends its owner exactly what he paid in,
  -- from the token contract that the pair names for the symbol, whatever contract the payment came
  -- from; and the order is gone.
  pub cancelorder-place_order :
      (ctx ctx' : Context) (from tpcode : ℕ) (kind : OrderType) (price : Asset) (slippage : ℤ)
      (quantity : Asset) (memo memo' : Text) (s s' s'' : State c) (p : Pair)
      → c.find s.pairs tpcode ≡ some p
      → place_order c ctx from tpcode kind price slippage quantity memo s ≡ ok s'
      → cancelorder c ctx' s'.global.last_order_id memo' s' ≡ ok s''
      → ((bank : ℕ) × (get_token_contract p quantity ≡ some bank)
          × (s''.sent ≡ record { bank = bank; to = from; quantity = quantity } ∷ s.sent))
        × (c.find s''.orders s'.global.last_order_id ≡ none)
  unfolding place_order cancelorder new_order
  cancelorder-place_order ctx ctx' from tpcode kind price slippage quantity memo memo' s s' s'' p fp
        e k =
      let id : ℕ = (s.global.last_order_id + 1) % 2 ^ 64 in
      let o = new_order ctx id from kind (pos_part slippage) price quantity p memo tpcode in
      let placed = find-put c s.orders id o id in
      let gone = find-erase c s'.orders id id in
      let whole = paid_new ctx id from kind (pos_part slippage) price quantity p memo tpcode in
      elim (Option-cases (c.find s.orders id)) [
        | inr (taken, ft) ↦ absurd (ground (arith, fp))
        | inl free ↦ elim (Option-cases (get_token_contract p quantity)) [
          | inl bad ↦ absurd (ground (arith, fp, placed, whole))
          | inr (bank, fb) ↦
              ((bank, fb, ground (arith, placed, whole)), ground (arith, placed, gone))
        ]
      ]
