-- ===== src/Redpack/Conserve.antt =====
-- flon.redpack: the packets' funds are paid out once, and only from what is left.
use toolkit_contracts.Base.{
  List, OnOk, OnOk_apply, Option-cases, Text, arith, false, if◌then◌else◌, inl, inr, int_laws, none,
  ok, parts_of_eq, pos, some, ℕ, ℤ, ℤ_antisym, ◌+ℤ◌, ◌-◌, ◌==◌, ◌||◌, ◌≡◌, ◌≤ℤ◌,
}
use toolkit_contracts.Chain.{
  Asset, Chain, Context, find-erase, sent_value, sub_asset-eq-some, total, total-erase, total-put,
  weigh,
}
use toolkit_contracts.Redpack.State.{Redpack, State, finished, is_created, is_servicing}
use toolkit_contracts.Redpack.Assign.{share_of}
use toolkit_contracts.Redpack.Actions.{cancel, claimredpack, pay_claim}

module _ (bank symbol : ℕ) (c : Chain) where
  abbrev pub left_value : Redpack → ℤ
  left_value r = weigh bank symbol r.token_contract r.remaining_quant

  -- What has been sent of one token, and what all packets still hold of it.
  abbrev pub funds : State c → ℤ
  funds s = sent_value bank symbol s.sent +ℤ total c left_value s.redpacks

  module _ (ctx : Context) (claimer code : ℕ) (r : Redpack) (q : Asset) (s : State c)
      (found : c.find s.redpacks code ≡ some r) where
    pay_claim-funds : OnOk (λ s'. funds s' ≡ funds s) (pay_claim c ctx claimer code r q s)
    unfolding pay_claim
    pay_claim-funds = elim (Option-cases (c.sub_asset r.remaining_quant q)) [
      | inl short ↦ ground arith
      | inr (left, sub) ↦
          let law = sub_asset-eq-some c r.remaining_quant q left sub in
          let r' = record r {
            remaining_quant = left;
            remaining_count = r.remaining_count - 1;
            status = if r.remaining_count == 1 then finished else r.status;
            updated_at = ctx.now;
          } in
          let moved : weigh bank symbol r.token_contract left
                +ℤ weigh bank symbol r.token_contract q
              ≡ left_value r =
            grind int_laws in
          let step : weigh bank symbol r.token_contract q
                +ℤ sent_value bank symbol s.sent
                +ℤ total c left_value (c.put s.redpacks code r')
              ≡ funds s =
            omega (
              int_laws,
              parts_of_eq moved,
              parts_of_eq (total-put c s.redpacks left_value code r' r found),
            ) in
          ground (arith, step)
    ]

  -- A claim that succeeds only moves funds: of every token, what has been sent and what the packets
  -- still hold stay the same together.
  pub claimredpack_conserves :
      (ctx : Context) (seed : ℕ) (dids : List (ℕ × ℤ)) (claimer code : ℕ) (hash : Text)
      (s s' : State c)
      → claimredpack c ctx seed dids claimer code hash s ≡ ok s'
      → funds s' ≡ funds s
  unfolding claimredpack
  claimredpack_conserves ctx seed dids claimer code hash s s' =
      OnOk_apply (λ u. funds u ≡ funds s) (claimredpack c ctx seed dids claimer code hash s)
        (elim (Option-cases (c.find s.redpacks code)) [
          | inl missing ↦ ground arith
          | inr (r, fr) ↦ elim (Option-cases (share_of c seed r.assign_type r)) [
            | inl trap ↦ ground arith
            | inr (q, fq) ↦ ground (arith, pay_claim-funds ctx claimer code r q s fr)
          ]
        ])

  empty_goes :
      (a b d : ℤ) (r : Redpack)
      → r.remaining_quant.amount ≡ pos 0
      → b +ℤ left_value r ≡ d
      → a +ℤ b ≡ a +ℤ d
  empty_goes a b d r z e = grind int_laws

  -- A cancellation that succeeds only moves funds, and erases the packet, given that the packet
  -- holds no negative amount, and nothing if it is closed: of every token, what has been sent and
  -- what the packets still hold stay the same together.
  pub cancel_conserves :
      (ctx : Context) (code : ℕ) (r : Redpack) (s s' : State c)
      → c.find s.redpacks code ≡ some r
      → pos 0 ≤ℤ r.remaining_quant.amount
      → (is_created r.status || is_servicing r.status ≡ false → r.remaining_quant.amount ≡ pos 0)
      → cancel c ctx code s ≡ ok s'
      → (funds s' ≡ funds s) × (c.find s'.redpacks code ≡ none)
  unfolding cancel
  cancel_conserves ctx code r s s' fr h closed e =
      let gone = total-erase c s.redpacks left_value code r fr in
      let erased = find-erase c s.redpacks code code in
      let paid : left_value r
            +ℤ sent_value bank symbol s.sent
            +ℤ total c left_value (c.erase s.redpacks code)
          ≡ funds s =
        omega (int_laws, parts_of_eq gone) in
      let kept = λ (z : r.remaining_quant.amount ≡ pos 0).
        empty_goes (sent_value bank symbol s.sent) (total c left_value (c.erase s.redpacks code))
          (total c left_value s.redpacks) r z gone in
      let zero = ℤ_antisym r.remaining_quant.amount (pos 0) in
      (ground (arith, paid, kept, closed, zero), ground (arith, erased))
