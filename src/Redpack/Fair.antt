-- ===== src/Redpack/Fair.antt =====
-- flon.redpack: what every packet keeps to: it holds no negative amount, and nothing once closed.
use mathlib.Core.Path.{subst}
use toolkit_contracts.Base.{
  Bool, Bool-cases, List, OnOk, OnOk-intro, Option, Option-cases, Text, arith, false, if◌then◌else◌,
  inl, inr, int_laws, leb_ℤ, ltb_ℤ, pos, some, true, ℕ, ℤ, ◌%◌, ◌+◌, ◌-◌, ◌==◌, ◌^◌, ◌||◌, ◌∷◌, ◌≡◌,
  ◌≤ℤ◌,
}
use toolkit_contracts.Chain.{Asset, Chain, Context, find-erase, find-put, sub_asset-eq-some}
use toolkit_contracts.Redpack.State.{
  AssignType, Redpack, State, finished, is_created, is_servicing, mean, random, servicing,
}
use toolkit_contracts.Redpack.Assign.{assign_redpack, share_of}
use toolkit_contracts.Redpack.Actions.{
  cancel, claimredpack, deposit, handle_fee_payment, new_redpack, pay_claim,
}

abbrev pub Fair : Redpack → Type 0
Fair r =
    (pos 0 ≤ℤ r.remaining_quant.amount)
    × (is_created r.status || is_servicing r.status ≡ false → r.remaining_quant.amount ≡ pos 0)

module _ (c : Chain) where
  abbrev pub AllFair : State c → Type 0
  AllFair s = (k : ℕ) (r : Redpack) → c.find s.redpacks k ≡ some r → Fair r

  -- A change of one row that is fair keeps all fair.
  put-Fair :
      (s : State c) (code : ℕ) (row : Redpack)
      → AllFair s
      → Fair row
      → (k : ℕ) (r : Redpack) → c.find (c.put s.redpacks code row) k ≡ some r
      → Fair r
  put-Fair s code row h f k r e = elim (Bool-cases (code == k)) [
    | inl same ↦
        let found : row ≡ r = ground (arith, same, find-put c s.redpacks code row k, e) in
        subst Fair found f
    | inr other ↦ h k r (ground (arith, other, find-put c s.redpacks code row k, e))
  ]

  share_of-last :
      (seed : ℕ) (kind : AssignType) (r : Redpack) (q : Asset)
      → share_of c seed kind r ≡ some q
      → (r.remaining_count == 1) ≡ true
      → r.remaining_quant ≡ q
  unfolding share_of assign_redpack
  share_of-last seed random r q e one = ground (arith, e, one)
  share_of-last seed mean r q e one = ground (arith, e, one)

  module _ (ctx : Context) (claimer code : ℕ) (r : Redpack) (q : Asset) (s : State c)
      (h : AllFair s) where
    pay_claim-AllFair :
        ((r.remaining_count == 1) ≡ true → r.remaining_quant ≡ q)
        → is_servicing r.status ≡ true
        → OnOk AllFair (pay_claim c ctx claimer code r q s)
    unfolding pay_claim
    pay_claim-AllFair last serving = elim (Option-cases (c.sub_asset r.remaining_quant q)) [
      | inl short ↦ ground (arith, short)
      | inr (left, sub) ↦
          let law = sub_asset-eq-some c r.remaining_quant q left sub in
          let row : Redpack = record r {
            remaining_quant = left;
            remaining_count = r.remaining_count - 1;
            status = if r.remaining_count == 1 then finished else r.status;
            updated_at = ctx.now;
          } in
          OnOk-intro AllFair (pay_claim c ctx claimer code r q s) (λ s' e k r' g.
            let enough : leb_ℤ q.amount r.remaining_quant.amount ≡ true = ground (arith, e) in
            let positive : pos 0 ≤ℤ left.amount = grind (int_laws, law, enough) in
            let closed : is_created row.status || is_servicing row.status ≡ false
                → left.amount ≡ pos 0 =
              λ z. elim (Bool-cases (r.remaining_count == 1)) [
                | inl one ↦ grind (int_laws, law, last one)
                | inr more ↦ ground (arith, z, more, serving)
              ] in
            put-Fair s code row h (positive, closed) k r' (ground (arith, sub, e, g)))
    ]

  pub claimredpack-AllFair :
      (ctx : Context) (seed : ℕ) (dids : List (ℕ × ℤ)) (claimer code : ℕ) (hash : Text)
      (s : State c)
      → AllFair s
      → OnOk AllFair (claimredpack c ctx seed dids claimer code hash s)
  unfolding claimredpack
  claimredpack-AllFair ctx seed dids claimer code hash s h =
      elim (Option-cases (c.find s.redpacks code)) [
        | inl missing ↦ ground arith
        | inr (r, fr) ↦ elim (Option-cases (share_of c seed r.assign_type r)) [
          | inl trap ↦ ground arith
          | inr (q, fq) ↦ ground (
            arith,
            pay_claim-AllFair ctx claimer code r q s h (share_of-last seed r.assign_type r q fq),
          )
        ]
      ]

  module _ (ctx : Context) (q : Asset) (s : State c) (h : AllFair s) where
    pub deposit-AllFair :
        (from code : ℕ) (kind : Option AssignType) (did : Bool) (count : ℤ) (hash : Text)
        (cover : Option ℕ)
        → ltb_ℤ (pos 0) q.amount ≡ true
        → OnOk AllFair (deposit c ctx from q code kind did count hash cover s)
    unfolding deposit
    deposit-AllFair from code kind did count hash cover positive = elim (Option-cases kind) [
      | inl bad ↦ ground (arith, bad)
      | inr (t, ft) ↦ elim (Option-cases cover) [
        | inl bad ↦ ground (arith, bad, ft)
        | inr (n, fn) ↦
            let fee = s.global.unwrap_fee_required in
            let id = (s.globalidx.last_redpack_id + 1) % 2 ^ 64 in
            let row = new_redpack ctx from q code t did count hash n fee id in
            let open_row : is_created row.status || is_servicing row.status ≡ true = ground arith in
            OnOk-intro AllFair (deposit c ctx from q code kind did count hash cover s)
              (λ s' e k r g.
                put-Fair s code row h (ground (arith, positive), λ z. ground (arith, z, open_row)) k
                  r (ground (arith, e, g, ft, fn)))
      ]
    ]

    pub handle_fee_payment-AllFair :
        (parts : List Text) → OnOk AllFair (handle_fee_payment c ctx q parts s)
    unfolding handle_fee_payment
    handle_fee_payment-AllFair (w ∷ code ∷ rest) = elim (Option-cases (c.name_of code)) [
      | inl bad ↦ ground (arith, bad)
      | inr (n, fn) ↦ elim (Option-cases (c.find s.redpacks n)) [
        | inl bad ↦ ground (arith, bad, fn)
        | inr (old, fo) ↦
            let row : Redpack = record old { status = servicing; updated_at = ctx.now } in
            OnOk-intro AllFair (handle_fee_payment c ctx q (w ∷ code ∷ rest) s) (λ s' e k r g.
              put-Fair s n row h ((h n old fo).0, λ z. ground (arith, z)) k r
                (ground (arith, e, g, fn, fo)))
      ]
    ]
    handle_fee_payment-AllFair _ = tt

  pub cancel-AllFair :
      (ctx : Context) (code : ℕ) (s : State c) → AllFair s → OnOk AllFair (cancel c ctx code s)
  unfolding cancel
  cancel-AllFair ctx code s h =
      OnOk-intro AllFair (cancel c ctx code s)
        (λ s' e k r g. ground (arith, e, g, find-erase c s.redpacks code k, h k r))
