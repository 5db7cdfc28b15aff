-- ===== src/Airdrop/Conserve.antt =====
-- flon.airdrop: a payout moves tokens from the plan's entries to the beneficiary, and nothing else.
use toolkit_contracts.Base.{
  List, OnOk, OnOk_apply, Option-cases, Result-cases, [], arith, inl, inr, int_laws, ok,
  parts_of_eq, pos, refl, some, ℕ, ℤ, ◌%◌, ◌+ℤ◌, ◌+◌, ◌^◌, ◌∷◌, ◌≡◌,
}
use toolkit_contracts.Chain.{
  Asset, Chain, Context, Transfer, sent_value, sub_asset-eq-some, total, total-put, weigh,
}
use toolkit_contracts.Airdrop.State.{ClaimConf, Plan, State}
use toolkit_contracts.Airdrop.Actions.{claim, claim_loop, claim_quant}

module _ (bank symbol : ℕ) (c : Chain) where
  abbrev pub conf_value : List ClaimConf → ℤ
  conf_value [] = pos 0
  conf_value (e ∷ es) = weigh bank symbol e.contract e.available +ℤ conf_value es

  abbrev pub plan_value : Plan → ℤ
  plan_value p = conf_value p.claims

  -- What has been sent of one token, and what all plans still have available of it.
  abbrev pub funds : State c → ℤ
  funds s = sent_value bank symbol s.sent +ℤ total c plan_value s.plans

  moved :
      (e : ClaimConf) (q a : Asset)
      → c.sub_asset e.available q ≡ some a
      → weigh bank symbol e.contract q +ℤ weigh bank symbol e.contract a
        ≡ weigh bank symbol e.contract e.available
  moved e q a sub = let law = sub_asset-eq-some c e.available q a sub in grind int_laws

  claim_loop-conserves :
      (beneficiary : ℕ) (es : List ClaimConf) (sent : List Transfer)
      → OnOk
          (λ r.
            sent_value bank symbol r.1 +ℤ conf_value r.0
            ≡ sent_value bank symbol sent +ℤ conf_value es)
          (claim_loop c beneficiary es sent)
  unfolding claim_loop
  claim_loop-conserves beneficiary [] sent = refl
  claim_loop-conserves beneficiary (e ∷ es) sent =
      elim (Option-cases (c.sub_asset e.available (claim_quant e))) [
        | inl trap ↦ ground arith
        | inr (a, sub) ↦
            let sent' =
              record { bank = e.contract; to = beneficiary; quantity = claim_quant e } ∷ sent in
            let step = moved e (claim_quant e) a sub in
            elim (Result-cases (claim_loop c beneficiary es sent')) [
              | inl (r, fr) ↦
                  let rest : sent_value bank symbol r.1 +ℤ conf_value r.0
                      ≡ sent_value bank symbol sent' +ℤ conf_value es =
                    OnOk_apply
                      (λ r.
                        sent_value bank symbol r.1 +ℤ conf_value r.0
                        ≡ sent_value bank symbol sent' +ℤ conf_value es)
                      (claim_loop c beneficiary es sent')
                      (claim_loop-conserves beneficiary es sent') fr in
                  let whole : sent_value bank symbol r.1
                        +ℤ (weigh bank symbol e.contract a +ℤ conf_value r.0)
                      ≡ sent_value bank symbol sent
                        +ℤ (weigh bank symbol e.contract e.available +ℤ conf_value es) =
                    omega (int_laws, parts_of_eq rest, parts_of_eq step) in
                  ground (arith, fr, whole)
              | inr (x, fx) ↦ ground arith
            ]
      ]

  -- A payout that succeeds only moves funds: of every token, what has been sent and what the plans
  -- still have available stay the same together.
  pub airdrop_conserves :
      (ctx : Context) (plan_id claimer beneficiary : ℕ) (s s' : State c)
      → claim c ctx plan_id claimer beneficiary s ≡ ok s'
      → funds s' ≡ funds s
  unfolding claim
  airdrop_conserves ctx plan_id claimer beneficiary s s' =
      OnOk_apply (λ u. funds u ≡ funds s) (claim c ctx plan_id claimer beneficiary s)
        (elim (Option-cases (c.find s.plans plan_id)) [
          | inl missing ↦ ground arith
          | inr (p, fp) ↦ elim (Result-cases (claim_loop c beneficiary p.claims s.sent)) [
            | inl (r, fr) ↦
                let p' : Plan = record p {
                  claims = r.0;
                  claimed_cnt = (p.claimed_cnt + 1) % 2 ^ 64;
                  updated_at = ctx.now;
                } in
                let rest : sent_value bank symbol r.1 +ℤ conf_value r.0
                    ≡ sent_value bank symbol s.sent +ℤ conf_value p.claims =
                  OnOk_apply
                    (λ r.
                      sent_value bank symbol r.1 +ℤ conf_value r.0
                      ≡ sent_value bank symbol s.sent +ℤ conf_value p.claims)
                    (claim_loop c beneficiary p.claims s.sent)
                    (claim_loop-conserves beneficiary p.claims s.sent) fr in
                let whole : sent_value bank symbol r.1
                      +ℤ total c plan_value (c.put s.plans plan_id p')
                    ≡ funds s =
                  omega (
                    int_laws,
                    parts_of_eq rest,
                    parts_of_eq (total-put c s.plans plan_value plan_id p' p fp),
                  ) in
                ground (arith, fp, fr, whole)
            | inr (x, fx) ↦ ground arith
          ]
        ])
