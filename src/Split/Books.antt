-- ===== src/Split/Books.antt =====
-- flon.split: what each operation does to the books of the wallets (src/tokensplit.cpp).
use mathlib.Core.Path.{subst}
use toolkit_contracts.Base.{
  +ℤ_zero, List, OnOk, OnOk-intro, OnOk-map, OnOk_apply, Option-cases, Text, ap, arith, inl, inr,
  int_laws, parts_of_eq, pos, refl, some, sym, ℕ, ℤ, ◌%◌, ◌+ℤ◌, ◌+◌, ◌/◌, ◌<◌, ◌^◌, ◌∙◌, ◌≡◌, ◌≤ℤ◌,
  ◌≤◌,
}
use toolkit_contracts.Chain.{Asset, Chain, Context, find-put, sent_value, weigh}
use toolkit_contracts.Split.State.{Plan, SplitType, SplitUnit, State}
use toolkit_contracts.Split.Actions.{addplan, claim, claimall, editplan, split_payment}
use toolkit_contracts.Split.Conserve.{handed_out, split_payment_conserves}
use toolkit_contracts.Split.Claims.{claim_conserves, claimall_conserves}
use toolkit_contracts.Split.Sound.{AllSound, Keeps, RowsAreSound-lookup, split_payment-Keeps}
use toolkit_contracts.Split.Held.{claim-Keeps, claimall-Keeps, held, held-Frame, held-same}

module _ (c : Chain) where
  -- The wallets are sound, and no plan has a number above the last one.
  pub record Inv (s : State c) : Type 0 where
    pub sound : AllSound c s
    pub numbered : (k : ℕ) (p : Plan) → c.find s.plans k ≡ some p → k ≤ s.global.last_plan_id

  module _ (bank symbol : ℕ) where
    -- What has left the contract, and what waits in the wallets of the plans below a number.
    abbrev pub funds : ℕ → State c → ℤ
    funds n s = sent_value bank symbol s.sent +ℤ held c bank symbol n s

    module _ (n : ℕ) (wide : n ≤ 2 ^ 64) where
      abbrev pub Grown : ℤ → State c → State c → Type 0
      Grown d s s' =
          Inv s'
          × (s'.global.last_plan_id ≤ s.global.last_plan_id + 1)
          × (funds n s' ≡ funds n s +ℤ d)

      pub kept_funds : (s : State c) → funds n s ≡ funds n s +ℤ pos 0
      kept_funds s = sym (+ℤ_zero (funds n s))

      -- A change that leaves the wallets alone and sends nothing.
      pub unmoved :
          (s s' : State c)
          → Inv s'
          → s'.global.last_plan_id ≤ s.global.last_plan_id + 1
          → s'.sent ≡ s.sent
          → s'.wallets ≡ s.wallets
          → Grown (pos 0) s s'
      unmoved s s' v l sent wallets =
          let held_same = held-same c bank symbol n s s' (λ k. rw wallets refl) in
          (v, l, rw (held_same, sent) (kept_funds s))

      -- A change of the wallets of one plan.
      Grown-Keeps :
          (plan : ℕ) (d : ℤ) (s s' : State c)
          → Inv s
          → plan < n
          → Keeps c plan s s'
          → handed_out bank symbol c plan s' ≡ handed_out bank symbol c plan s +ℤ d
          → Grown d s s'
      Grown-Keeps plan d s s' v h (sound, f) e = (
        record { sound = sound; numbered = λ k p g. ground (arith, v.numbered k p, f.0, f.1, g) },
        ground (arith, f.1),
        omega (int_laws, parts_of_eq e, parts_of_eq (held-Frame c bank symbol n plan s s' h f)),
      )

      module _ (s : State c) (v : Inv s) (room : s.global.last_plan_id + 1 < n) where
        pub split_payment-Grown :
            (ctx : Context) (from plan : ℕ) (q : Asset) (boost : ℤ)
            → pos 0 ≤ℤ q.amount
            → OnOk
                (Grown (weigh bank symbol ctx.first_receiver q) s)
                (split_payment c ctx from plan q boost s)
        unfolding split_payment
        split_payment-Grown ctx from plan q boost h =
            let r = split_payment c ctx from plan q boost s in
            OnOk-intro (Grown (weigh bank symbol ctx.first_receiver q) s) r (λ s' e.
              elim (Option-cases (c.find s.plans plan)) [
                | inl missing ↦ absurd (ground (arith, e, missing))
                | inr (p, fp) ↦
                    let low = v.numbered plan p fp in
                    Grown-Keeps plan (weigh bank symbol ctx.first_receiver q) s s' v
                      (omega (arith, low, room))
                      (OnOk_apply (Keeps c plan s) r
                        (split_payment-Keeps c ctx from plan q boost s h v.sound) e)
                      (split_payment_conserves bank symbol c ctx from plan q boost s s' h e)
              ])

        pub claim-Grown : (plan owner : ℕ) → OnOk (Grown (pos 0) s) (claim c plan owner s)
        unfolding claim
        claim-Grown plan owner =
            let r = claim c plan owner s in
            OnOk-intro (Grown (pos 0) s) r (λ s' e. elim (Option-cases (c.find s.plans plan)) [
              | inl missing ↦ absurd (ground (arith, e, missing))
              | inr (p, fp) ↦ elim (Option-cases (c.find (s.wallets plan) owner)) [
                | inl missing ↦ absurd (ground (arith, e, fp, missing))
                | inr (w, fw) ↦
                    let low = v.numbered plan p fp in
                    let sound =
                      RowsAreSound-lookup owner (c.entries (s.wallets plan)) w (v.sound plan)
                        (sym (c.find-entries (s.wallets plan) owner) ∙ fw) in
                    let (same, gone) = claim_conserves bank symbol c plan owner w s s' fw sound e in
                    Grown-Keeps plan (pos 0) s s' v (omega (arith, low, room))
                      (OnOk_apply (Keeps c plan s) r (claim-Keeps c plan owner s v.sound) e)
                      (same ∙ sym (+ℤ_zero (handed_out bank symbol c plan s)))
              ]
            ])

        pub claimall-Grown : (plan : ℕ) → OnOk (Grown (pos 0) s) (claimall c plan s)
        unfolding claimall
        claimall-Grown plan =
            let r = claimall c plan s in
            OnOk-intro (Grown (pos 0) s) r (λ s' e. elim (Option-cases (c.find s.plans plan)) [
              | inl missing ↦ absurd (ground (arith, e, missing))
              | inr (p, fp) ↦
                  let low = v.numbered plan p fp in
                  let (same, left) = claimall_conserves bank symbol c plan s s' (v.sound plan) e in
                  Grown-Keeps plan (pos 0) s s' v (omega (arith, low, room))
                    (OnOk_apply (Keeps c plan s) r (claimall-Keeps c plan s v.sound) e)
                    (same ∙ sym (+ℤ_zero (handed_out bank symbol c plan s)))
            ])

        pub addplan-Grown :
            (ctx : Context) (o : ℕ) (t : Text) (us : List SplitUnit) (k : SplitType)
            → OnOk (Grown (pos 0) s) (addplan c ctx o t us k s)
        unfolding addplan
        addplan-Grown ctx o t us k =
            OnOk-intro (Grown (pos 0) s) (addplan c ctx o t us k s) (λ s' e.
              let id = (s.global.last_plan_id + 1) % 2 ^ 64 in
              let next : id ≡ s.global.last_plan_id + 1 = omega (arith, room, wide) in
              let row : Plan = record {
                id = id;
                creator = o;
                split_conf = us;
                split_type = k;
                title = t;
                create_at = ctx.now / 1000000;
              } in
              elim (Option-cases (c.find s.plans id)) [
                | inr (taken, ft) ↦ absurd (ground (arith, e, ft))
                | inl free ↦
                    let s₁ : State c = record s {
                      plans = c.put s.plans id row;
                      global = record s.global { last_plan_id = id };
                    } in
                    let same : s₁ ≡ s' = ground (arith, e, free) in
                    let v₁ : Inv s₁ = record {
                      sound = v.sound;
                      numbered = λ j p g.
                          ground (arith, next, g, find-put c s.plans id row j, v.numbered j p);
                    } in
                    subst (Grown (pos 0) s) same (unmoved s s₁ v₁ (omega (arith, next)) refl refl)
              ])

      pub editplan-Grown :
          (s : State c)
          → Inv s
          → s.global.last_plan_id + 1 < n
          → (ctx : Context) (o plan : ℕ) (us : List SplitUnit) (k : SplitType)
          → OnOk (Grown (pos 0) s) (editplan c ctx o plan us k s)
      unfolding editplan
      editplan-Grown s v room ctx o plan us k = elim (Option-cases (c.find s.plans plan)) [
        | inl missing ↦ ground (arith, missing)
        | inr (p, fp) ↦
            let row : Plan = record p { split_conf = us; split_type = k } in
            let s₁ : State c = record s { plans = c.put s.plans plan row } in
            let v₁ : Inv s₁ = record {
              sound = v.sound;
              numbered = λ j q g.
                  ground
                    (arith, g, find-put c s.plans plan row j, v.numbered j q, v.numbered plan p fp);
            } in
            let edited : Grown (pos 0) s s₁ = unmoved s s₁ v₁ (omega arith) refl refl in
            let both : OnOk (Grown (pos 0) s) (claimall c plan s₁) =
              OnOk-map (Grown (pos 0) s₁) (Grown (pos 0) s) (claimall c plan s₁)
                (λ x g. (
                  g.0,
                  ground (arith, g.1),
                  g.2 ∙ ap (λ z. z +ℤ pos 0) (edited.2 ∙ +ℤ_zero (funds n s)),
                ))
                (claimall-Grown s₁ v₁ room plan) in
            ground (arith, fp, edited, both)
      ]
