-- ===== src/Split/Conserve.antt =====
-- flon.split: no token is lost or made up when a payment is split or a wallet is claimed.
use mathlib.Core.List.{head?}
use toolkit_contracts.Base.{
  +ℤ_assoc, +ℤ_zero, ==_refl, >>=-eq-ok, Bool-cases, List, OnOk, OnOk-bind, OnOk-map, OnOk_apply,
  OnOk-intro, Option-cases, [], ap, arith, if◌then◌else◌, inl, inr, int_laws, leb_ℤ, ok,
  or_abort-eq-ok, pos, refl, some, sym, zero-+ℤ, ℕ, ℤ, ◌&&◌, ◌+ℤ◌, ◌==◌, ◌∙◌, ◌∷◌, ◌≡◌, ◌≤ℤ◌,
}
use toolkit_contracts.Chain.{
  Asset, Chain, Context, sent_value, total, total-put, total-put_new, weigh,
}
use toolkit_contracts.Split.State.{
  Balance, Plan, SplitType, SplitUnit, State, Wallet, add_wallet, auto, credit, deliver, manual,
  platform, set_wallets, wallet_or_new,
}
use toolkit_contracts.Split.Actions.{
  notify_share, pay_left_over, share_amount, split_loop, split_payment, split_share,
}

module _ (bank symbol : ℕ) where
  -- What a wallet's entries hold of one token.
  abbrev pub entry_value : Balance → ℤ
  entry_value b = if b.contract == bank && b.symbol == symbol then b.quantity.amount else pos 0

  abbrev pub balances_value : List Balance → ℤ
  balances_value [] = pos 0
  balances_value (b ∷ bs) = entry_value b +ℤ balances_value bs

  abbrev pub wallet_value : Wallet → ℤ
  wallet_value w = balances_value w.balances

  -- What has left the contract of one token, or waits in the wallets of one plan.
  abbrev pub handed_out : (c : Chain) → ℕ → State c → ℤ
  handed_out c plan s = sent_value bank symbol s.sent +ℤ total c wallet_value (s.wallets plan)

  module _ (c : Chain) where
    credit-value :
        (contract : ℕ) (q : Asset) (bs bs' : List Balance)
        → credit c contract q bs ≡ some bs'
        → balances_value bs' ≡ balances_value bs +ℤ weigh bank symbol contract q
    unfolding credit
    credit-value contract q [] bs' e =
        ground
          (arith, zero-+ℤ (weigh bank symbol contract q), +ℤ_zero (weigh bank symbol contract q))
    credit-value contract q (b ∷ bs) bs' e = elim (Option-cases (credit c contract q bs)) [
      | inl f ↦ grind (int_laws, c.add_asset_lem b.quantity q)
      | inr (r, f) ↦ grind (int_laws, c.add_asset_lem b.quantity q, credit-value contract q bs r f)
    ]

    add_wallet-ok :
        (ctx : Context) (owner plan contract : ℕ) (q : Asset) (s s' : State c)
        → add_wallet c ctx owner plan contract q s ≡ ok s'
        → let w = wallet_or_new ctx owner (c.find (s.wallets plan) owner) in
          (bs : List Balance) × (credit c contract q w.balances ≡ some bs)
          × (s'
              ≡ set_wallets c s plan
                  (c.put (s.wallets plan) owner (record w { balances = bs; update_at = ctx.now })))
    unfolding add_wallet
    add_wallet-ok ctx owner plan contract q s s' e =
        let (bs, h, f) = >>=-eq-ok _ _ e in (bs, or_abort-eq-ok _ platform h, cc)

    put-value :
        (ctx : Context) (owner : ℕ) (t : c.Table Wallet) (w : Wallet) (v : ℤ)
        → wallet_value w ≡ wallet_value (wallet_or_new ctx owner (c.find t owner)) +ℤ v
        → total c wallet_value (c.put t owner w) ≡ total c wallet_value t +ℤ v
    unfolding wallet_or_new
    put-value ctx owner t w v h = elim (Option-cases (c.find t owner)) [
      | inl fresh ↦ grind (
        int_laws,
        total-put_new c t wallet_value owner w fresh,
        ap (λ o. wallet_value (wallet_or_new ctx owner o)) fresh,
      )
      | inr (u, old) ↦ grind (
        int_laws,
        total-put c t wallet_value owner w u old,
        ap (λ o. wallet_value (wallet_or_new ctx owner o)) old,
      )
    ]

    add_wallet-value :
        (ctx : Context) (owner plan contract : ℕ) (q : Asset) (s s' : State c)
        → add_wallet c ctx owner plan contract q s ≡ ok s'
        → handed_out c plan s' ≡ handed_out c plan s +ℤ weigh bank symbol contract q
    add_wallet-value ctx owner plan contract q s s' e =
        let (bs, cr, st) = add_wallet-ok ctx owner plan contract q s s' e in
        let w = wallet_or_new ctx owner (c.find (s.wallets plan) owner) in
        rw
          (
            st,
            ==_refl plan,
            put-value ctx owner (s.wallets plan) (record w { balances = bs; update_at = ctx.now })
                (weigh bank symbol contract q) (credit-value contract q w.balances bs cr),
          )
          (sym (+ℤ_assoc (sent_value bank symbol s.sent) _ _))

    deliver-value :
        (ctx : Context) (kind : SplitType) (to plan contract : ℕ) (q : Asset) (s s' : State c)
        → deliver c ctx kind to plan contract q s ≡ ok s'
        → handed_out c plan s' ≡ handed_out c plan s +ℤ weigh bank symbol contract q
    unfolding deliver
    deliver-value ctx auto to plan contract q s s' e = grind int_laws
    deliver-value ctx manual to plan contract q s s' e =
        add_wallet-value ctx to plan contract q s s' e

    sub-weigh :
        (contract : ℕ) (a b d : Asset)
        → c.sub_asset a b ≡ some d
        → weigh bank symbol contract d +ℤ weigh bank symbol contract b
          ≡ weigh bank symbol contract a
    sub-weigh contract a b d e = grind (int_laws, c.sub_asset_lem a b)

    module _ (ctx : Context) (from plan : ℕ) (quant : Asset) (kind : SplitType) where
      abbrev Balances : Asset → State c → Asset × State c → Type 0
      Balances cur s (left, s') =
          (handed_out c plan s' +ℤ weigh bank symbol ctx.first_receiver left
            ≡ handed_out c plan s +ℤ weigh bank symbol ctx.first_receiver cur)
          × (pos 0 ≤ℤ left.amount)

      split_share-value :
          (u : SplitUnit) (tokens cur : Asset) (s : State c)
          → OnOk (Balances cur s) (split_share c ctx from plan quant kind u tokens (cur, s))
      unfolding notify_share split_share
      split_share-value u tokens cur s =
          let noted = notify_share c ctx from plan quant u tokens s in
          grind (
            int_laws,
            c.sub_asset_lem cur tokens,
            sub-weigh ctx.first_receiver cur tokens,
            OnOk-intro _ _
                (deliver-value ctx kind u.token_receiver plan ctx.first_receiver tokens noted),
          )

      split_loop-value :
          (us : List SplitUnit) (cur : Asset) (s : State c)
          → pos 0 ≤ℤ cur.amount
          → OnOk (Balances cur s) (split_loop c ctx from plan quant kind us (cur, s))
      unfolding split_loop
      split_loop-value [] cur s h = (refl, h)
      split_loop-value (u ∷ us) cur s h =
          let turn = λ (tokens : Asset).
            OnOk-bind (Balances cur s) (Balances cur s)
              (split_share c ctx from plan quant kind u tokens (cur, s))
              (split_loop c ctx from plan quant kind us) (split_share-value u tokens cur s)
              (λ (cur', s') b.
                OnOk-map (Balances cur' s') (Balances cur s)
                  (split_loop c ctx from plan quant kind us (cur', s')) (λ r b'. (b'.0 ∙ b.0, b'.1))
                  (split_loop-value us cur' s' b.1)) in
          elim (Option-cases
            (c.make_asset (pos (share_amount quant.amount u.token_split_amount)) quant.symbol)) [
              | inl overflow ↦ rw overflow tt
              | inr (tokens, made) ↦ rw made (elim (Bool-cases (leb_ℤ tokens.amount (pos 0))) [
                | inl stop ↦ rw stop (refl, h)
                | inr more ↦ rw more (turn tokens)
              ])
            ]

    module _ (ctx : Context) (plan : ℕ) where
      pay_left_over-value :
          (p : Plan) (left : Asset) (s : State c)
          → pos 0 ≤ℤ left.amount
          → OnOk
              (λ s'.
                handed_out c plan s'
                ≡ handed_out c plan s +ℤ weigh bank symbol ctx.first_receiver left)
              (pay_left_over c ctx plan p (left, s))
      unfolding pay_left_over
      pay_left_over-value p left s h = elim (Option-cases (head? p.split_conf)) [
        | inl nobody ↦ rw nobody tt
        | inr (u, first) ↦ rw first (
            grind (
              int_laws,
              OnOk-intro _ _
                  (deliver-value ctx p.split_type u.token_receiver plan ctx.first_receiver left s),
            ))
      ]

    -- A payment of an amount that is not negative is handed out in full where the split succeeds:
    -- what has left the contract, and what waits in the wallets of the plan, has grown by the whole
    -- payment in its own token, and by nothing in any other, whatever the plan's shares round to.
    pub split_payment_conserves :
        (ctx : Context) (from plan : ℕ) (quant : Asset) (boost : ℤ) (s s' : State c)
        → pos 0 ≤ℤ quant.amount
        → split_payment c ctx from plan quant boost s ≡ ok s'
        → handed_out c plan s' ≡ handed_out c plan s +ℤ weigh bank symbol ctx.first_receiver quant
    unfolding split_payment
    split_payment_conserves ctx from plan quant boost s s' h =
        OnOk_apply Q (split_payment c ctx from plan quant boost s) all
      where
        Q : State c → Type 0
        Q s' =
            handed_out c plan s' ≡ handed_out c plan s +ℤ weigh bank symbol ctx.first_receiver quant

        all : OnOk Q (split_payment c ctx from plan quant boost s)
        all = elim (Option-cases (c.find s.plans plan)) [
          | inl missing ↦ rw missing tt
          | inr (p, found) ↦ rw found (
              OnOk-bind (Balances ctx from plan quant p.split_type quant s) Q
                (split_loop c ctx from plan quant p.split_type p.split_conf (quant, s))
                (pay_left_over c ctx plan p)
                (split_loop-value ctx from plan quant p.split_type p.split_conf quant s h)
                (λ (left, s₁) b.
                  OnOk-map _ Q (pay_left_over c ctx plan p (left, s₁)) (λ s₂ e. e ∙ b.0)
                    (pay_left_over-value ctx plan p left s₁ b.1)))
        ]
