-- ===== src/Split/Sound.antt =====
-- flon.split: a payment touches the wallets of its plan alone, and keeps all wallets sound.
use mathlib.Core.Path.{subst}
use mathlib.Core.List.{head?}
use toolkit_contracts.Base.{
  Bool-cases, List, OnOk, OnOk-bind, OnOk-map, Option-cases, [], arith, false, inl, inr, int_laws,
  leb_ℤ, ltb_ℤ, parts_of_eq, pos, refl, some, suc, sym, zero, ℕ, ℤ, ◌&&◌, ◌==◌, ◌∙◌, ◌∷◌, ◌≡◌, ◌≤ℤ◌,
}
use toolkit_contracts.Chain.{
  Asset, Chain, Context, Rows, add_asset-eq-some, insert, lookup, remove, sub_asset-eq-some,
}
use toolkit_contracts.Split.State.{
  Balance, Plan, SplitType, SplitUnit, State, Wallet, add_wallet, auto, credit, deliver, manual,
  set_wallets, wallet_or_new,
}
use toolkit_contracts.Split.Actions.{
  notify_share, pay_left_over, share_amount, split_loop, split_payment, split_share,
}
use toolkit_contracts.Split.Claims.{AreSound, RowsAreSound, drop}

RowsAreSound-insert :
    (k : ℕ) (w : Wallet) (m : Rows Wallet)
    → AreSound w.balances
    → RowsAreSound m
    → RowsAreSound (insert k w m)
RowsAreSound-insert k w [] h r = (h, tt)
RowsAreSound-insert k w ((j, u) ∷ m) h r = ground (arith, r, h, RowsAreSound-insert k w m h r.1)

pub RowsAreSound-remove : (k : ℕ) (m : Rows Wallet) → RowsAreSound m → RowsAreSound (remove k m)
RowsAreSound-remove k [] r = tt
RowsAreSound-remove k ((j, u) ∷ m) r = ground (arith, r, RowsAreSound-remove k m r.1)

pub RowsAreSound-drop : (n : ℕ) (m : Rows Wallet) → RowsAreSound m → RowsAreSound (drop n m)
RowsAreSound-drop zero m r = r
RowsAreSound-drop (suc n) [] r = tt
RowsAreSound-drop (suc n) ((j, u) ∷ m) r = RowsAreSound-drop n m r.1

pub RowsAreSound-lookup :
    (k : ℕ) (m : Rows Wallet) (w : Wallet)
    → RowsAreSound m
    → lookup k m ≡ some w
    → AreSound w.balances
RowsAreSound-lookup k [] w r e = cc
RowsAreSound-lookup k ((j, u) ∷ m) w r e = elim (Bool-cases (k == j)) [
  | inl here ↦
      let same : u ≡ w = ground (arith, here, e) in subst (λ x. AreSound x.balances) same r.0
  | inr later ↦ RowsAreSound-lookup k m w r.1 (ground (arith, later, e))
]

module _ (c : Chain) where
  -- The wallets of every plan are sound.
  abbrev pub AllSound : State c → Type 0
  AllSound s = (p : ℕ) → RowsAreSound (c.entries (s.wallets p))

  -- What a change of the wallets of one plan leaves alone.
  abbrev pub Frame : ℕ → State c → State c → Type 0
  Frame plan s s' =
      (s'.plans ≡ s.plans)
      × (s'.global ≡ s.global)
      × ((k : ℕ) → k == plan ≡ false → s'.wallets k ≡ s.wallets k)

  abbrev pub Keeps : ℕ → State c → State c → Type 0
  Keeps plan s s' = AllSound s' × Frame plan s s'

  pub Frame-trans : (plan : ℕ) (s t u : State c) → Frame plan s t → Frame plan t u → Frame plan s u
  Frame-trans plan s t u f g = (g.0 ∙ f.0, g.1 ∙ f.1, λ k e. g.2 k e ∙ f.2 k e)

  credit-AreSound :
      (contract : ℕ) (q : Asset) (bs bs' : List Balance)
      → pos 0 ≤ℤ q.amount
      → AreSound bs
      → credit c contract q bs ≡ some bs'
      → AreSound bs'
  unfolding credit
  credit-AreSound contract q [] bs' h r e = ground (arith, e, h)
  credit-AreSound contract q (b ∷ bs) bs' h r e =
      elim (Bool-cases (b.symbol == q.symbol && b.contract == contract)) [
        | inl here ↦ elim (Option-cases (c.add_asset b.quantity q)) [
          | inl over ↦ absurd (ground (arith, here, over, e))
          | inr (added, fs) ↦
              let law = add_asset-eq-some c b.quantity q added fs in
              let positive : pos 0 ≤ℤ added.amount = omega (int_laws, parts_of_eq law.0, r.1, h) in
              let same : record b { quantity = added } ∷ bs ≡ bs' = ground (arith, here, fs, e) in
              subst AreSound same (law.1 ∙ r.0, positive, r.2)
        ]
        | inr later ↦ elim (Option-cases (credit c contract q bs)) [
          | inl over ↦ absurd (ground (arith, later, over, e))
          | inr (rest, fr) ↦
              let same : b ∷ rest ≡ bs' = ground (arith, later, fr, e) in
              subst AreSound same (r.0, r.1, credit-AreSound contract q bs rest h r.2 fr)
        ]
      ]

  -- The table of one plan is replaced by a sound one.
  pub set_wallets-Keeps :
      (s : State c) (plan : ℕ) (t : c.Table Wallet)
      → AllSound s
      → RowsAreSound (c.entries t)
      → Keeps plan s (set_wallets c s plan t)
  set_wallets-Keeps s plan t h r = (
    λ p. elim (Bool-cases (p == plan)) [ inl here ↦ rw here r | inr other ↦ rw other (h p) ],
    (refl, refl, λ k e. rw e refl),
  )

  wallet_or_new-AreSound :
      (ctx : Context) (owner : ℕ) (t : c.Table Wallet)
      → RowsAreSound (c.entries t)
      → AreSound (wallet_or_new ctx owner (c.find t owner)).balances
  unfolding wallet_or_new
  wallet_or_new-AreSound ctx owner t r = elim (Option-cases (c.find t owner)) [
    | inl fresh ↦ rw fresh tt
    | inr (w, fw) ↦
        rw fw (RowsAreSound-lookup owner (c.entries t) w r (sym (c.find-entries t owner) ∙ fw))
  ]

  add_wallet-Keeps :
      (ctx : Context) (owner plan contract : ℕ) (q : Asset) (s : State c)
      → pos 0 ≤ℤ q.amount
      → AllSound s
      → OnOk (Keeps plan s) (add_wallet c ctx owner plan contract q s)
  unfolding add_wallet
  add_wallet-Keeps ctx owner plan contract q s h r =
      let t = s.wallets plan in
      let w = wallet_or_new ctx owner (c.find t owner) in
      elim (Option-cases (credit c contract q w.balances)) [
        | inl over ↦ rw over tt
        | inr (bs, cr) ↦
            let sound =
              credit-AreSound contract q w.balances bs h
                (wallet_or_new-AreSound ctx owner t (r plan)) cr in
            let w' : Wallet = record w { balances = bs; update_at = ctx.now } in
            rw cr (
              set_wallets-Keeps s plan (c.put t owner w') r (
                rw (c.entries-put t owner w')
                  (RowsAreSound-insert owner w' (c.entries t) sound (r plan))))
      ]

  deliver-Keeps :
      (ctx : Context) (kind : SplitType) (to plan contract : ℕ) (q : Asset) (s : State c)
      → pos 0 ≤ℤ q.amount
      → AllSound s
      → OnOk (Keeps plan s) (deliver c ctx kind to plan contract q s)
  unfolding deliver
  deliver-Keeps ctx auto to plan contract q s h r = (r, (refl, refl, λ k e. refl))
  deliver-Keeps ctx manual to plan contract q s h r = add_wallet-Keeps ctx to plan contract q s h r

  module _ (ctx : Context) (from plan : ℕ) (quant : Asset) (kind : SplitType) where
    abbrev pub KeepsPair : State c → Asset × State c → Type 0
    KeepsPair s (left, s') = Keeps plan s s' × (pos 0 ≤ℤ left.amount)

    split_share-Keeps :
        (u : SplitUnit) (tokens cur : Asset) (s : State c)
        → pos 0 ≤ℤ tokens.amount
        → AllSound s
        → OnOk (KeepsPair s) (split_share c ctx from plan quant kind u tokens (cur, s))
    unfolding notify_share split_share
    split_share-Keeps u tokens cur s h r =
        let noted = notify_share c ctx from plan quant u tokens s in
        elim (Bool-cases (leb_ℤ tokens.amount cur.amount)) [
          | inl enough ↦ rw enough (
              OnOk-bind (Keeps plan noted) (KeepsPair s)
                (deliver c ctx kind u.token_receiver plan ctx.first_receiver tokens noted) _
                (deliver-Keeps ctx kind u.token_receiver plan ctx.first_receiver tokens noted h r)
                (λ s' k. elim (Option-cases (c.sub_asset cur tokens)) [
                  | inl bad ↦ rw bad tt
                  | inr (left, fl) ↦
                      let law = sub_asset-eq-some c cur tokens left fl in
                      let positive : pos 0 ≤ℤ left.amount = grind (int_laws, law, enough) in
                      rw fl (k, positive)
                ]))
          | inr short ↦ rw short tt
        ]

    split_loop-Keeps :
        (us : List SplitUnit) (cur : Asset) (s : State c)
        → pos 0 ≤ℤ cur.amount
        → AllSound s
        → OnOk (KeepsPair s) (split_loop c ctx from plan quant kind us (cur, s))
    unfolding split_loop
    split_loop-Keeps [] cur s h r = ((r, (refl, refl, λ k e. refl)), h)
    split_loop-Keeps (u ∷ us) cur s h r =
        elim (Option-cases
          (c.make_asset (pos (share_amount quant.amount u.token_split_amount)) quant.symbol)) [
            | inl overflow ↦ rw overflow tt
            | inr (tokens, made) ↦ rw made (elim (Bool-cases (leb_ℤ tokens.amount (pos 0))) [
              | inl stop ↦ rw stop ((r, (refl, refl, λ k e. refl)), h)
              | inr more ↦ rw more (
                  OnOk-bind (KeepsPair s) (KeepsPair s)
                    (split_share c ctx from plan quant kind u tokens (cur, s))
                    (split_loop c ctx from plan quant kind us)
                    (split_share-Keeps u tokens cur s (ground (arith, more)) r)
                    (λ (cur', s') k.
                      OnOk-map (KeepsPair s') (KeepsPair s)
                        (split_loop c ctx from plan quant kind us (cur', s'))
                        (λ x k'. ((k'.0.0, Frame-trans plan s s' x.1 k.0.1 k'.0.1), k'.1))
                        (split_loop-Keeps us cur' s' k.1 k.0.0)))
            ])
          ]

  pay_left_over-Keeps :
      (ctx : Context) (plan : ℕ) (p : Plan) (left : Asset) (s : State c)
      → pos 0 ≤ℤ left.amount
      → AllSound s
      → OnOk (Keeps plan s) (pay_left_over c ctx plan p (left, s))
  unfolding pay_left_over
  pay_left_over-Keeps ctx plan p left s h r = elim (Option-cases (head? p.split_conf)) [
    | inl nobody ↦ rw nobody tt
    | inr (u, first) ↦ rw first (elim (Bool-cases (ltb_ℤ (pos 0) left.amount)) [
      | inl some_left ↦
          rw some_left
            (deliver-Keeps ctx p.split_type u.token_receiver plan ctx.first_receiver left s h r)
      | inr none_left ↦ rw none_left (r, (refl, refl, λ k e. refl))
    ])
  ]

  pub split_payment-Keeps :
      (ctx : Context) (from plan : ℕ) (quant : Asset) (boost : ℤ) (s : State c)
      → pos 0 ≤ℤ quant.amount
      → AllSound s
      → OnOk (Keeps plan s) (split_payment c ctx from plan quant boost s)
  unfolding split_payment
  split_payment-Keeps ctx from plan quant boost s h r = elim (Option-cases (c.find s.plans plan)) [
    | inl missing ↦ rw missing tt
    | inr (p, found) ↦ rw found (
        OnOk-bind (KeepsPair ctx from plan quant p.split_type s) (Keeps plan s)
          (split_loop c ctx from plan quant p.split_type p.split_conf (quant, s))
          (pay_left_over c ctx plan p)
          (split_loop-Keeps ctx from plan quant p.split_type p.split_conf quant s h r)
          (λ (left, s') k.
            OnOk-map (Keeps plan s') (Keeps plan s) (pay_left_over c ctx plan p (left, s'))
              (λ x k'. (k'.0, Frame-trans plan s s' x k.0.1 k'.1))
              (pay_left_over-Keeps ctx plan p left s' k.1 k.0.0)))
  ]
