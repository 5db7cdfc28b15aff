-- ===== src/Vest/Escrow.antt =====
-- flon.vest: every action keeps the books of every plan.
use toolkit_contracts.Base.{
  ==_refl, Bool, Bool-cases, List, OnOk, Option-cases, Result-cases, Text, [], ap, arith, eq_ℤ,
  if◌then◌else◌, inl, inr, int_laws, none, parts_of_eq, pos, pos_part, refl, some, true, ℕ, ℤ,
  ℤ_antisym, ◌+ℤ◌, ◌-ℤ◌, ◌∷◌, ◌≡◌,
}
use toolkit_contracts.Chain.{Asset, Chain, Context, add_asset-eq-some, make_asset-eq-some, total}
use toolkit_contracts.Vest.State.{
  Issue, State, disabled, enabled, finished, fresh_key, is_finished, is_ongoing, ongoing, pending,
}
use toolkit_contracts.Vest.Actions.{
  addplan, asset_eq, delfinissues, enableplan, endissue, init, setfirstdays, setplanowner,
  setreceiver, total_unlocked, transissue, unlock, unlocked_days,
}
use toolkit_contracts.Vest.Transfers.{create_issue, paid_plan_id, pay_plan_fee}
use toolkit_contracts.Vest.Books.{
  Balanced, Books, IsSound, erase_issue-Books, locked_under, move_issue-total, part_issue-total,
  put_issue-total, put_new_issue-Books, put_new_plan-Books, put_plan-Books, settle-Books, shrink,
  unlock_sums,
}

module _ (c : Chain) where
  module _ (id : ℕ) (ctx : Context) (s : State c) (b : Books c id s) where
    pub init-Books :
        (admin : ℕ) (fee : Asset) (r : ℕ) → OnOk (Books c id) (init c ctx admin fee r s)
    unfolding init
    init-Books admin fee r = ground arith

    pub setreceiver-Books : (k r : ℕ) → OnOk (Books c id) (setreceiver c ctx k r s)
    unfolding setreceiver
    setreceiver-Books k r = elim (Option-cases (c.find s.issues k)) [
      | inl missing ↦ ground arith
      | inr (i, fi) ↦ ground (arith, put_issue-total c id k i (record i { receiver = r }) s fi refl)
    ]

    pub setfirstdays-Books : (k d : ℕ) → OnOk (Books c id) (setfirstdays c ctx k d s)
    unfolding setfirstdays
    setfirstdays-Books k d = elim (Option-cases (c.find s.issues k)) [
      | inl missing ↦ ground arith
      | inr (i, fi) ↦ ground (
        arith,
        put_issue-total c id k i (record i { first_unlock_days = d; updated_at = ctx.now }) s fi
            refl,
      )
    ]

    pub setplanowner-Books : (o k n : ℕ) → OnOk (Books c id) (setplanowner c ctx o k n s)
    unfolding setplanowner
    setplanowner-Books o k n = elim (Option-cases (c.find s.plans k)) [
      | inl missing ↦ ground arith
      | inr (p, fp) ↦ ground (
        arith,
        put_plan-Books c id k p (record p { owner = n; updated_at = ctx.now }) s fp refl refl refl
            b,
      )
    ]

    pub enableplan-Books : (o k : ℕ) (on : Bool) → OnOk (Books c id) (enableplan c ctx o k on s)
    unfolding enableplan
    enableplan-Books o k on = elim (Option-cases (c.find s.plans k)) [
      | inl missing ↦ ground arith
      | inr (p, fp) ↦ ground (
        arith,
        put_plan-Books c id k p
            (record p { status = if on then enabled else disabled; updated_at = ctx.now }) s fp refl
            refl refl b,
      )
    ]

    pub pay_plan_fee-Books :
        (from : ℕ) (q : Asset) (t : Text) → OnOk (Books c id) (pay_plan_fee c ctx from q t s)
    unfolding pay_plan_fee
    pay_plan_fee-Books from q t = elim (Result-cases (paid_plan_id c from t s)) [
      | inl (k, fk) ↦ elim (Option-cases (c.find s.plans k)) [
        | inl missing ↦ ground arith
        | inr (p, fp) ↦ ground (
          arith,
          put_plan-Books c id k p (record p { status = enabled; updated_at = ctx.now }) s fp refl
              refl refl b,
        )
      ]
      | inr (e, fe) ↦ ground arith
    ]

    pub endissue-Books :
        (plan issuer k : ℕ)
        → ((i : Issue) → c.find s.issues k ≡ some i → IsSound i)
        → OnOk (Books c id) (endissue c ctx plan issuer k s)
    unfolding endissue
    endissue-Books plan issuer k sound = elim (Option-cases (c.find s.issues k)) [
      | inl missing ↦ ground arith
      | inr (i, fi) ↦ elim (Option-cases (c.find s.plans plan)) [
        | inl missing ↦ ground arith
        | inr (p, fp) ↦ elim (Option-cases (c.add_asset p.total_refunded i.locked)) [
          | inl overflow ↦ ground arith
          | inr (r, fr) ↦
              let i' = record i { status = finished; updated_at = ctx.now } in
              let p' = record p { total_refunded = r; updated_at = ctx.now } in
              let law = add_asset-eq-some c p.total_refunded i.locked r fr in
              let step = λ (e : i.plan_id ≡ plan) (o : is_ongoing i.status ≡ true).
                settle-Books c id k plan p p' i i' s fp fi e e
                  (rw (e, ==_refl plan, o) (omega (int_laws, parts_of_eq law.0))) b in
              ground (arith, step, (sound i fi).used)
        ]
      ]
    ]

    pub transissue-Books :
        (from to k : ℕ) (q : Asset) → OnOk (Books c id) (transissue c ctx from to k q s)
    unfolding transissue
    transissue-Books from to k q = elim (Option-cases (c.find s.issues k)) [
      | inl missing ↦ ground arith
      | inr (i, fi) ↦ elim (Option-cases (c.make_asset (pos 0) q.symbol)) [
        | inl bad ↦ ground arith
        | inr (z, fz) ↦
            let n = fresh_key c s.issues in
            let new = record i {
              issue_id = n;
              receiver = to;
              issued = q;
              locked = q;
              unlocked = z;
              updated_at = ctx.now;
            } in
            let i' = record i {
              issued = record i.issued { amount = i.issued.amount -ℤ q.amount };
              locked = record i.locked { amount = i.locked.amount -ℤ q.amount };
              updated_at = ctx.now;
            } in
            elim (Option-cases (c.find s.issues n)) [
              | inl fn ↦ ground (
                arith,
                part_issue-total c id n k s.issues new i fn fi i' (shrink id i q),
                λ (e : q.amount ≡ i.locked.amount).
                    move_issue-total c id n k s.issues new i fn fi (rw e),
                ℤ_antisym q.amount i.locked.amount,
              )
              | inr (o, taken) ↦ ground arith
            ]
      ]
    ]

    pub unlock-Books :
        (issuer plan k : ℕ)
        → ((i : Issue) → c.find s.issues k ≡ some i → IsSound i)
        → OnOk (Books c id) (unlock c ctx issuer plan k s)
    unfolding unlock
    unlock-Books issuer plan k sound = elim (Option-cases (c.find s.issues k)) [
      | inl missing ↦ ground arith
      | inr (i, fi) ↦ elim (Option-cases (c.find s.plans plan)) [
        | inl missing ↦ ground arith
        | inr (p, fp) ↦
            elim (Result-cases (total_unlocked (pos_part (unlocked_days ctx.now i)) p i)) [
              | inr (e, fe) ↦ ground arith
              | inl (n, fn) ↦
                  elim (Option-cases (c.make_asset (n -ℤ i.unlocked.amount) p.asset_symbol)) [
                    | inl overflow ↦ ground arith
                    | inr (r, fr) ↦
                        let u = record i.unlocked { amount = n } in
                        let i' = record i {
                          unlocked = u;
                          locked = record i.locked { amount = i.issued.amount -ℤ n };
                          status = if asset_eq u i.issued then finished else i.status;
                          updated_at = ctx.now;
                        } in
                        let p' = record p {
                          total_unlocked = record p.total_unlocked {
                            amount = p.total_unlocked.amount +ℤ (n -ℤ i.unlocked.amount);
                          };
                          updated_at = ctx.now;
                        } in
                        let step = λ (e : i.plan_id ≡ plan) (o : is_ongoing i.status ≡ true).
                          settle-Books c id k plan p p' i i' s fp fi e e
                            (unlock_sums plan i n p _ e o ((sound i fi).parts o) (ground arith))
                            b in
                        ground (arith, step)
                  ]
            ]
      ]
    ]

    pub create_issue-Books :
        (from : ℕ) (q : Asset) (r plan d : ℕ)
        → OnOk (Books c id) (create_issue c ctx from q r plan d s)
    unfolding create_issue
    create_issue-Books from q r plan d = elim (Option-cases (c.find s.plans plan)) [
      | inl missing ↦ ground arith
      | inr (p, fp) ↦ elim (Option-cases (c.add_asset p.total_issued q)) [
        | inl overflow ↦ ground arith
        | inr (t, ft) ↦ elim (Option-cases (c.make_asset (pos 0) q.symbol)) [
          | inl bad ↦ ground arith
          | inr (z, fz) ↦ elim (Option-cases (c.find s.issues (fresh_key c s.issues))) [
            | inl fn ↦
                let i : Issue = record {
                  issue_id = fresh_key c s.issues;
                  plan_id = plan;
                  issuer = from;
                  receiver = r;
                  issued = q;
                  locked = q;
                  unlocked = z;
                  first_unlock_days = d;
                  unlock_interval_days = p.unlock_interval_days;
                  unlock_times = p.unlock_times;
                  status = ongoing;
                  issued_at = ctx.now;
                  updated_at = ctx.now;
                } in
                let law = add_asset-eq-some c p.total_issued q t ft in
                ground (
                  arith,
                  put_new_issue-Books c id (fresh_key c s.issues) plan p
                      (record p { total_issued = t; updated_at = ctx.now }) i s fp fn refl
                      (rw (==_refl plan) (omega (int_laws, parts_of_eq law.0))) b,
                )
            | inr (o, taken) ↦ ground arith
          ]
        ]
      ]
    ]

    pub addplan-Books :
        (o : ℕ) (t : Text) (a y v : ℕ) (n : ℤ) → OnOk (Books c id) (addplan c ctx o t a y v n s)
    unfolding addplan
    addplan-Books o t a y v n = elim (Option-cases (c.make_asset (pos 0) y)) [
      | inl bad ↦ ground arith
      | inr (z, fz) ↦ elim (Option-cases (c.find s.plans (fresh_key c s.plans))) [
        | inl fn ↦
            let zero_amount = ap (λ (r : Asset). r.amount) (make_asset-eq-some c (pos 0) y z fz) in
            ground (arith, new_plan z zero_amount fn)
        | inr (p, taken) ↦ ground arith
      ]
    ]
      where
        new_plan :
            (z : Asset)
            → z.amount ≡ pos 0
            → c.find s.plans (fresh_key c s.plans) ≡ none
            → Balanced
                (c.find
                  (c.put s.plans (fresh_key c s.plans) (record {
                    id = fresh_key c s.plans;
                    owner = o;
                    title = t;
                    asset_contract = a;
                    asset_symbol = y;
                    unlock_interval_days = v;
                    unlock_times = pos_part n;
                    total_issued = z;
                    total_unlocked = z;
                    total_refunded = z;
                    status = if eq_ℤ s.global.plan_fee.amount (pos 0) then enabled else pending;
                    created_at = ctx.now;
                    updated_at = ctx.now;
                  }))
                  id)
                (total c (locked_under id) s.issues)
        new_plan z e fn = put_new_plan-Books c id (fresh_key c s.plans) _ s fn e e e b

  pub delfinissues-Books :
      (id : ℕ) (ks : List ℕ) (s : State c) → Books c id s → OnOk (Books c id) (delfinissues c ks s)
  unfolding delfinissues
  delfinissues-Books id [] s b = b
  delfinissues-Books id (k ∷ ks) s b = elim (Option-cases (c.find s.issues k)) [
    | inl missing ↦ ground arith
    | inr (i, fi) ↦ elim (Bool-cases (is_finished i.status)) [
      | inl done ↦
          rw (fi, done) (delfinissues-Books id ks _ (erase_issue-Books c id k i s fi done b))
      | inr running ↦ rw (fi, running) tt
    ]
  ]
