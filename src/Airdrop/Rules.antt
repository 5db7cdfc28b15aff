-- ===== src/Airdrop/Rules.antt =====
-- flon.airdrop: histories of calls, and what holds of every plan after any.
use toolkit_contracts.Base.{
  List, OnOk, OnOk_apply, Option, Option-cases, Result, Result-cases, Text, [], after, after_holds,
  arith, inl, inr, int_laws, leb, leb_ℤ, ltb_ℤ, none, pos, some, true, ℕ, ◌%◌, ◌+◌, ◌<ℤ◌, ◌==◌, ◌^◌,
  ◌∙◌, ◌∷◌, ◌≡◌, ◌≤ℤ◌, ◌≤◌,
}
use toolkit_contracts.Chain.{
  Asset, Chain, Context, Transfer, emplace, find-erase, find-put, sub_asset-eq-some,
}
use toolkit_contracts.Airdrop.State.{ClaimConf, Error, Plan, State, erase_conf, set_conf, value_or}
use toolkit_contracts.Airdrop.Actions.{
  addoracle, addplan, addtoken, claim, claim_loop, claim_quant, delclaim, deloracle, delplan,
  deltoken, init, setclaim, setplan,
}

pub data Call : Type 0 where
  init_call : ℕ → List ℕ → Call
  addoracle_call deloracle_call delplan_call : ℕ → Call
  addtoken_call deltoken_call : ℕ → ℕ → Call
  addplan_call : Text → ℕ → ℕ → Call
  setclaim_call : ℕ → ℕ → ℕ → Asset → Asset → Call
  delclaim_call : ℕ → ℕ → ℕ → Call
  setplan_call : ℕ → Option Text → Option ℕ → Option ℕ → Call
  claim_call : ℕ → ℕ → ℕ → Call

-- Each claim pays something of an entry, and no more than is left of it.
pub record IsGood (e : ClaimConf) : Type 0 where
  pub same_symbol : e.single_claim.symbol ≡ e.symbol
  pub same_available : e.available.symbol ≡ e.symbol
  pub positive : pos 0 <ℤ e.single_claim.amount
  pub covered : pos 0 ≤ℤ e.available.amount

abbrev pub AllGood : List ClaimConf → Type 0
AllGood [] = Unit {0}
AllGood (e ∷ es) = IsGood e × AllGood es

pub record IsSound (p : Plan) : Type 0 where
  pub window : p.plan_started_at ≤ p.plan_ended_at
  pub confs : AllGood p.claims

set_conf-AllGood :
    (e : ClaimConf) (es : List ClaimConf) → IsGood e → AllGood es → AllGood (set_conf e es)
unfolding set_conf
set_conf-AllGood e [] g h = (g, tt)
set_conf-AllGood e (x ∷ es) g h = let rest = set_conf-AllGood e es g h.1 in ground (arith, rest)

erase_conf-AllGood :
    (raw contract : ℕ) (es : List ClaimConf) → AllGood es → AllGood (erase_conf raw contract es)
unfolding erase_conf
erase_conf-AllGood raw contract [] h = tt
erase_conf-AllGood raw contract (x ∷ es) h =
    let rest = erase_conf-AllGood raw contract es h.1 in ground (arith, rest)

module _ (c : Chain) where
  unfoldable pub call : Context → Call → State c → Result Error (State c)
  unfolding init addoracle deloracle addtoken deltoken addplan setclaim delclaim setplan delplan
      claim
  call ctx (init_call a os) = init c ctx a os
  call ctx (addoracle_call o) = addoracle c ctx o
  call ctx (deloracle_call o) = deloracle c ctx o
  call ctx (delplan_call k) = delplan c ctx k
  call ctx (addtoken_call b r) = addtoken c ctx b r
  call ctx (deltoken_call b r) = deltoken c ctx b r
  call ctx (addplan_call t a b) = addplan c ctx t a b
  call ctx (setclaim_call k r b one all) = setclaim c ctx k r b one all
  call ctx (delclaim_call k r b) = delclaim c ctx k r b
  call ctx (setplan_call k t a b) = setplan c ctx k t a b
  call ctx (claim_call k o b) = claim c ctx k o b

  unfoldable pub run : List (Context × Call) → State c → State c
  unfolding call
  run [] s = s
  run ((ctx, a) ∷ rest) s = run rest (after s (call ctx a s))

  abbrev pub SoundRow : Option Plan → Type 0
  SoundRow none = Unit {0}
  SoundRow (some p) = IsSound p

  abbrev pub SoundAt : ℕ → State c → Type 0
  SoundAt j s = SoundRow (c.find s.plans j)

  SoundAt-found :
      (k : ℕ) (s : State c) (p : Plan) → SoundAt k s → c.find s.plans k ≡ some p → IsSound p
  SoundAt-found k s p h e = rw e at h

  put-SoundRow :
      (j k : ℕ) (p : Plan) (t : c.Table Plan)
      → IsSound p
      → SoundRow (c.find t j)
      → SoundRow (c.find (c.put t k p) j)
  put-SoundRow j k p t h all = rw (find-put c t k p j) (ground arith)

  erase-SoundRow :
      (j k : ℕ) (t : c.Table Plan) → SoundRow (c.find t j) → SoundRow (c.find (c.erase t k) j)
  erase-SoundRow j k t h = rw (find-erase c t k j) (ground arith)

  paid_conf :
      (e : ClaimConf) (a : Asset)
      → IsGood e
      → c.sub_asset e.available (claim_quant e) ≡ some a
      → IsGood (record e { available = a })
  unfolding claim_quant
  paid_conf e a g sub =
      let law = sub_asset-eq-some c e.available (claim_quant e) a sub in
      record {
        same_symbol = g.same_symbol;
        same_available = law.1 ∙ g.same_available;
        positive = g.positive;
        covered = grind (int_laws, law, g.covered, g.positive);
      }

  claim_loop-AllGood :
      (beneficiary : ℕ) (es : List ClaimConf) (sent : List Transfer)
      → AllGood es
      → OnOk (λ r. AllGood r.0) (claim_loop c beneficiary es sent)
  unfolding claim_loop
  claim_loop-AllGood beneficiary [] sent h = tt
  claim_loop-AllGood beneficiary (e ∷ es) sent h =
      elim (Option-cases (c.sub_asset e.available (claim_quant e))) [
        | inl trap ↦ ground arith
        | inr (a, sub) ↦
            let sent' : List Transfer =
              record { bank = e.contract; to = beneficiary; quantity = claim_quant e } ∷ sent in
            elim (Result-cases (claim_loop c beneficiary es sent')) [
              | inl (r, fr) ↦
                  let rest : AllGood r.0 =
                    OnOk_apply (λ r. AllGood r.0) (claim_loop c beneficiary es sent')
                      (claim_loop-AllGood beneficiary es sent' h.1) fr in
                  ground (arith, fr, rest, paid_conf e a h.0 sub)
              | inr (x, fx) ↦ ground arith
            ]
      ]

  module _ (j : ℕ) (ctx : Context) (s : State c) (all : (k : ℕ) → SoundAt k s) where
    addplan-SoundAt : (t : Text) (a b : ℕ) → OnOk (SoundAt j) (addplan c ctx t a b s)
    unfolding addplan emplace
    addplan-SoundAt t a b =
        let id : ℕ = (s.global.last_plan_id + 1) % 2 ^ 64 in
        let p : Plan = record {
          id = id;
          title = t;
          plan_started_at = a;
          plan_ended_at = b;
          claims = [];
          claimed_cnt = 0;
          created_at = ctx.now;
          updated_at = ctx.now;
        } in
        let sound = λ (h : leb a b ≡ true).
          put-SoundRow j id p s.plans (record { window = ground arith; confs = tt }) (all j) in
        ground (arith, sound)

    setclaim-SoundAt :
        (k r b : ℕ) (one most : Asset) → OnOk (SoundAt j) (setclaim c ctx k r b one most s)
    unfolding setclaim
    setclaim-SoundAt k r b one most = elim (Option-cases (c.find s.plans k)) [
      | inl missing ↦ ground arith
      | inr (p, fp) ↦
          let h = SoundAt-found k s p (all k) fp in
          let e : ClaimConf = record {
            symbol = r;
            contract = b;
            single_claim = one;
            available = most;
          } in
          let sound =
            λ (same : one.symbol == r ≡ true) (both : one.symbol == most.symbol ≡ true)
                (some_paid : ltb_ℤ (pos 0) one.amount ≡ true)
                (enough : leb_ℤ one.amount most.amount ≡ true).
              let good : IsGood e = record {
                same_symbol = ground arith;
                same_available = ground arith;
                positive = ground arith;
                covered = ground arith;
              } in
              put-SoundRow j k (record p { claims = set_conf e p.claims }) s.plans
                (record { window = h.window; confs = set_conf-AllGood e p.claims good h.confs })
                (all j) in
          ground (arith, sound)
    ]

    delclaim-SoundAt : (k r b : ℕ) → OnOk (SoundAt j) (delclaim c ctx k r b s)
    unfolding delclaim
    delclaim-SoundAt k r b = elim (Option-cases (c.find s.plans k)) [
      | inl missing ↦ ground arith
      | inr (p, fp) ↦
          let h = SoundAt-found k s p (all k) fp in
          ground (
            arith,
            put-SoundRow j k (record p { claims = erase_conf r b p.claims }) s.plans
                (record { window = h.window; confs = erase_conf-AllGood r b p.claims h.confs })
                (all j),
          )
    ]

    setplan-SoundAt :
        (k : ℕ) (t : Option Text) (a b : Option ℕ) → OnOk (SoundAt j) (setplan c ctx k t a b s)
    unfolding setplan
    setplan-SoundAt k t a b = elim (Option-cases (c.find s.plans k)) [
      | inl missing ↦ ground arith
      | inr (p, fp) ↦
          let h = SoundAt-found k s p (all k) fp in
          let started : ℕ = value_or p.plan_started_at a in
          let ended : ℕ = value_or p.plan_ended_at b in
          let sound = λ (w : leb started ended ≡ true).
            put-SoundRow j k
              (record p {
                title = value_or p.title t;
                plan_started_at = started;
                plan_ended_at = ended;
                updated_at = ctx.now;
              })
              s.plans (record { window = ground arith; confs = h.confs }) (all j) in
          ground (arith, sound)
    ]

    delplan-SoundAt : (k : ℕ) → OnOk (SoundAt j) (delplan c ctx k s)
    unfolding delplan
    delplan-SoundAt k = ground (arith, erase-SoundRow j k s.plans (all j))

    claim-SoundAt : (k o b : ℕ) → OnOk (SoundAt j) (claim c ctx k o b s)
    unfolding claim
    claim-SoundAt k o b = elim (Option-cases (c.find s.plans k)) [
      | inl missing ↦ ground arith
      | inr (p, fp) ↦ elim (Result-cases (claim_loop c b p.claims s.sent)) [
        | inl (r, fr) ↦
            let h = SoundAt-found k s p (all k) fp in
            let confs : AllGood r.0 =
              OnOk_apply (λ r. AllGood r.0) (claim_loop c b p.claims s.sent)
                (claim_loop-AllGood b p.claims s.sent h.confs) fr in
            ground (
              arith,
              fr,
              put-SoundRow j k
                  (record p {
                    claims = r.0;
                    claimed_cnt = (p.claimed_cnt + 1) % 2 ^ 64;
                    updated_at = ctx.now;
                  })
                  s.plans (record { window = h.window; confs = confs }) (all j),
            )
        | inr (x, fx) ↦ ground arith
      ]
    ]

    call-SoundAt : (a : Call) → OnOk (SoundAt j) (call ctx a s)
    unfolding call init addoracle deloracle addtoken deltoken
    call-SoundAt (init_call a os) = ground (arith, all j)
    call-SoundAt (addoracle_call o) = ground (arith, all j)
    call-SoundAt (deloracle_call o) = ground (arith, all j)
    call-SoundAt (delplan_call k) = delplan-SoundAt k
    call-SoundAt (addtoken_call b r) = ground (arith, all j)
    call-SoundAt (deltoken_call b r) = ground (arith, all j)
    call-SoundAt (addplan_call t a b) = addplan-SoundAt t a b
    call-SoundAt (setclaim_call k r b one most) = setclaim-SoundAt k r b one most
    call-SoundAt (delclaim_call k r b) = delclaim-SoundAt k r b
    call-SoundAt (setplan_call k t a b) = setplan-SoundAt k t a b
    call-SoundAt (claim_call k o b) = claim-SoundAt k o b

  -- After any history of calls, failed ones included, each plan of the table is sound if they all
  -- were at first: its window does not end before it starts, each of its entries names one symbol
  -- throughout, pays a positive amount per claim, and has an amount available that is not negative.
  pub run-IsSound :
      (calls : List (Context × Call)) (s : State c)
      → ((k : ℕ) → SoundAt k s)
      → (k : ℕ) → SoundAt k (run calls s)
  unfolding run
  run-IsSound [] s all = all
  run-IsSound ((ctx, a) ∷ rest) s all =
      run-IsSound rest (after s (call ctx a s))
        (λ k. after_holds (SoundAt k) s (call ctx a s) (all k) (call-SoundAt k ctx s all a))
