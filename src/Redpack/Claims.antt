-- ===== src/Redpack/Claims.antt =====
-- flon.redpack: what a claim does, and that a claimer gets one share of a packet.
use toolkit_contracts.Base.{
  List, OnOk, OnOk-map, OnOk_apply, Option-cases, Text, [], arith, false, if◌then◌else◌, inl, inr,
  int_laws, ltb, none, ok, refl, some, sym, true, ℕ, ℤ, ◌%◌, ◌&&◌, ◌+ℤ◌, ◌+◌, ◌-◌, ◌==◌, ◌^◌, ◌∙◌,
  ◌∷◌, ◌≡◌, ◌≤ℤ◌,
}
use toolkit_contracts.Chain.{
  Asset, Chain, Context, Rows, find-put, insert, lookup, sub_asset-eq-some,
}
use toolkit_contracts.Redpack.State.{
  Claim, Redpack, State, Status, created, finished, has_claim, is_finished, is_servicing, servicing,
}
use toolkit_contracts.Redpack.Assign.{share_of}
use toolkit_contracts.Redpack.Actions.{claimredpack, pay_claim}

has_claim-insert :
    (claimer code k : ℕ) (v : Claim) (rows : Rows Claim)
    → (v.claimer == claimer && v.redpack_code == code) ≡ true
    → has_claim claimer code (insert k v rows) ≡ true
unfolding has_claim
has_claim-insert claimer code k v [] h = ground arith
has_claim-insert claimer code k v ((j, w) ∷ rows) h =
    let rest = has_claim-insert claimer code k v rows h in ground (arith, rest)

has_claim-insert_new :
    (claimer code k : ℕ) (v : Claim) (rows : Rows Claim)
    → lookup k rows ≡ none
    → has_claim claimer code rows ≡ true
    → has_claim claimer code (insert k v rows) ≡ true
unfolding has_claim
has_claim-insert_new claimer code k v [] free h = ground arith
has_claim-insert_new claimer code k v ((j, w) ∷ rows) free h =
    ground (arith, has_claim-insert_new claimer code k v rows)

not_finished : (x : Status) → is_servicing x ≡ true → is_finished x ≡ false
not_finished created h = cc
not_finished servicing h = refl
not_finished finished h = cc

module _ (c : Chain) where
  -- What a claim of `q` has made of the packet `r`, of the records and of what is sent.
  abbrev pub Paid : ℕ → ℕ → Redpack → Asset → State c → Redpack → State c → Type 0
  Paid claimer code r q s r' s' =
      (c.find s'.redpacks code ≡ some r')
      × (q.symbol ≡ r.remaining_quant.symbol)
      × (q.amount ≤ℤ r.remaining_quant.amount)
      × (r'.remaining_quant.amount +ℤ q.amount ≡ r.remaining_quant.amount)
      × (r'.remaining_count + 1 ≡ r.remaining_count)
      × (is_finished r'.status ≡ (r'.remaining_count == 0))
      × (s'.sent ≡ record { bank = r.token_contract; to = claimer; quantity = q } ∷ s.sent)
      × (has_claim claimer code (c.entries s'.claims) ≡ true)

  recorded :
      (claimer code k : ℕ) (v : Claim) (t : c.Table Claim)
      → (v.claimer == claimer && v.redpack_code == code) ≡ true
      → has_claim claimer code (c.entries (c.put t k v)) ≡ true
  recorded claimer code k v t h =
      rw (c.entries-put t k v) (has_claim-insert claimer code k v (c.entries t) h)

  pay_claim-Paid :
      (ctx : Context) (claimer code : ℕ) (r : Redpack) (q : Asset) (s : State c)
      → is_servicing r.status ≡ true
      → ltb 0 r.remaining_count ≡ true
      → OnOk
          (λ s'. (r' : Redpack) × Paid claimer code r q s r' s')
          (pay_claim c ctx claimer code r q s)
  unfolding pay_claim
  pay_claim-Paid ctx claimer code r q s live some_left =
      elim (Option-cases (c.sub_asset r.remaining_quant q)) [
        | inl short ↦ ground arith
        | inr (left, sub) ↦
            let law = sub_asset-eq-some c r.remaining_quant q left sub in
            let r' : Redpack = record r {
              remaining_quant = left;
              remaining_count = r.remaining_count - 1;
              status = if r.remaining_count == 1 then finished else r.status;
              updated_at = ctx.now;
            } in
            let back : left.amount +ℤ q.amount ≡ r.remaining_quant.amount = grind int_laws in
            OnOk-map (Paid claimer code r q s r')
              (λ s'. (r' : Redpack) × Paid claimer code r q s r' s')
              (pay_claim c ctx claimer code r q s) (λ s' p. (r', p))
              let id : ℕ = (s.globalidx.last_claim_id + 1) % 2 ^ 64 in
                let claim : Claim = record {
                  id = id;
                  redpack_id = r.redpack_id;
                  redpack_code = code;
                  redpack_creator = r.creator;
                  claimer = claimer;
                  quantity = q;
                  claimed_at = ctx.now;
                } in
                ground (
                  arith,
                  law,
                  back,
                  find-put c s.redpacks code r' code,
                  not_finished r.status live,
                  recorded claimer code id claim s.claims (ground arith),
                )
      ]

  pay_claim-recorded :
      (ctx : Context) (claimer code : ℕ) (r : Redpack) (q : Asset) (s : State c)
      → OnOk
          (λ s'. has_claim claimer code (c.entries s'.claims) ≡ true)
          (pay_claim c ctx claimer code r q s)
  unfolding pay_claim
  pay_claim-recorded ctx claimer code r q s =
      elim (Option-cases (c.sub_asset r.remaining_quant q)) [
        | inl short ↦ ground arith
        | inr (left, sub) ↦ ground (
          arith,
          recorded claimer code ((s.globalidx.last_claim_id + 1) % 2 ^ 64)
              (record {
                id = (s.globalidx.last_claim_id + 1) % 2 ^ 64;
                redpack_id = r.redpack_id;
                redpack_code = code;
                redpack_creator = r.creator;
                claimer = claimer;
                quantity = q;
                claimed_at = ctx.now;
              })
              s.claims (ground arith),
        )
      ]

  kept :
      (claimer code k : ℕ) (v : Claim) (t : c.Table Claim)
      → c.find t k ≡ none
      → has_claim claimer code (c.entries t) ≡ true
      → has_claim claimer code (c.entries (c.put t k v)) ≡ true
  kept claimer code k v t free h =
      rw (c.entries-put t k v)
        (has_claim-insert_new claimer code k v (c.entries t) (sym (c.find-entries t k) ∙ free) h)

  pay_claim-keeps :
      (ctx : Context) (claimer code claimer' code' : ℕ) (r : Redpack) (q : Asset) (s : State c)
      → has_claim claimer' code' (c.entries s.claims) ≡ true
      → OnOk
          (λ s'. has_claim claimer' code' (c.entries s'.claims) ≡ true)
          (pay_claim c ctx claimer code r q s)
  unfolding pay_claim
  pay_claim-keeps ctx claimer code claimer' code' r q s h =
      let id : ℕ = (s.globalidx.last_claim_id + 1) % 2 ^ 64 in
      let claim : Claim = record {
        id = id;
        redpack_id = r.redpack_id;
        redpack_code = code;
        redpack_creator = r.creator;
        claimer = claimer;
        quantity = q;
        claimed_at = ctx.now;
      } in
      elim (Option-cases (c.sub_asset r.remaining_quant q)) [
        | inl short ↦ ground arith
        | inr (left, sub) ↦ elim (Option-cases (c.find s.claims id)) [
          | inl free ↦ ground (arith, kept claimer' code' id claim s.claims free h)
          | inr (taken, ft) ↦ ground arith
        ]
      ]

  module _ (ctx : Context) (seed : ℕ) (dids : List (ℕ × ℤ)) (claimer code : ℕ) (hash : Text)
      (s : State c) where
    -- A claim that succeeds pays the claimer the share of the packet, in its symbol and at most
    -- what was left. The packet loses the share and one count, it is finished exactly when no count
    -- is left, and the claim is on record.
    pub claimredpack_pays :
        (s' : State c) (r : Redpack)
        → claimredpack c ctx seed dids claimer code hash s ≡ ok s'
        → c.find s.redpacks code ≡ some r
        → (q : Asset) × (share_of c seed r.assign_type r ≡ some q)
          × ((r' : Redpack) × Paid claimer code r q s r' s')
    unfolding claimredpack
    claimredpack_pays s' r e fr = elim (Option-cases (share_of c seed r.assign_type r)) [
      | inl trap ↦ ground arith
      | inr (q, fq) ↦ (
        q,
        fq,
        OnOk_apply (λ u. (r' : Redpack) × Paid claimer code r q s r' u)
            (pay_claim c ctx claimer code r q s) {a = s'}
            (pay_claim-Paid ctx claimer code r q s (ground arith) (ground arith)) (ground arith),
      )
    ]

    records :
        OnOk
          (λ u. has_claim claimer code (c.entries u.claims) ≡ true)
          (claimredpack c ctx seed dids claimer code hash s)
    unfolding claimredpack
    records = elim (Option-cases (c.find s.redpacks code)) [
      | inl none_found ↦ ground arith
      | inr (r, fr) ↦ elim (Option-cases (share_of c seed r.assign_type r)) [
        | inl trap ↦ ground arith
        | inr (q, fq) ↦ ground (arith, pay_claim-recorded ctx claimer code r q s)
      ]
    ]

    keeps :
        (claimer' code' : ℕ)
        → has_claim claimer' code' (c.entries s.claims) ≡ true
        → OnOk
            (λ u. has_claim claimer' code' (c.entries u.claims) ≡ true)
            (claimredpack c ctx seed dids claimer code hash s)
    unfolding claimredpack
    keeps claimer' code' h = elim (Option-cases (c.find s.redpacks code)) [
      | inl none_found ↦ ground arith
      | inr (r, fr) ↦ elim (Option-cases (share_of c seed r.assign_type r)) [
        | inl trap ↦ ground arith
        | inr (q, fq) ↦ ground (arith, pay_claim-keeps ctx claimer code claimer' code' r q s h)
      ]
    ]

    has_claim-blocks :
        has_claim claimer code (c.entries s.claims) ≡ true
        → (s' : State c) → ¬ (claimredpack c ctx seed dids claimer code hash s ≡ ok s')
    unfolding claimredpack
    has_claim-blocks h s' e = elim (Option-cases (c.find s.redpacks code)) [
      | inl none_found ↦ ground arith
      | inr (r, fr) ↦ ground arith
    ]

  -- A history of successful claims, by anybody, of any packets.
  pub data Claimed : State c → State c → Type 0 where
    no_more : {s : State c} → Claimed s s
    one_more :
        {s s' s'' : State c} (ctx : Context) (seed : ℕ) (dids : List (ℕ × ℤ)) (claimer code : ℕ)
        (hash : Text)
        → claimredpack c ctx seed dids claimer code hash s ≡ ok s'
        → Claimed s' s''
        → Claimed s s''

  Claimed-keeps :
      (claimer code : ℕ) (s s' : State c)
      → Claimed s s'
      → has_claim claimer code (c.entries s.claims) ≡ true
      → has_claim claimer code (c.entries s'.claims) ≡ true
  Claimed-keeps claimer code s s' no_more h = h
  Claimed-keeps claimer code s s' (one_more {s' = u} ctx seed dids claimer' code' hash e rest) h =
      Claimed-keeps claimer code u s' rest (
        OnOk_apply (λ u. has_claim claimer code (c.entries u.claims) ≡ true)
          (claimredpack c ctx seed dids claimer' code' hash s)
          (keeps ctx seed dids claimer' code' hash s claimer code h) e)

  -- After a claim that succeeds, and any history of successful claims of any packets since, the
  -- same claimer cannot claim the same packet again.
  pub claimredpack_once :
      (ctx ctx' : Context) (seed seed' : ℕ) (dids dids' : List (ℕ × ℤ)) (claimer code : ℕ)
      (hash hash' : Text) (s s' s'' t : State c)
      → claimredpack c ctx seed dids claimer code hash s ≡ ok s'
      → Claimed s' s''
      → ¬ (claimredpack c ctx' seed' dids' claimer code hash' s'' ≡ ok t)
  claimredpack_once ctx ctx' seed seed' dids dids' claimer code hash hash' s s' s'' t e h =
      has_claim-blocks ctx' seed' dids' claimer code hash' s''
        (Claimed-keeps claimer code s' s'' h (
          OnOk_apply (λ u. has_claim claimer code (c.entries u.claims) ≡ true)
            (claimredpack c ctx seed dids claimer code hash s)
            (records ctx seed dids claimer code hash s) e))
        t
