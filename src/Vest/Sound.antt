-- ===== src/Vest/Sound.antt =====
-- flon.vest: every issue is locked or unlocked in full while it runs.
use toolkit_contracts.Base.{
  Bool-cases, List, OnOk, Option, Option-cases, Result-cases, [], ap, arith, if◌then◌else◌, inl,
  inr, int_laws, none, parts_of_eq, pos, pos_part, refl, some, ℕ, ◌-ℤ◌, ◌==◌, ◌∷◌, ◌≡◌,
}
use toolkit_contracts.Chain.{Asset, Chain, Context, find-erase, find-put, make_asset-eq-some}
use toolkit_contracts.Vest.State.{Issue, State, finished, fresh_key, ongoing}
use toolkit_contracts.Vest.Actions.{
  asset_eq, delfinissues, endissue, setfirstdays, setreceiver, total_unlocked, transissue, unlock,
  unlocked_days,
}
use toolkit_contracts.Vest.Transfers.{create_issue}
use toolkit_contracts.Vest.Books.{IsSound}

abbrev pub SoundRow : Option Issue → Type 0
SoundRow none = Unit {0}
SoundRow (some i) = IsSound i

module _ (c : Chain) where
  abbrev pub SoundAt : ℕ → State c → Type 0
  SoundAt j s = SoundRow (c.find s.issues j)

  pub SoundAt-found :
      (k : ℕ) (s : State c) (i : Issue) → SoundAt k s → c.find s.issues k ≡ some i → IsSound i
  SoundAt-found k s i h e = rw e at h

  put-SoundRow :
      (j k : ℕ) (i : Issue) (t : c.Table Issue)
      → IsSound i
      → SoundRow (c.find t j)
      → SoundRow (c.find (c.put t k i) j)
  put-SoundRow j k i t h r = elim (Bool-cases (k == j)) [
    | inl same ↦ rw (find-put c t k i j, same) h
    | inr other ↦ rw (find-put c t k i j, other) r
  ]

  erase-SoundRow :
      (j k : ℕ) (t : c.Table Issue) → SoundRow (c.find t j) → SoundRow (c.find (c.erase t k) j)
  erase-SoundRow j k t r = elim (Bool-cases (k == j)) [
    | inl same ↦ rw (find-erase c t k j, same) tt
    | inr other ↦ rw (find-erase c t k j, other) r
  ]

  module _ (j : ℕ) (ctx : Context) (s : State c) (all : (k : ℕ) → SoundAt k s) where
    pub setreceiver-SoundAt : (k r : ℕ) → OnOk (SoundAt j) (setreceiver c ctx k r s)
    unfolding setreceiver
    setreceiver-SoundAt k r = elim (Option-cases (c.find s.issues k)) [
      | inl missing ↦ ground arith
      | inr (i, fi) ↦
          let h = SoundAt-found k s i (all k) fi in
          ground (
            arith,
            put-SoundRow j k (record i { receiver = r }) s.issues
                (record { parts = h.parts; used = h.used }) (all j),
          )
    ]

    pub setfirstdays-SoundAt : (k d : ℕ) → OnOk (SoundAt j) (setfirstdays c ctx k d s)
    unfolding setfirstdays
    setfirstdays-SoundAt k d = elim (Option-cases (c.find s.issues k)) [
      | inl missing ↦ ground arith
      | inr (i, fi) ↦
          let h = SoundAt-found k s i (all k) fi in
          ground (
            arith,
            put-SoundRow j k (record i { first_unlock_days = d; updated_at = ctx.now }) s.issues
                (record { parts = h.parts; used = h.used }) (all j),
          )
    ]

    pub endissue-SoundAt : (plan issuer k : ℕ) → OnOk (SoundAt j) (endissue c ctx plan issuer k s)
    unfolding endissue
    endissue-SoundAt plan issuer k = elim (Option-cases (c.find s.issues k)) [
      | inl missing ↦ ground arith
      | inr (i, fi) ↦
          let ended : IsSound (record i { status = finished; updated_at = ctx.now }) = record {
            parts = λ e. cc;
            used = refl;
          } in
          let kept = put-SoundRow j k _ s.issues ended (all j) in ground (arith, kept)
    ]

    pub unlock-SoundAt : (issuer plan k : ℕ) → OnOk (SoundAt j) (unlock c ctx issuer plan k s)
    unfolding unlock
    unlock-SoundAt issuer plan k = elim (Option-cases (c.find s.issues k)) [
      | inl missing ↦ ground arith
      | inr (i, fi) ↦ elim (Option-cases (c.find s.plans plan)) [
        | inl missing ↦ ground arith
        | inr (p, fp) ↦
            elim (Result-cases (total_unlocked (pos_part (unlocked_days ctx.now i)) p i)) [
              | inr (e, fe) ↦ ground arith
              | inl (n, fn) ↦
                  let u = record i.unlocked { amount = n } in
                  let after = record i {
                    unlocked = u;
                    locked = record i.locked { amount = i.issued.amount -ℤ n };
                    status = if asset_eq u i.issued then finished else i.status;
                    updated_at = ctx.now;
                  } in
                  let h = SoundAt-found k s i (all k) fi in
                  let ok_after : IsSound after = record {
                    parts = λ e. omega int_laws;
                    used = ground (arith, h.used);
                  } in
                  ground (arith, put-SoundRow j k after s.issues ok_after (all j))
            ]
      ]
    ]

    pub transissue-SoundAt :
        (from to k : ℕ) (q : Asset) → OnOk (SoundAt j) (transissue c ctx from to k q s)
    unfolding transissue
    transissue-SoundAt from to k q = elim (Option-cases (c.find s.issues k)) [
      | inl missing ↦ ground arith
      | inr (i, fi) ↦ elim (Option-cases (c.make_asset (pos 0) q.symbol)) [
        | inl bad ↦ ground arith
        | inr (z, fz) ↦
            let n = fresh_key c s.issues in
            let new = record i {
              issue_id = n;
              receiver = to;
              issued = q;
              locked = q;
              unlocked = z;
              updated_at = ctx.now;
            } in
            let i' = record i {
              issued = record i.issued { amount = i.issued.amount -ℤ q.amount };
              locked = record i.locked { amount = i.locked.amount -ℤ q.amount };
              updated_at = ctx.now;
            } in
            let h = SoundAt-found k s i (all k) fi in
            let zero_amount =
              ap (λ (r : Asset). r.amount) (make_asset-eq-some c (pos 0) q.symbol z fz) in
            let new_sound : IsSound new = record {
              parts = λ e. omega (int_laws, parts_of_eq zero_amount);
              used = h.used;
            } in
            let old_sound : IsSound i' = record {
              parts = λ e. omega (int_laws, parts_of_eq (h.parts e));
              used = h.used;
            } in
            let beside = put-SoundRow j n new s.issues new_sound (all j) in
            ground (
              arith,
              put-SoundRow j k i' (c.put s.issues n new) old_sound beside,
              erase-SoundRow j k (c.put s.issues n new) beside,
            )
      ]
    ]

    pub create_issue-SoundAt :
        (from : ℕ) (q : Asset) (r plan d : ℕ)
        → OnOk (SoundAt j) (create_issue c ctx from q r plan d s)
    unfolding create_issue
    create_issue-SoundAt from q r plan d = elim (Option-cases (c.find s.plans plan)) [
      | inl missing ↦ ground arith
      | inr (p, fp) ↦ elim (Option-cases (c.make_asset (pos 0) q.symbol)) [
        | inl bad ↦ ground arith
        | inr (z, fz) ↦
            let zero_amount =
              ap (λ (a : Asset). a.amount) (make_asset-eq-some c (pos 0) q.symbol z fz) in
            let i : Issue = record {
              issue_id = fresh_key c s.issues;
              plan_id = plan;
              issuer = from;
              receiver = r;
              issued = q;
              locked = q;
              unlocked = z;
              first_unlock_days = d;
              unlock_interval_days = p.unlock_interval_days;
              unlock_times = p.unlock_times;
              status = ongoing;
              issued_at = ctx.now;
              updated_at = ctx.now;
            } in
            let new_sound : IsSound i = record {
              parts = λ e. omega (int_laws, parts_of_eq zero_amount);
              used = refl;
            } in
            ground (arith, put-SoundRow j (fresh_key c s.issues) i s.issues new_sound (all j))
      ]
    ]

  pub delfinissues-SoundAt :
      (j : ℕ) (ks : List ℕ) (s : State c) → SoundAt j s → OnOk (SoundAt j) (delfinissues c ks s)
  unfolding delfinissues
  delfinissues-SoundAt j [] s h = h
  delfinissues-SoundAt j (k ∷ ks) s h = ground (
    arith,
    delfinissues-SoundAt j ks (record s { issues = c.erase s.issues k })
        (erase-SoundRow j k s.issues h),
  )
