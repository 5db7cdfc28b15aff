-- ===== src/Applybp/Status.antt =====
-- flon.applybp: who decides on the status of a producer.
use toolkit_contracts.Base.{
  ==_iff, List, OnOk, OnOk-intro, Option, Option-cases, Result, [], after, after_holds, arith,
  false, inl, inr, length, none, refl, some, true, ℕ, ◌==◌, ◌||◌, ◌∙◌, ◌∷◌, ◌≡◌, ◌≤◌,
}
use toolkit_contracts.Chain.{Chain, Context, emplace, find-put}
use toolkit_contracts.Applybp.State.{
  Error, Producer, Profile, State, blank, disable, enable, max_logo_size, max_title_size,
}
use toolkit_contracts.Applybp.Actions.{
  addproducer, applybp, fill_profile, fill_status, init, set, set_producer, setstatus, updatebp,
}

-- The actions with their arguments, and the context of the call.
pub data Call : Type 0 where
  init_call : ℕ → Call
  applybp_call updatebp_call : ℕ → Profile → Call
  addproducer_call : ℕ → ℕ → Profile → Call
  setstatus_call : ℕ → ℕ → ℕ → Call

-- No call is signed by the contract or by an account.
abbrev pub Unsigned : ℕ → List (Context × Call) → Type 0
Unsigned admin [] = Unit {0}
Unsigned admin ((ctx, a) ∷ rest) =
    (ctx.has_auth ctx.self ≡ false) × (ctx.has_auth admin ≡ false) × Unsigned admin rest

-- A profile as `_set_producer` and `setstatus` leave it.
abbrev pub IsProducer : ℕ → Producer → Type 0
IsProducer k p =
    (p.owner ≡ k)
    × ((p.status == enable || p.status == disable) ≡ true)
    × (length p.logo_uri ≤ max_logo_size)
    × (length p.org_name ≤ max_title_size)
    × (length p.org_info ≤ max_title_size)
    × (length p.manifesto ≤ max_title_size)
    × (length p.issuance_plan ≤ max_title_size)
    × (length p.reward_shared_plan ≤ max_title_size)

-- The status of an account, where an account with no profile counts as disabled.
abbrev pub status_or_disable : Option Producer → ℕ
status_or_disable none = disable
status_or_disable (some p) = p.status

module _ (c : Chain) where
  unfoldable pub call : Context → Call → State c → Result Error (State c)
  unfolding init applybp updatebp addproducer setstatus
  call ctx (init_call admin) = init c ctx admin
  call ctx (applybp_call owner f) = applybp c ctx owner f
  call ctx (updatebp_call owner f) = updatebp c ctx owner f
  call ctx (addproducer_call submiter owner f) = addproducer c ctx submiter owner f
  call ctx (setstatus_call submiter owner status) = setstatus c ctx submiter owner status

  unfoldable pub run : List (Context × Call) → State c → State c
  unfolding call
  run [] s = s
  run ((ctx, a) ∷ rest) s = run rest (after s (call ctx a s))

  abbrev pub AreProducers : State c → Type 0
  AreProducers s = (k : ℕ) (p : Producer) → c.find s.producers k ≡ some p → IsProducer k p

  -- The status of every account, and the administrator.
  abbrev pub Keeps : State c → State c → Type 0
  Keeps s s' =
      ((k : ℕ)
        → status_or_disable (c.find s'.producers k) ≡ status_or_disable (c.find s.producers k))
      × (s'.global.admin ≡ s.global.admin)

  set_producer-AreProducers :
      (ctx : Context) (owner : ℕ) (f : Profile) (s : State c)
      → AreProducers s
      → OnOk AreProducers (set_producer c ctx owner f s)
  unfolding set_producer set fill_profile emplace
  set_producer-AreProducers ctx owner f s h =
      OnOk-intro AreProducers (set_producer c ctx owner f s) (λ s' e k p g.
        elim (Option-cases (c.find s.producers owner)) [
          | inl new ↦
              let row : Producer = fill_profile ctx owner f true blank in
              ground (arith, e, g, new, find-put c s.producers owner row k, h k p, ==_iff owner k)
          | inr (old, fo) ↦
              let row : Producer = fill_profile ctx owner f false old in
              ground (
                arith,
                e,
                g,
                fo,
                find-put c s.producers owner row k,
                h k p,
                h owner old fo,
                ==_iff owner k,
              )
        ])

  set_producer-Keeps :
      (ctx : Context) (owner : ℕ) (f : Profile) (s : State c)
      → OnOk (Keeps s) (set_producer c ctx owner f s)
  unfolding set_producer set fill_profile emplace
  set_producer-Keeps ctx owner f s = OnOk-intro (Keeps s) (set_producer c ctx owner f s) (λ s' e.
      elim (Option-cases (c.find s.producers owner)) [
        | inl new ↦
            let row : Producer = fill_profile ctx owner f true blank in
            (
              λ k. ground (arith, e, new, find-put c s.producers owner row k, ==_iff owner k),
              ground (arith, e, new),
            )
        | inr (old, fo) ↦
            let row : Producer = fill_profile ctx owner f false old in
            (
              λ k. ground (arith, e, fo, find-put c s.producers owner row k, ==_iff owner k),
              ground (arith, e, fo),
            )
      ])

  setstatus-AreProducers :
      (ctx : Context) (submiter owner status : ℕ) (s : State c)
      → AreProducers s
      → OnOk AreProducers (setstatus c ctx submiter owner status s)
  unfolding setstatus set fill_status
  setstatus-AreProducers ctx submiter owner status s h =
      OnOk-intro AreProducers (setstatus c ctx submiter owner status s) (λ s' e k p g.
        elim (Option-cases (c.find s.producers owner)) [
          | inl new ↦ ground (arith, e, new)
          | inr (old, fo) ↦
              let row : Producer = fill_status ctx owner status false old in
              ground (
                arith,
                e,
                g,
                fo,
                find-put c s.producers owner row k,
                h k p,
                h owner old fo,
                ==_iff owner k,
              )
        ])

  call-AreProducers :
      (ctx : Context) (a : Call) (s : State c) → AreProducers s → OnOk AreProducers (call ctx a s)
  unfolding call init applybp updatebp addproducer
  call-AreProducers ctx (init_call admin) s h = ground (arith, h)
  call-AreProducers ctx (applybp_call owner f) s h =
      ground (arith, set_producer-AreProducers ctx owner f s h)
  call-AreProducers ctx (updatebp_call owner f) s h =
      ground (arith, set_producer-AreProducers ctx owner f s h)
  call-AreProducers ctx (addproducer_call submiter owner f) s h =
      ground (arith, set_producer-AreProducers ctx owner f s h)
  call-AreProducers ctx (setstatus_call submiter owner status) s h =
      setstatus-AreProducers ctx submiter owner status s h

  -- In any history of calls every profile stays under the account that owns it, its status is
  -- `enable` or `disable`, and its texts are within their limits, provided that this held before.
  pub run-AreProducers :
      (calls : List (Context × Call)) (s : State c) → AreProducers s → AreProducers (run calls s)
  unfolding run
  run-AreProducers [] s h = h
  run-AreProducers ((ctx, a) ∷ rest) s h =
      run-AreProducers rest (after s (call ctx a s))
        (after_holds AreProducers s (call ctx a s) h (call-AreProducers ctx a s h))

  call-Keeps :
      (ctx : Context) (a : Call) (s : State c)
      → ctx.has_auth ctx.self ≡ false
      → ctx.has_auth s.global.admin ≡ false
      → OnOk (Keeps s) (call ctx a s)
  unfolding call init applybp updatebp addproducer setstatus
  call-Keeps ctx (init_call admin) s h k = ground (arith, h)
  call-Keeps ctx (applybp_call owner f) s h k = ground (arith, set_producer-Keeps ctx owner f s)
  call-Keeps ctx (updatebp_call owner f) s h k = ground (arith, set_producer-Keeps ctx owner f s)
  call-Keeps ctx (addproducer_call submiter owner f) s h k =
      ground (arith, k, ==_iff submiter s.global.admin)
  call-Keeps ctx (setstatus_call submiter owner status) s h k =
      ground (arith, k, ==_iff submiter s.global.admin)

  -- In a history that neither the contract nor its administrator signs, the status of every account
  -- stays what it was, where an account with no profile counts as disabled: nobody enables himself,
  -- and nobody loses his status by writing his profile again. The administrator stays, too.
  pub status_kept :
      (calls : List (Context × Call)) (s : State c)
      → Unsigned s.global.admin calls
      → Keeps s (run calls s)
  unfolding run
  status_kept [] s u = (λ k. refl, refl)
  status_kept ((ctx, a) ∷ rest) s (h, k, u) =
      let s' : State c = after s (call ctx a s) in
      let step : Keeps s s' =
        after_holds (Keeps s) s (call ctx a s) (λ k. refl, refl) (call-Keeps ctx a s h k) in
      let later = status_kept rest s' (rw step.1 u) in (λ k. later.0 k ∙ step.0 k, later.1 ∙ step.1)
