-- ===== src/Split/Run.antt =====
-- flon.split: histories of calls (the actions that tokensplit.hpp declares).
use mathlib.Core.List.{head?}
use toolkit_contracts.Base.{
  Bool-cases, List, OnOk, Option-cases, Result, Result-cases, Text, [], after, arith, err,
  if◌then◌else◌, inl, inr, int_laws, length, ltb_ℤ, not, ok, parts_of_eq, pos, refl, split, ℕ, ℤ,
  ◌+ℤ◌, ◌+◌, ◌<◌, ◌==◌, ◌^◌, ◌||◌, ◌∷◌, ◌≡◌, ◌≤ℤ◌, ◌≤◌,
}
use toolkit_contracts.Chain.{Asset, Chain, Context, weigh}
use toolkit_contracts.Split.State.{Error, PlanEvent, SplitType, SplitUnit, State}
use toolkit_contracts.Split.Actions.{
  addplan, claim, claimall, editplan, init, memo_boost, memo_plan, notifyplan, ontransfer, u64,
}
use toolkit_contracts.Split.Held.{held, held_nonneg}
use toolkit_contracts.Split.Books.{
  Grown, Inv, addplan-Grown, claim-Grown, claimall-Grown, editplan-Grown, funds, kept_funds,
  split_payment-Grown, unmoved,
}

-- The actions with their arguments, and the context of the call.
pub data Call : Type 0 where
  init_call : ℕ → ℕ → ℕ → Call
  addplan_call : ℕ → Text → List SplitUnit → SplitType → Call
  editplan_call : ℕ → ℕ → List SplitUnit → SplitType → Call
  claim_call : ℕ → ℕ → Call
  claimall_call : ℕ → Call
  notifyplan_call : PlanEvent → Call
  transfer_call : ℕ → ℕ → Asset → Text → Call

module _ (c : Chain) where
  unfoldable pub call : Context → Call → State c → Result Error (State c)
  unfolding init addplan editplan claim claimall notifyplan ontransfer
  call ctx (init_call a l m) = init c ctx a l m
  call ctx (addplan_call o t us k) = addplan c ctx o t us k
  call ctx (editplan_call o p us k) = editplan c ctx o p us k
  call ctx (claim_call p o) = claim c p o
  call ctx (claimall_call p) = claimall c p
  call ctx (notifyplan_call t) = notifyplan c ctx t
  call ctx (transfer_call f t q m) = ontransfer c ctx f t q m

  unfoldable pub run : List (Context × Call) → State c → State c
  unfolding call
  run [] s = s
  run ((ctx, a) ∷ rest) s = run rest (after s (call ctx a s))

  module _ (bank symbol : ℕ) where
    -- What a call that succeeds brings in of one token.
    abbrev pub inflow : Context → Call → ℤ
    inflow ctx (transfer_call f t q m) =
        if f == ctx.self || not (t == ctx.self)
        then pos 0
        else weigh bank symbol ctx.first_receiver q
    inflow ctx a = pos 0

    abbrev pub inflow_if_ok : Context → Call → Result Error (State c) → ℤ
    inflow_if_ok ctx a (ok s) = inflow ctx a
    inflow_if_ok ctx a (err e) = pos 0

    -- What the calls of a history bring in together, those that fail nothing.
    unfoldable pub received : List (Context × Call) → State c → ℤ
    unfolding call
    received [] s = pos 0
    received ((ctx, a) ∷ rest) s =
        inflow_if_ok ctx a (call ctx a s) +ℤ received rest (after s (call ctx a s))

    module _ (n : ℕ) (wide : n ≤ 2 ^ 64) where
      module _ (s : State c) (v : Inv c s) (room : s.global.last_plan_id + 1 < n) where
        ontransfer-Grown :
            (ctx : Context) (f t : ℕ) (q : Asset) (m : Text)
            → OnOk
                (Grown c bank symbol n wide (inflow ctx (transfer_call f t q m)) s)
                (ontransfer c ctx f t q m s)
        unfolding ontransfer
        ontransfer-Grown ctx f t q m =
            let params = split m b':' in
            let same : Inv c s
                × (s.global.last_plan_id ≤ s.global.last_plan_id + 1)
                × (funds c bank symbol n s ≡ funds c bank symbol n s +ℤ pos 0) =
              (v, omega arith, kept_funds c bank symbol n wide s) in
            elim (Bool-cases (ltb_ℤ (pos 0) q.amount)) [
              | inr unpaid ↦ ground (arith, unpaid, same)
              | inl paid ↦ elim (Option-cases (head? params)) [
                | inl bad ↦ ground (arith, paid, bad, same)
                | inr (a, fa) ↦ elim (Option-cases (c.name_of a)) [
                  | inl bad ↦ ground (arith, paid, fa, bad, same)
                  | inr (w, fw) ↦ elim (Result-cases (memo_plan c params)) [
                    | inr (bad, b) ↦ ground (arith, paid, fa, fw, b, same)
                    | inl (k, fk) ↦ elim (Result-cases (memo_boost c params)) [
                      | inr (bad, b) ↦ ground (arith, paid, fa, fw, fk, b, same)
                      | inl (x, fx) ↦ ground (
                        arith,
                        paid,
                        fa,
                        fw,
                        fk,
                        fx,
                        same,
                        split_payment-Grown c bank symbol n wide s v room ctx f (u64 k) q x,
                      )
                    ]
                  ]
                ]
              ]
            ]

      call-Grown :
          (ctx : Context) (a : Call) (s : State c)
          → Inv c s
          → s.global.last_plan_id + 1 < n
          → OnOk (Grown c bank symbol n wide (inflow ctx a) s) (call ctx a s)
      unfolding call init notifyplan
      call-Grown ctx (init_call a l m) s v h =
          let global' = record s.global { admin = a; max_split_count = m; min_split_count = l } in
          let s₁ : State c = record s { global = global' } in
          let v₁ : Inv c s₁ = record { sound = v.sound; numbered = v.numbered } in
          ground (arith, unmoved c bank symbol n wide s s₁ v₁ (omega arith) refl refl)
      call-Grown ctx (addplan_call o t us k) s v h =
          addplan-Grown c bank symbol n wide s v h ctx o t us k
      call-Grown ctx (editplan_call o p us k) s v h =
          editplan-Grown c bank symbol n wide s v h ctx o p us k
      call-Grown ctx (claim_call p o) s v h = claim-Grown c bank symbol n wide s v h p o
      call-Grown ctx (claimall_call p) s v h = claimall-Grown c bank symbol n wide s v h p
      call-Grown ctx (notifyplan_call t) s v h =
          ground (arith, unmoved c bank symbol n wide s s v (omega arith) refl refl)
      call-Grown ctx (transfer_call f t q m) s v h = ontransfer-Grown s v h ctx f t q m

      Grown-after :
          (ctx : Context) (a : Call) (s : State c) (r : Result Error (State c))
          → Inv c s
          → OnOk (Grown c bank symbol n wide (inflow ctx a) s) r
          → Grown c bank symbol n wide (inflow_if_ok ctx a r) s (after s r)
      Grown-after ctx a s (ok s') v g = g
      Grown-after ctx a s (err e) v g = unmoved c bank symbol n wide s s v (omega arith) refl refl

      run-Grown :
          (calls : List (Context × Call)) (s : State c)
          → Inv c s
          → s.global.last_plan_id + length calls < n
          → Inv c (run calls s)
            × (funds c bank symbol n (run calls s) ≡ funds c bank symbol n s +ℤ received calls s)
      unfolding run received
      run-Grown [] s v h = (v, kept_funds c bank symbol n wide s)
      run-Grown ((ctx, a) ∷ rest) s v h =
          let now = Grown-after ctx a s (call ctx a s) v (call-Grown ctx a s v (omega arith)) in
          let later = run-Grown rest (after s (call ctx a s)) now.0 (omega (arith, now.1)) in
          (later.0, omega (int_laws, parts_of_eq now.2, parts_of_eq later.1))

      -- In any history of calls that starts with sound wallets and with no plan above the last
      -- number, for any bound of at most 2^64 that the numbers of the plans do not reach: of every
      -- token, what has left the contract and what waits in the wallets of all plans have grown
      -- together by just what the successful calls have brought in, and the wallets hold no
      -- negative amount together. So no more is ever paid out than came in and was held at first.
      pub run_pays_what_came :
          (calls : List (Context × Call)) (s : State c)
          → Inv c s
          → s.global.last_plan_id + length calls < n
          → (funds c bank symbol n (run calls s) ≡ funds c bank symbol n s +ℤ received calls s)
            × (pos 0 ≤ℤ held c bank symbol n (run calls s))
      run_pays_what_came calls s v h =
          let (v', e) = run-Grown calls s v h in
          (e, held_nonneg c bank symbol n (run calls s) v'.sound)
