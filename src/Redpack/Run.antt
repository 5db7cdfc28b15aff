-- ===== src/Redpack/Run.antt =====
-- flon.redpack: histories of calls (the actions and notifications that redpack.hpp declares).
use toolkit_contracts.Base.{
  +ℤ_zero, Bool, Bool-cases, List, OnOk, OnOk-and, OnOk-intro, OnOk-intro_eq, Option, Option-cases,
  Result, Text, [], after, arith, err, if◌then◌else◌, inl, inr, int_laws, ltb_ℤ, ok, parts_of_eq,
  pos, split_raw, sym, true, ℕ, ℤ, ◌&&◌, ◌+ℤ◌, ◌-ℤ◌, ◌∙◌, ◌∷◌, ◌≡◌, ◌≤ℤ◌,
}
use toolkit_contracts.Chain.{Asset, Chain, Context, total, total_nonneg, weigh}
use toolkit_contracts.Redpack.State.{AssignType, Error, State}
use toolkit_contracts.Redpack.Actions.{
  cancel, claimredpack, delclaims, delisttoken, deposit, init, listtoken, setglobalidx,
  token_transfer,
}
use toolkit_contracts.Redpack.Conserve.{cancel_conserves, claimredpack_conserves, funds, left_value}
use toolkit_contracts.Redpack.Fair.{
  AllFair, cancel-AllFair, claimredpack-AllFair, deposit-AllFair, handle_fee_payment-AllFair,
}
use toolkit_contracts.Redpack.Ledger.{
  Booked, PassedOn, deposit-Booked, fee_bank, is_incoming, pays_fee, token_transfer-All,
  token_transfer-PassedOn, token_transfer_aside,
}

-- The actions with their arguments; a claim comes with the seed of its share and the DID tokens of
-- the claimer.
pub data Call : Type 0 where
  init_call : ℕ → ℕ → ℕ → ℕ → Call
  listtoken_call : ℕ → ℕ → Call
  delisttoken_call : ℕ → Call
  transfer_call : ℕ → ℕ → Asset → Text → Call
  claim_call : ℕ → List (ℕ × ℤ) → ℕ → ℕ → Text → Call
  cancel_call : ℕ → Call
  delclaims_call : ℕ → Call
  setglobalidx_call : ℕ → ℕ → Call

module _ (c : Chain) where
  unfoldable pub call : Context → Call → State c → Result Error (State c)
  unfolding init listtoken delisttoken token_transfer claimredpack cancel delclaims setglobalidx
  call ctx (init_call a l h d) = init c ctx a l h d
  call ctx (listtoken_call b y) = listtoken c ctx b y
  call ctx (delisttoken_call k) = delisttoken c ctx k
  call ctx (transfer_call f t q m) = token_transfer c ctx f t q m
  call ctx (claim_call n ds p k h) = claimredpack c ctx n ds p k h
  call ctx (cancel_call k) = cancel c ctx k
  call ctx (delclaims_call n) = delclaims c n
  call ctx (setglobalidx_call r l) = setglobalidx c ctx r l

  unfoldable pub run : List (Context × Call) → State c → State c
  unfolding call
  run [] s = s
  run ((ctx, a) ∷ rest) s = run rest (after s (call ctx a s))

  module _ (bank symbol : ℕ) where
    -- What a call that succeeds brings in of one token.
    abbrev pub inflow : Context → Call → ℤ
    inflow ctx (transfer_call f t q m) =
        if is_incoming ctx f t then weigh bank symbol ctx.first_receiver q else pos 0
    inflow ctx a = pos 0

    -- By how much a fee that is passed on is more of the token than the fee that came in: nothing,
    -- but for a fee that was paid from another contract than the one it is passed on from.
    abbrev pub fee_gap : Context → Call → ℤ
    fee_gap ctx (transfer_call f t q m) =
        if is_incoming ctx f t && pays_fee m
        then weigh bank symbol (fee_bank c) q -ℤ weigh bank symbol ctx.first_receiver q
        else pos 0
    fee_gap ctx a = pos 0

    abbrev if_ok : (Context → Call → ℤ) → Context → Call → Result Error (State c) → ℤ
    if_ok amount ctx a (ok s) = amount ctx a
    if_ok amount ctx a (err e) = pos 0

    -- The amounts of the calls of a history that succeed, added up.
    unfoldable pub tally : (Context → Call → ℤ) → List (Context × Call) → State c → ℤ
    unfolding call
    tally amount [] s = pos 0
    tally amount ((ctx, a) ∷ rest) s =
        if_ok amount ctx a (call ctx a s) +ℤ tally amount rest (after s (call ctx a s))

    abbrev Grown : ℤ → State c → State c → Type 0
    Grown n s s' = AllFair c s' × (funds bank symbol c s' ≡ funds bank symbol c s +ℤ n)

    Grown-after :
        (ctx : Context) (a : Call) (s : State c) (r : Result Error (State c))
        → AllFair c s
        → OnOk (Grown (inflow ctx a +ℤ fee_gap ctx a) s) r
        → Grown (if_ok inflow ctx a r +ℤ if_ok fee_gap ctx a r) s (after s r)
    Grown-after ctx a s (ok s') h g = g
    Grown-after ctx a s (err e) h g = (h, omega int_laws)

    unmoved :
        (s s' : State c)
        → funds bank symbol c s' ≡ funds bank symbol c s
        → funds bank symbol c s' ≡ funds bank symbol c s +ℤ pos 0
    unmoved s s' e = e ∙ sym (+ℤ_zero (funds bank symbol c s))

    claimredpack-Grown :
        (ctx : Context) (n : ℕ) (ds : List (ℕ × ℤ)) (p k : ℕ) (hash : Text) (s : State c)
        → AllFair c s
        → OnOk (Grown (pos 0) s) (claimredpack c ctx n ds p k hash s)
    claimredpack-Grown ctx n ds p k hash s h =
        let r = claimredpack c ctx n ds p k hash s in
        OnOk-and (AllFair c) _ r (claimredpack-AllFair c ctx n ds p k hash s h) (
          OnOk-intro (λ s'. funds bank symbol c s' ≡ funds bank symbol c s +ℤ pos 0) r
            (λ s' e. unmoved s s' (claimredpack_conserves bank symbol c ctx n ds p k hash s s' e)))

    cancel-Grown :
        (ctx : Context) (k : ℕ) (s : State c)
        → AllFair c s
        → OnOk (Grown (pos 0) s) (cancel c ctx k s)
    unfolding cancel
    cancel-Grown ctx k s h =
        OnOk-and (AllFair c) _ (cancel c ctx k s) (cancel-AllFair c ctx k s h) (
          OnOk-intro (λ s'. funds bank symbol c s' ≡ funds bank symbol c s +ℤ pos 0)
            (cancel c ctx k s)
            (λ s' e. elim (Option-cases (c.find s.redpacks k)) [
              | inl missing ↦ absurd (ground (arith, e, missing))
              | inr (r, fr) ↦
                  let fair = h k r fr in
                  unmoved s s' (cancel_conserves bank symbol c ctx k r s s' fr fair.0 fair.1 e).0
            ]))

    deposit-Paid :
        (ctx : Context) (q : Asset) (s : State c)
        → AllFair c s
        → (from : ℕ) → ltb_ℤ (pos 0) q.amount ≡ true
        → (code : ℕ) (kind : Option AssignType) (did : Bool) (count : ℤ) (hash : Text)
          (cover : Option ℕ)
        → OnOk (AllFair c) (deposit c ctx from q code kind did count hash cover s)
    deposit-Paid ctx q s h from paid code kind did count hash cover =
        deposit-AllFair c ctx q s h from code kind did count hash cover paid

    transfer-AllFair :
        (ctx : Context) (f t : ℕ) (q : Asset) (m : Text) (s : State c)
        → AllFair c s
        → is_incoming ctx f t ≡ true
        → OnOk (AllFair c) (token_transfer c ctx f t q m s)
    transfer-AllFair ctx f t q m s h comes =
        token_transfer-All c (AllFair c) ctx f q s (deposit-Paid ctx q s h f) t m comes
          (λ w e y. handle_fee_payment-AllFair c ctx q s h (split_raw [] b':' m))

    through : (x y : ℤ) → x +ℤ (y -ℤ x) ≡ y
    through x y = omega int_laws

    transfer-Grown :
        (ctx : Context) (f t : ℕ) (q : Asset) (m : Text) (s : State c)
        → AllFair c s
        → OnOk
            (Grown (inflow ctx (transfer_call f t q m) +ℤ fee_gap ctx (transfer_call f t q m)) s)
            (token_transfer c ctx f t q m s)
    transfer-Grown ctx f t q m s h =
        let r = token_transfer c ctx f t q m s in
        let here = weigh bank symbol ctx.first_receiver q in
        elim (Bool-cases (is_incoming ctx f t)) [
          | inl comes ↦ elim (Bool-cases (pays_fee m)) [
            | inl fee ↦
                rw (comes, fee, through here (weigh bank symbol (fee_bank c) q))
                  (OnOk-and (AllFair c) (PassedOn bank symbol c ctx q s) r
                    (transfer-AllFair ctx f t q m s h comes)
                    (token_transfer-PassedOn bank symbol c ctx q s f t m comes fee))
            | inr no_fee ↦
                rw (comes, no_fee, +ℤ_zero here)
                  (OnOk-and (AllFair c) (Booked bank symbol c ctx q s) r
                    (transfer-AllFair ctx f t q m s h comes)
                    (token_transfer-All c (Booked bank symbol c ctx q s) ctx f q s
                      (λ paid. deposit-Booked bank symbol c ctx q s f) t m comes
                      (λ w e y. absurd (ground (arith, e, y, no_fee)))))
          ]
          | inr aside ↦
              rw (aside, +ℤ_zero (pos 0))
                (OnOk-intro_eq (Grown (pos 0) s) r (token_transfer_aside c ctx f t q m s aside)
                  (h, sym (+ℤ_zero (funds bank symbol c s))))
        ]

    call-Grown :
        (ctx : Context) (a : Call) (s : State c)
        → AllFair c s
        → OnOk (Grown (inflow ctx a +ℤ fee_gap ctx a) s) (call ctx a s)
    unfolding call init listtoken delisttoken delclaims setglobalidx
    call-Grown ctx (init_call a l t d) s h =
        rw (+ℤ_zero (pos 0)) (ground (arith, h, +ℤ_zero (funds bank symbol c s)))
    call-Grown ctx (listtoken_call b y) s h =
        rw (+ℤ_zero (pos 0)) (ground (arith, h, +ℤ_zero (funds bank symbol c s)))
    call-Grown ctx (delisttoken_call k) s h =
        rw (+ℤ_zero (pos 0)) (ground (arith, h, +ℤ_zero (funds bank symbol c s)))
    call-Grown ctx (transfer_call f t q m) s h = transfer-Grown ctx f t q m s h
    call-Grown ctx (claim_call n ds p k hash) s h =
        rw (+ℤ_zero (pos 0)) (claimredpack-Grown ctx n ds p k hash s h)
    call-Grown ctx (cancel_call k) s h = rw (+ℤ_zero (pos 0)) (cancel-Grown ctx k s h)
    call-Grown ctx (delclaims_call n) s h =
        rw (+ℤ_zero (pos 0)) (ground (arith, h, +ℤ_zero (funds bank symbol c s)))
    call-Grown ctx (setglobalidx_call r l) s h =
        rw (+ℤ_zero (pos 0)) (ground (arith, h, +ℤ_zero (funds bank symbol c s)))

    run-Grown :
        (calls : List (Context × Call)) (s : State c)
        → AllFair c s
        → Grown (tally inflow calls s +ℤ tally fee_gap calls s) s (run calls s)
    unfolding run tally
    run-Grown [] s h = (h, omega int_laws)
    run-Grown ((ctx, a) ∷ rest) s h =
        let now = Grown-after ctx a s (call ctx a s) h (call-Grown ctx a s h) in
        let later = run-Grown rest (after s (call ctx a s)) now.0 in
        (later.0, omega (int_laws, parts_of_eq now.1, parts_of_eq later.1))

    -- In any history of calls that starts with packets that hold no negative amount, and nothing
    -- once closed: of every token, what has been sent and what the packets still hold have grown
    -- together by what the successful calls have brought in, and by what the fees that were passed
    -- on are more of this token than the fees that came in; and what the packets hold together is
    -- not negative. For a fee that came from the contract that it is passed on from, that is nothing.
    pub run_solvent :
        (calls : List (Context × Call)) (s : State c)
        → AllFair c s
        → (funds bank symbol c (run calls s)
            ≡ funds bank symbol c s +ℤ (tally inflow calls s +ℤ tally fee_gap calls s))
          × (pos 0 ≤ℤ total c (left_value bank symbol c) (run calls s).redpacks)
    run_solvent calls s h =
        let g = run-Grown calls s h in
        (
          g.1,
          total_nonneg c (run calls s).redpacks (left_value bank symbol c)
              (λ k r e. ground (arith, (g.0 k r e).0)),
        )
