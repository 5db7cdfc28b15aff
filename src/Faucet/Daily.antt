-- ===== src/Faucet/Daily.antt =====
-- flon.faucet: an account is paid once a day.
-- `active` and `claim` with their arguments, and the context of the call.
use toolkit_contracts.Base.{
  ==_iff, Bool-cases, List, OnOk, Option-cases, Result, [], after, after_holds, arith,
  if◌then◌else◌, inl, inr, ok, pos, refl, some, ℕ, ◌%◌, ◌+◌, ◌-◌, ◌<◌, ◌==◌, ◌^◌, ◌∷◌, ◌≡◌, ◌≤◌,
}
use toolkit_contracts.Chain.{Asset, Chain, Context, find-put, seconds}
use toolkit_contracts.Faucet.State.{
  Account, Error, Message, State, buygas_message, day_seconds, newaccount_message, sys_symbol,
  transfer_message,
}
use toolkit_contracts.Faucet.Actions.{active, claim}

pub data Call : Type 0 where
  active_call : ℕ → ℕ → Call
  claim_call : ℕ → Call

-- What was transferred to an account.
unfoldable pub paid_to : ℕ → List Message → ℕ
paid_to account [] = 0
paid_to account (transfer_message to q ∷ sent) =
    let rest = paid_to account sent in if to == account then 1 + rest else rest
paid_to account (newaccount_message a k ∷ sent) = paid_to account sent
paid_to account (buygas_message a q ∷ sent) = paid_to account sent

-- All calls are made within a day of a time in seconds.
abbrev pub Within : ℕ → List (Context × Call) → Type 0
Within t [] = Unit {0}
Within t ((ctx, a) ∷ rest) =
    (t ≤ seconds ctx.now) × (seconds ctx.now < t + day_seconds) × Within t rest

module _ (c : Chain) where
  unfoldable pub call : Context → Call → State c → Result Error (State c)
  unfolding active claim
  call ctx (active_call account pubkey) = active c ctx account pubkey
  call ctx (claim_call account) = claim c ctx account

  unfoldable pub run : List (Context × Call) → State c → State c
  unfolding call
  run [] s = s
  run ((ctx, a) ∷ rest) s = run rest (after s (call ctx a s))

  -- The account was last paid at a time in seconds, after so many payments.
  abbrev pub PaidAt : ℕ → ℕ → ℕ → State c → Type 0
  PaidAt account t n s =
      ((row : Account) × (c.find s.accounts account ≡ some row) × (seconds row.updated_at ≡ t))
      × (paid_to account s.sent ≡ n)

  module _ (account t n : ℕ) (ctx : Context) (l : t ≤ seconds ctx.now)
      (r : seconds ctx.now < t + day_seconds) where
    claim-PaidAt :
        (a : ℕ) (s : State c) → PaidAt account t n s → OnOk (PaidAt account t n) (claim c ctx a s)
    unfolding claim paid_to
    claim-PaidAt a s ((row, f, e), p) =
        elim (Option-cases (c.make_asset (pos 1000000000) sys_symbol)) [
          | inl bad ↦ ground (arith, bad)
          | inr (q, fq) ↦ elim (Bool-cases (a == account)) [
            | inl same ↦
                let here : a ≡ account = (==_iff a account).0 same in
                let found : c.find s.accounts a ≡ some row = rw here f in
                ground (arith, fq, found, e)
            | inr other ↦ elim (Option-cases (c.find s.accounts a)) [
              | inl new ↦
                  let row' : Account = record { owner = a; updated_at = ctx.now } in
                  ground (arith, fq, new, find-put c s.accounts a row' account, f, e, p)
              | inr (old, fo) ↦
                  let row' : Account = record old { updated_at = ctx.now } in
                  ground (arith, fq, fo, find-put c s.accounts a row' account, f, e, p)
            ]
          ]
        ]

    active-PaidAt :
        (a k : ℕ) (s : State c)
        → PaidAt account t n s
        → OnOk (PaidAt account t n) (active c ctx a k s)
    unfolding active paid_to
    active-PaidAt a k s h = elim (Option-cases (c.make_asset (pos 10000) sys_symbol)) [
      | inl bad ↦ ground (arith, bad)
      | inr (q, fq) ↦
          let s' : State c = record s {
            sent = buygas_message a q ∷ newaccount_message a k ∷ s.sent;
          } in
          let h' : PaidAt account t n s' = h in ground (arith, fq, claim-PaidAt a s' h')
    ]

  -- An account that has just been paid is not paid again within a day: whatever calls are made in
  -- a history whose times, in seconds, lie less than a day after the payment, the account has at
  -- its end the payments that it had.
  pub paid_once_a_day :
      (account t n : ℕ) (calls : List (Context × Call)) (s : State c)
      → PaidAt account t n s
      → Within t calls
      → paid_to account (run calls s).sent ≡ n
  unfolding run call
  paid_once_a_day account t n [] s h w = h.1
  paid_once_a_day account t n ((ctx, claim_call a) ∷ rest) s h (l, r, w) =
      paid_once_a_day account t n rest (after s (claim c ctx a s))
        (after_holds (PaidAt account t n) s (claim c ctx a s) h
          (claim-PaidAt account t n ctx l r a s h))
        w
  paid_once_a_day account t n ((ctx, active_call a k) ∷ rest) s h (l, r, w) =
      paid_once_a_day account t n rest (after s (active c ctx a k s))
        (after_holds (PaidAt account t n) s (active c ctx a k s) h
          (active-PaidAt account t n ctx l r a k s h))
        w

  -- A claim that succeeds pays the account once more, nobody else, and records the time; and it
  -- does succeed a day after the last one, as the clock of 32 bits counts.
  pub claim_pays :
      (ctx : Context) (a n : ℕ) (s : State c) (q : Asset)
      → c.make_asset (pos 1000000000) sys_symbol ≡ some q
      → ((row : Account)
          → c.find s.accounts a ≡ some row
          → day_seconds ≤ (seconds ctx.now + 2 ^ 32 - seconds row.updated_at) % 2 ^ 32)
      → paid_to a s.sent ≡ n
      → (s' : State c) × (claim c ctx a s ≡ ok s')
        × PaidAt a (seconds ctx.now) (1 + n) s'
        × (s'.sent ≡ transfer_message a q ∷ s.sent)
  unfolding claim paid_to
  claim_pays ctx a n s q fq day p =
      let paid_now : (row : Account) (q : Asset)
          → seconds row.updated_at ≡ seconds ctx.now
          → PaidAt a (seconds ctx.now) (1 + n) (record s {
            accounts = c.put s.accounts a row;
            sent = transfer_message a q ∷ s.sent;
          }) =
        λ row q e.
          ((row, rw (find-put c s.accounts a row a) (ground arith), e), ground (arith, p)) in
      elim (Option-cases (c.find s.accounts a)) [
        | inl new ↦
            let row : Account = record { owner = a; updated_at = ctx.now } in
            let s' : State c = record s {
              accounts = c.put s.accounts a row;
              sent = transfer_message a q ∷ s.sent;
            } in
            (s', ground (arith, fq, new), paid_now row q refl, refl)
        | inr (old, fo) ↦
            let row : Account = record old { updated_at = ctx.now } in
            let s' : State c = record s {
              accounts = c.put s.accounts a row;
              sent = transfer_message a q ∷ s.sent;
            } in
            let late = day old fo in (s', ground (arith, fq, fo, late), paid_now row q refl, refl)
      ]
