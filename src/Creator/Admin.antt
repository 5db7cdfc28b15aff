-- ===== src/Creator/Admin.antt =====
-- flon.creator: who creates accounts.
use toolkit_contracts.Base.{
  ==_iff, List, OnOk, Result, [], after, after_holds, arith, false, refl, ℕ, ◌∙◌, ◌∷◌, ◌≡◌,
}
use toolkit_contracts.Chain.{Asset, Context}
use toolkit_contracts.Creator.State.{Error, State}
use toolkit_contracts.Creator.Actions.{check_admin, init, newaccount, setgasquant}

-- The actions with their arguments, and the context of the call.
pub data Call : Type 0 where
  init_call : ℕ → Call
  setgasquant_call : Asset → Call
  newaccount_call : ℕ → ℕ → ℕ → Call

unfoldable pub call : Context → Call → State → Result Error State
unfolding init setgasquant newaccount
call ctx (init_call admin) s = init ctx admin s
call ctx (setgasquant_call q) s = setgasquant ctx q s
call ctx (newaccount_call admin pubkey acct) s = newaccount ctx admin pubkey acct s

unfoldable pub run : List (Context × Call) → State → State
unfolding call
run [] s = s
run ((ctx, a) ∷ rest) s = run rest (after s (call ctx a s))

-- A call that the account does not sign, nor the contract itself where it is an `init`.
abbrev pub IsForeign : ℕ → Context → Call → Type 0
IsForeign admin ctx (init_call n) = (ctx.has_auth admin ≡ false) × (ctx.has_auth ctx.self ≡ false)
IsForeign admin ctx (setgasquant_call q) = ctx.has_auth admin ≡ false
IsForeign admin ctx (newaccount_call n k a) = ctx.has_auth admin ≡ false

abbrev pub AreForeign : ℕ → List (Context × Call) → Type 0
AreForeign admin [] = Unit {0}
AreForeign admin ((ctx, a) ∷ rest) = IsForeign admin ctx a × AreForeign admin rest

-- Nothing was sent, and the administrator is the same.
abbrev pub Idle : State → State → Type 0
Idle s s' = (s'.sent ≡ s.sent) × (s'.global.admin ≡ s.global.admin)

call-Idle :
    (ctx : Context) (a : Call) (s : State)
    → IsForeign s.global.admin ctx a
    → OnOk (Idle s) (call ctx a s)
unfolding call init setgasquant newaccount check_admin
call-Idle ctx (init_call n) s (h, k) = ground (arith, h, k)
call-Idle ctx (setgasquant_call q) s h = ground arith
call-Idle ctx (newaccount_call n k a) s h = ground (arith, h, ==_iff n s.global.admin)

-- In a history in which the administrator signs nothing, and the contract signs no `init`, no
-- account is created and no gas is bought, and the administrator stays: the signature of the
-- contract alone creates no account.
pub accounts_by_admin :
    (calls : List (Context × Call)) (s : State)
    → AreForeign s.global.admin calls
    → Idle s (run calls s)
unfolding run
accounts_by_admin [] s u = (refl, refl)
accounts_by_admin ((ctx, a) ∷ rest) s (h, u) =
    let s' = after s (call ctx a s) in
    let step : Idle s s' =
      after_holds (Idle s) s (call ctx a s) (refl, refl) (call-Idle ctx a s h) in
    let later = accounts_by_admin rest s' (rw step.1 u) in (later.0 ∙ step.0, later.1 ∙ step.1)
