-- ===== src/Vest/Status.antt =====
-- flon.vest: a finished issue is closed.
use toolkit_contracts.Base.{OnOk, arith, ok, some, true, ℕ, ◌+ℤ◌, ◌∷◌, ◌≡◌}
use toolkit_contracts.Chain.{Asset, Chain, Context, find-put}
use toolkit_contracts.Vest.State.{Issue, Plan, State, finished, is_finished}
use toolkit_contracts.Vest.Actions.{endissue, transissue, unlock}
use toolkit_contracts.Vest.Books.{IsSound}

-- Once an issue is finished, no unlock, end or transfer of it goes through.
pub finished_is_closed :
    (c : Chain) (ctx : Context) (k : ℕ) (i : Issue) (s : State c)
    → c.find s.issues k ≡ some i
    → is_finished i.status ≡ true
    → ((issuer plan : ℕ) → OnOk (λ s'. ⊥) (unlock c ctx issuer plan k s))
      × ((plan issuer : ℕ) → OnOk (λ s'. ⊥) (endissue c ctx plan issuer k s))
      × ((from to : ℕ) (q : Asset) → OnOk (λ s'. ⊥) (transissue c ctx from to k q s))
unfolding unlock endissue transissue
finished_is_closed c ctx k i s fi done =
    (λ issuer plan. ground arith, λ plan issuer. ground arith, λ from to q. ground arith)

-- A successful end of a sound issue sends its issuer what is locked, from the plan's token
-- contract; this and what was unlocked before make up the issued amount. The issue is finished
-- then.
pub endissue_refunds :
    (c : Chain) (ctx : Context) (plan issuer k : ℕ) (i : Issue) (p : Plan) (s s' : State c)
    → c.find s.issues k ≡ some i
    → c.find s.plans plan ≡ some p
    → IsSound i
    → endissue c ctx plan issuer k s ≡ ok s'
    → (s'.sent ≡ record { bank = p.asset_contract; to = i.issuer; quantity = i.locked } ∷ s.sent)
      × (i.issued.amount ≡ i.locked.amount +ℤ i.unlocked.amount)
      × (c.find s'.issues k ≡ some (record i { status = finished; updated_at = ctx.now }))
unfolding endissue
endissue_refunds c ctx plan issuer k i p s s' fi fp sound e =
    let put = find-put c s.issues k (record i { status = finished; updated_at = ctx.now }) k in
    (ground arith, ground (arith, sound.parts, sound.used), ground (arith, put))
