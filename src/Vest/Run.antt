-- ===== src/Vest/Run.antt =====
-- flon.vest: histories of calls (the actions that vest.hpp declares), and what holds after any.
use toolkit_contracts.Base.{
  Bool, List, OnOk, Option-cases, Result, Text, [], after, after_holds, arith, inl, inr, split,
  to_uint64, ℕ, ℤ, ◌∷◌,
}
use toolkit_contracts.Chain.{Asset, Chain, Context}
use toolkit_contracts.Vest.State.{Error, State}
use toolkit_contracts.Vest.Actions.{
  addplan, delfinissues, enableplan, endissue, init, setfirstdays, setplanowner, setreceiver,
  transissue, unlock,
}
use toolkit_contracts.Vest.Transfers.{on_memo, ontransfer, pay_plan_fee}
use toolkit_contracts.Vest.Books.{Books}
use toolkit_contracts.Vest.Escrow.{
  addplan-Books, create_issue-Books, delfinissues-Books, enableplan-Books, endissue-Books,
  init-Books, pay_plan_fee-Books, setfirstdays-Books, setplanowner-Books, setreceiver-Books,
  transissue-Books, unlock-Books,
}
use toolkit_contracts.Vest.Sound.{
  SoundAt, SoundAt-found, create_issue-SoundAt, delfinissues-SoundAt, endissue-SoundAt,
  setfirstdays-SoundAt, setreceiver-SoundAt, transissue-SoundAt, unlock-SoundAt,
}

pub data Call : Type 0 where
  init_call : ℕ → Asset → ℕ → Call
  setreceiver_call : ℕ → ℕ → Call
  addplan_call : ℕ → Text → ℕ → ℕ → ℕ → ℤ → Call
  setplanowner_call : ℕ → ℕ → ℕ → Call
  setfirstdays_call : ℕ → ℕ → Call
  enableplan_call : ℕ → ℕ → Bool → Call
  delfinissues_call : List ℕ → Call
  transissue_call : ℕ → ℕ → ℕ → Asset → Call
  transfer_call : ℕ → ℕ → Asset → Text → Call
  unlock_call : ℕ → ℕ → ℕ → Call
  endissue_call : ℕ → ℕ → ℕ → Call

module _ (c : Chain) where
  -- `planreceiver` always aborts and is left out.
  unfoldable pub call : Context → Call → State c → Result Error (State c)
  unfolding init setreceiver addplan setplanowner setfirstdays enableplan delfinissues transissue
      ontransfer unlock endissue
  call ctx (init_call a f r) = init c ctx a f r
  call ctx (setreceiver_call k r) = setreceiver c ctx k r
  call ctx (addplan_call o t a y v n) = addplan c ctx o t a y v n
  call ctx (setplanowner_call o k n) = setplanowner c ctx o k n
  call ctx (setfirstdays_call k d) = setfirstdays c ctx k d
  call ctx (enableplan_call o k on) = enableplan c ctx o k on
  call ctx (delfinissues_call ks) = delfinissues c ks
  call ctx (transissue_call f t k q) = transissue c ctx f t k q
  call ctx (transfer_call f t q m) = ontransfer c ctx f t q m
  call ctx (unlock_call i p k) = unlock c ctx i p k
  call ctx (endissue_call p i k) = endissue c ctx p i k

  unfoldable pub run : List (Context × Call) → State c → State c
  unfolding call
  run [] s = s
  run ((ctx, a) ∷ rest) s = run rest (after s (call ctx a s))

  -- The books of every plan balance, and every issue is sound.
  pub record Inv (s : State c) : Type 0 where
    pub books : (id : ℕ) → Books c id s
    pub sound : (j : ℕ) → SoundAt c j s

  on_memo-Books :
      (id : ℕ) (ctx : Context) (from : ℕ) (q : Asset) (ps : List Text) (s : State c)
      → Books c id s
      → OnOk (Books c id) (on_memo c ctx from q ps s)
  unfolding on_memo
  on_memo-Books id ctx from q [] s b = tt
  on_memo-Books id ctx from q (a ∷ []) s b = tt
  on_memo-Books id ctx from q (a ∷ p ∷ []) s b =
      ground (arith, pay_plan_fee-Books c id ctx s b from q p)
  on_memo-Books id ctx from q (a ∷ r ∷ p ∷ []) s b = tt
  on_memo-Books id ctx from q (a ∷ r ∷ p ∷ d ∷ []) s b = elim (Option-cases (c.name_of r)) [
    | inl bad ↦ ground arith
    | inr (rv, fr) ↦ elim (Option-cases (to_uint64 p)) [
      | inl bad ↦ ground arith
      | inr (k, fk) ↦ elim (Option-cases (to_uint64 d)) [
        | inl bad ↦ ground arith
        | inr (n, fn) ↦ ground (arith, create_issue-Books c id ctx s b from q rv k n)
      ]
    ]
  ]
  on_memo-Books id ctx from q (a ∷ r ∷ p ∷ d ∷ x ∷ ps) s b = tt

  on_memo-SoundAt :
      (j : ℕ) (ctx : Context) (from : ℕ) (q : Asset) (ps : List Text) (s : State c)
      → ((k : ℕ) → SoundAt c k s)
      → OnOk (SoundAt c j) (on_memo c ctx from q ps s)
  unfolding on_memo pay_plan_fee
  on_memo-SoundAt j ctx from q [] s b = tt
  on_memo-SoundAt j ctx from q (a ∷ []) s b = tt
  on_memo-SoundAt j ctx from q (a ∷ p ∷ []) s b = ground (arith, b j)
  on_memo-SoundAt j ctx from q (a ∷ r ∷ p ∷ []) s b = tt
  on_memo-SoundAt j ctx from q (a ∷ r ∷ p ∷ d ∷ []) s b = elim (Option-cases (c.name_of r)) [
    | inl bad ↦ ground arith
    | inr (rv, fr) ↦ elim (Option-cases (to_uint64 p)) [
      | inl bad ↦ ground arith
      | inr (k, fk) ↦ elim (Option-cases (to_uint64 d)) [
        | inl bad ↦ ground arith
        | inr (n, fn) ↦ ground (arith, create_issue-SoundAt c j ctx s b from q rv k n)
      ]
    ]
  ]
  on_memo-SoundAt j ctx from q (a ∷ r ∷ p ∷ d ∷ x ∷ ps) s b = tt

  module _ (ctx : Context) (s : State c) (v : Inv s) where
    call-Books : (id : ℕ) (a : Call) → OnOk (Books c id) (call ctx a s)
    unfolding call ontransfer
    call-Books id (init_call a f r) = init-Books c id ctx s (v.books id) a f r
    call-Books id (setreceiver_call k r) = setreceiver-Books c id ctx s (v.books id) k r
    call-Books id (addplan_call o t a y w n) = addplan-Books c id ctx s (v.books id) o t a y w n
    call-Books id (setplanowner_call o k n) = setplanowner-Books c id ctx s (v.books id) o k n
    call-Books id (setfirstdays_call k d) = setfirstdays-Books c id ctx s (v.books id) k d
    call-Books id (enableplan_call o k on) = enableplan-Books c id ctx s (v.books id) o k on
    call-Books id (delfinissues_call ks) = delfinissues-Books c id ks s (v.books id)
    call-Books id (transissue_call f t k q) = transissue-Books c id ctx s (v.books id) f t k q
    call-Books id (transfer_call f t q m) =
        ground (arith, v.books id, on_memo-Books id ctx f q (split m b':') s (v.books id))
    call-Books id (unlock_call i p k) =
        unlock-Books c id ctx s (v.books id) i p k (λ j e. SoundAt-found c k s j (v.sound k) e)
    call-Books id (endissue_call p i k) =
        endissue-Books c id ctx s (v.books id) p i k (λ j e. SoundAt-found c k s j (v.sound k) e)

    call-SoundAt : (j : ℕ) (a : Call) → OnOk (SoundAt c j) (call ctx a s)
    unfolding call ontransfer init addplan setplanowner enableplan
    call-SoundAt j (init_call a f r) = ground (arith, v.sound j)
    call-SoundAt j (setreceiver_call k r) = setreceiver-SoundAt c j ctx s v.sound k r
    call-SoundAt j (addplan_call o t a y w n) = ground (arith, v.sound j)
    call-SoundAt j (setplanowner_call o k n) = ground (arith, v.sound j)
    call-SoundAt j (setfirstdays_call k d) = setfirstdays-SoundAt c j ctx s v.sound k d
    call-SoundAt j (enableplan_call o k on) = ground (arith, v.sound j)
    call-SoundAt j (delfinissues_call ks) = delfinissues-SoundAt c j ks s (v.sound j)
    call-SoundAt j (transissue_call f t k q) = transissue-SoundAt c j ctx s v.sound f t k q
    call-SoundAt j (transfer_call f t q m) =
        ground (arith, v.sound j, on_memo-SoundAt j ctx f q (split m b':') s v.sound)
    call-SoundAt j (unlock_call i p k) = unlock-SoundAt c j ctx s v.sound i p k
    call-SoundAt j (endissue_call p i k) = endissue-SoundAt c j ctx s v.sound p i k

  -- Where the invariant holds at first, it holds after any history of calls, failed ones included.
  -- The books of every plan balance: its total issued is its total unlocked plus its total refunded
  -- plus what its running issues still lock. And each issue is ongoing or finished, and split in
  -- full into a locked and an unlocked part while it is ongoing.
  pub run-Inv : (calls : List (Context × Call)) (s : State c) → Inv s → Inv (run calls s)
  unfolding run
  run-Inv [] s v = v
  run-Inv ((ctx, a) ∷ rest) s v = run-Inv rest (after s (call ctx a s)) (record {
    books = λ id. after_holds (Books c id) s (call ctx a s) (v.books id) (call-Books ctx s v id a);
    sound = λ j. after_holds (SoundAt c j) s (call ctx a s) (v.sound j) (call-SoundAt ctx s v j a);
  })
