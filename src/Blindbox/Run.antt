-- ===== src/Blindbox/Run.antt =====
-- flon.blindbox: histories of calls (the actions that blindbox.hpp declares).
use toolkit_contracts.Base.{
  Bool, List, Option, Result, Text, [], after, false, none, some, ℕ, ◌<◌, ◌∷◌, ◌≡◌,
}
use toolkit_contracts.Chain.{Asset, Chain, Context}
use toolkit_contracts.Blindbox.State.{Booth, DealTrace, Error, NAsset, Nfts, State}
use toolkit_contracts.Blindbox.Stock.{nfts_or_none}
use toolkit_contracts.Blindbox.Actions.{
  closebooth, createbooth, dealtrace, delboothbox, enablebooth, fixboothbox, init,
  on_transfer_ntoken, setboothtime, setmaxbox, transfer_token,
}
use toolkit_contracts.Blindbox.Counts.{Matches}

pub data Call : Type 0 where
  init_call : ℕ → ℕ → Call
  setmaxbox_call : ℕ → Call
  createbooth_call : ℕ → Text → ℕ → ℕ → ℕ → Asset → ℕ → ℕ → Call
  enablebooth_call : ℕ → ℕ → Bool → Call
  setboothtime_call : ℕ → ℕ → ℕ → ℕ → Call
  nft_call : ℕ → ℕ → List NAsset → Text → Call
  token_call : List (List ℕ) → ℕ → ℕ → Asset → Text → Call
  closebooth_call : ℕ → ℕ → Call
  dealtrace_call : DealTrace → Call
  delboothbox_call : ℕ → ℕ → Call
  fixboothbox_call : ℕ → NAsset → Call

-- The contract's own account does not sign a repair of a booth's NFTs, which would leave the booth's
-- numbers as they are.
abbrev pub NoRepairs : List (Context × Call) → Type 0
NoRepairs [] = Unit {0}
NoRepairs ((ctx, delboothbox_call k y) ∷ rest) = (ctx.has_auth ctx.self ≡ false) × NoRepairs rest
NoRepairs ((ctx, fixboothbox_call k n) ∷ rest) = (ctx.has_auth ctx.self ≡ false) × NoRepairs rest
NoRepairs ((ctx, a) ∷ rest) = NoRepairs rest

-- A booth that is not there has no NFTs.
abbrev pub Stocked : Option Booth → Option Nfts → Type 0
Stocked none none = Unit {0}
Stocked none (some m) = ⊥
Stocked (some b) o = Matches b (nfts_or_none o)

module _ (c : Chain) where
  abbrev pub StockedAt : ℕ → State c → Type 0
  StockedAt j s = Stocked (c.find s.booths j) (c.find s.boothboxes j)

  -- The numbers of every booth count its NFTs, and the numbers above the last booth's are free.
  pub record Inv (s : State c) : Type 0 where
    pub stocked : (j : ℕ) → StockedAt j s
    pub fresh : (j : ℕ) → s.global.last_booth_id < j → c.find s.booths j ≡ none

  -- What a call that opens no booth keeps of the number `j`.
  abbrev pub Kept : ℕ → State c → State c → Type 0
  Kept j s s' =
      StockedAt j s'
      × (c.find s.booths j ≡ none → c.find s'.booths j ≡ none)
      × (s'.global.last_booth_id ≡ s.global.last_booth_id)

module _ (c : Chain) (has_plan : ℕ → ℕ → ℕ → Bool) where
  unfoldable pub call : Context → Call → State c → Result Error (State c)
  unfolding init setmaxbox createbooth enablebooth setboothtime on_transfer_ntoken transfer_token
      closebooth dealtrace delboothbox fixboothbox
  call ctx (init_call a d) = init c ctx a d
  call ctx (setmaxbox_call n) = setmaxbox c ctx n
  call ctx (createbooth_call o t n f p q a d) = createbooth c ctx has_plan o t n f p q a d
  call ctx (enablebooth_call o k on) = enablebooth c ctx o k on
  call ctx (setboothtime_call o k a b) = setboothtime c ctx o k a b
  call ctx (nft_call f t ns m) = on_transfer_ntoken c ctx f t ns m
  call ctx (token_call ds f t q m) = transfer_token c ctx ds f t q m
  call ctx (closebooth_call o k) = closebooth c ctx o k
  call ctx (dealtrace_call d) = dealtrace c ctx d
  call ctx (delboothbox_call k y) = delboothbox c ctx k y
  call ctx (fixboothbox_call k n) = fixboothbox c ctx k n

  unfoldable pub run : List (Context × Call) → State c → State c
  unfolding call
  run [] s = s
  run ((ctx, a) ∷ rest) s = run rest (after s (call ctx a s))
