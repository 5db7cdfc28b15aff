-- ===== src/Blindbox/Funding.antt =====
-- flon.blindbox pays flon.split: the memo of a purchase's payment, as the other contract reads it.
use toolkit_contracts.Blindbox.State.{State as BoxState}
use toolkit_contracts.Split.State.{State as SplitState}
use toolkit_contracts.Base.{
  AllDigits, IsPlain, Text, [], arith, err, false, if◌then◌else◌, is_digit, ltb, ltb_ℤ, ok, pos,
  refl, some, split, split-field, stoi, stoi-to_string, to_string, to_string-AllDigits, true, ℕ,
  ◌++◌, ◌<◌, ◌==◌, ◌^◌, ◌∷◌, ◌≡◌,
}
use toolkit_contracts.Chain.{Asset, Chain, Context}
use toolkit_contracts.Blindbox.Actions.{plan_memo}
use toolkit_contracts.Split.{
  is_plan_action, memo_boost, memo_plan, ontransfer, plan_word, platform, split_payment,
}

digits-IsPlain : (d : ℕ) (s : Text) → is_digit d ≡ false → AllDigits s → IsPlain d s
digits-IsPlain d [] n h = tt
digits-IsPlain d (c ∷ s) n h = (ground (arith, h.0), ground (arith, h.0), digits-IsPlain d s n h.1)

split-plan_memo : (id : ℕ) → split (plan_memo id) b':' ≡ plan_word ∷ to_string id ∷ (b'1' ∷ []) ∷ []
unfolding plan_memo split
split-plan_memo id =
    let number = digits-IsPlain b':' (to_string id) refl (to_string-AllDigits id) in
    let word : IsPlain b':' plan_word =
      (refl, refl, (refl, refl, (refl, refl, (refl, refl, tt)))) in
    rw
      (
        split-field b':' plan_word (to_string id ++ (b':' ∷ b'1' ∷ [])) word,
        split-field b':' (to_string id) (b'1' ∷ []) number,
      )
      refl

module _ (c : Chain) where
  is_plan_action-plan_word : (p : ℕ) → c.name_of plan_word ≡ some p → is_plan_action c p ≡ true
  unfolding is_plan_action
  is_plan_action-plan_word p n = ground (arith, n)

  memo_plan-to_string :
      (id : ℕ)
      → id < 2 ^ 64
      → memo_plan c (plan_word ∷ to_string id ∷ (b'1' ∷ []) ∷ [])
        ≡ (if ltb id (2 ^ 31) then ok (pos id) else err platform)
  unfolding memo_plan
  memo_plan-to_string id b = rw (stoi-to_string id b) (ground arith)

  memo_boost-one :
      (id : ℕ) → memo_boost c (plan_word ∷ to_string id ∷ (b'1' ∷ []) ∷ []) ≡ ok (pos 1)
  unfolding memo_boost stoi
  memo_boost-one id = refl

  module _ (ctx : Context) (from id : ℕ) (quant : Asset) (s : SplitState c) where
    -- A positive payment to the split contract with the memo that a purchase puts on it, for a plan
    -- whose number has 64 bits: below 2^31 it is split by this plan with the boost 1, and from
    -- there on the notification aborts.
    pub plan_memo_funds :
        from == ctx.self ≡ false
        → ltb_ℤ (pos 0) quant.amount ≡ true
        → (p : ℕ) → c.name_of plan_word ≡ some p
        → id < 2 ^ 64
        → ontransfer c ctx from ctx.self quant (plan_memo id) s
          ≡ (if ltb id (2 ^ 31) then split_payment c ctx from id quant (pos 1) s else err platform)
    unfolding ontransfer
    plan_memo_funds f l p n b =
        rw
          (
            split-plan_memo id,
            n,
            f,
            l,
            is_plan_action-plan_word p n,
            memo_boost-one id,
            memo_plan-to_string id b,
          )
          (ground arith)
