-- ===== src/Redpack/Ledger.antt =====
-- flon.redpack: what comes in with a transfer is booked.
use mathlib.Core.List.{head?}
use toolkit_contracts.Base.{
  Bool, Bool-cases, List, OnOk, Option, Option-cases, Text, [], arith, eq_ℤ, false, inl, inr,
  int_laws, ltb_ℤ, none, not, ok, parts_of_eq, pos, refl, some, split_raw, stoi, text_eq, true, ℕ,
  ℤ, ◌%◌, ◌+ℤ◌, ◌+◌, ◌==◌, ◌^◌, ◌||◌, ◌∷◌, ◌≡◌,
}
use toolkit_contracts.Chain.{
  Asset, Chain, Context, sent_value, total, total-put, total-put_new, weigh,
}
use toolkit_contracts.Redpack.State.{AssignType, Redpack, State, servicing}
use toolkit_contracts.Redpack.Actions.{
  deposit, handle_deposit, handle_fee_payment, new_redpack, on_action, token_transfer,
}
use toolkit_contracts.Redpack.Memo.{awrap_word, fee_word, flon_token, type_of}
use toolkit_contracts.Redpack.Conserve.{funds, left_value}

-- What the notification of a transfer brings in: nothing where the contract itself pays, or where
-- somebody else is paid.
abbrev pub is_incoming : Context → ℕ → ℕ → Bool
is_incoming ctx from to = not (from == ctx.self || not (to == ctx.self))

-- The account of the contract from which fees are passed on, where the name is one.
abbrev pub fee_bank : Chain → ℕ
fee_bank c = elim (c.name_of flon_token) [ none ↦ 0 | some bank ↦ bank ]

-- Whether the first part of a memo says that a fee is paid.
abbrev pub pays_fee : Text → Bool
pays_fee memo = elim (head? (split_raw [] b':' memo)) [ none ↦ false | some w ↦ text_eq w fee_word ]

module _ (c : Chain) (P : State c → Type 0) (ctx : Context) (from : ℕ) (q : Asset) (s : State c)
    (deposits : ltb_ℤ (pos 0) q.amount ≡ true
      → (code : ℕ) (kind : Option AssignType) (did : Bool) (count : ℤ) (hash : Text)
        (cover : Option ℕ)
      → OnOk P (deposit c ctx from q code kind did count hash cover s)) where
  handle_deposit-All :
      ltb_ℤ (pos 0) q.amount ≡ true
      → (parts : List Text) → OnOk P (handle_deposit c ctx from q parts s)
  unfolding handle_deposit
  handle_deposit-All some_paid (w ∷ code ∷ kind ∷ did ∷ count ∷ hash ∷ cover ∷ rest) =
      elim (Option-cases (c.name_of code)) [
        | inl bad ↦ ground (arith, bad)
        | inr (n, fn) ↦ elim (Option-cases (stoi did)) [
          | inl bad ↦ ground (arith, bad, fn)
          | inr (d, fd) ↦ elim (Option-cases (stoi count)) [
            | inl bad ↦ ground (arith, bad, fn, fd)
            | inr (k, fk) ↦ ground (
              arith,
              fn,
              fd,
              fk,
              deposits some_paid n (type_of c kind) (eq_ℤ d (pos 1)) k hash (c.name_of cover),
            )
          ]
        ]
      ]
  handle_deposit-All some_paid _ = tt

  -- An incoming transfer is a deposit or a fee.
  pub token_transfer-All :
      (to : ℕ) (memo : Text)
      → is_incoming ctx from to ≡ true
      → ((w : Text)
          → head? (split_raw [] b':' memo) ≡ some w
          → text_eq w fee_word ≡ true
          → OnOk P (handle_fee_payment c ctx q (split_raw [] b':' memo) s))
      → OnOk P (token_transfer c ctx from to q memo s)
  unfolding token_transfer on_action
  token_transfer-All to memo h fees = elim (Bool-cases (ltb_ℤ (pos 0) q.amount)) [
    | inl paid ↦ elim (Option-cases (head? (split_raw [] b':' memo))) [
      | inl bad ↦ ground (arith, h, bad)
      | inr (w, fw) ↦ elim (Bool-cases (text_eq w fee_word)) [
        | inl fee ↦
            ground
              (arith, h, fw, fee, fees w fw fee, handle_deposit-All paid (split_raw [] b':' memo))
        | inr other ↦ ground (arith, h, fw, other, handle_deposit-All paid (split_raw [] b':' memo))
      ]
    ]
    | inr unpaid ↦ ground (arith, h, unpaid)
  ]

pub token_transfer_aside :
    (c : Chain) (ctx : Context) (from to : ℕ) (q : Asset) (memo : Text) (s : State c)
    → is_incoming ctx from to ≡ false
    → token_transfer c ctx from to q memo s ≡ ok s
unfolding token_transfer
token_transfer_aside c ctx from to q memo s h = ground (arith, h)

text_eq_sound : (a b : Text) → text_eq a b ≡ true → a ≡ b
unfolding text_eq
text_eq_sound [] [] h = refl
text_eq_sound [] (y ∷ b) h = cc
text_eq_sound (x ∷ a) [] h = cc
text_eq_sound (x ∷ a) (y ∷ b) h = ground (arith, h, text_eq_sound a b)

fee_not_awrap : (w : Text) → text_eq w fee_word ≡ true → text_eq w awrap_word ≡ false
unfolding text_eq
fee_not_awrap w h = let same = text_eq_sound w fee_word h in rw same refl

module _ (bank symbol : ℕ) (c : Chain) (ctx : Context) (q : Asset) (s : State c) where
  abbrev pub Booked : State c → Type 0
  Booked s' =
      funds bank symbol c s' ≡ funds bank symbol c s +ℤ weigh bank symbol ctx.first_receiver q

  pub deposit-Booked :
      (from code : ℕ) (kind : Option AssignType) (did : Bool) (count : ℤ) (hash : Text)
      (cover : Option ℕ)
      → OnOk Booked (deposit c ctx from q code kind did count hash cover s)
  unfolding deposit
  deposit-Booked from code kind did count hash cover = elim (Option-cases kind) [
    | inl bad ↦ ground (arith, bad)
    | inr (t, ft) ↦ elim (Option-cases cover) [
      | inl bad ↦ ground (arith, bad, ft)
      | inr (n, fn) ↦ elim (Option-cases (c.find s.redpacks code)) [
        | inl fresh ↦
            let fee = s.global.unwrap_fee_required in
            let id = (s.globalidx.last_redpack_id + 1) % 2 ^ 64 in
            let row = new_redpack ctx from q code t did count hash n fee id in
            let more = total-put_new c s.redpacks (left_value bank symbol c) code row fresh in
            let step : sent_value bank symbol s.sent
                  +ℤ total c (left_value bank symbol c) (c.put s.redpacks code row)
                ≡ funds bank symbol c s +ℤ weigh bank symbol ctx.first_receiver q =
              omega (int_laws, parts_of_eq more) in
            ground (arith, ft, fn, fresh, step)
        | inr (old, taken) ↦ ground (arith, ft, fn, taken)
      ]
    ]
  ]

  -- A fee is passed on in the token of one contract, whatever the contract that it came from.
  abbrev pub PassedOn : State c → Type 0
  PassedOn s' = funds bank symbol c s' ≡ funds bank symbol c s +ℤ weigh bank symbol (fee_bank c) q

  handle_fee_payment-PassedOn :
      (parts : List Text) → OnOk PassedOn (handle_fee_payment c ctx q parts s)
  unfolding handle_fee_payment
  handle_fee_payment-PassedOn (w ∷ code ∷ rest) = elim (Option-cases (c.name_of code)) [
    | inl bad ↦ ground (arith, bad)
    | inr (n, fn) ↦ elim (Option-cases (c.find s.redpacks n)) [
      | inl bad ↦ ground (arith, bad, fn)
      | inr (old, fo) ↦ elim (Option-cases (c.name_of flon_token)) [
        | inl bad ↦ ground (arith, bad, fn, fo)
        | inr (flon, ff) ↦
            let row : Redpack = record old { status = servicing; updated_at = ctx.now } in
            let same = total-put c s.redpacks (left_value bank symbol c) n row old fo in
            let step : weigh bank symbol flon q
                  +ℤ sent_value bank symbol s.sent
                  +ℤ total c (left_value bank symbol c) (c.put s.redpacks n row)
                ≡ funds bank symbol c s +ℤ weigh bank symbol flon q =
              omega (int_laws, parts_of_eq same) in
            ground (arith, fn, fo, ff, step)
      ]
    ]
  ]
  handle_fee_payment-PassedOn _ = tt

  pub token_transfer-PassedOn :
      (from to : ℕ) (memo : Text)
      → is_incoming ctx from to ≡ true
      → pays_fee memo ≡ true
      → OnOk PassedOn (token_transfer c ctx from to q memo s)
  unfolding token_transfer on_action
  token_transfer-PassedOn from to memo h fee =
      elim (Option-cases (head? (split_raw [] b':' memo))) [
        | inl bad ↦ ground (arith, h, bad)
        | inr (w, fw) ↦
            let is_fee : text_eq w fee_word ≡ true = ground (arith, fw, fee) in
            let other : text_eq w awrap_word ≡ false = fee_not_awrap w is_fee in
            let passed = handle_fee_payment-PassedOn (split_raw [] b':' memo) in
            ground (arith, h, fw, is_fee, other, passed)
      ]
