-- ===== src/PubkeyToken/Run.antt =====
-- pubkey.token: histories of calls (the actions that pubkey.token.hpp declares).
use toolkit_contracts.Base.{
  +ℤ_zero, Bool, Bool-cases, List, OnOk, OnOk-map, Option-cases, Result, Result-cases, Text, [],
  after, arith, err, if◌then◌else◌, inl, inr, int_laws, leb_ℤ, not, ok, parts_of_eq, pos, sym,
  zero-+ℤ, ℕ, ℤ, ◌+ℤ◌, ◌==◌, ◌||◌, ◌∙◌, ◌∷◌, ◌≡◌,
}
use toolkit_contracts.Chain.{Asset, Chain, Context, make_asset-eq-some}
use toolkit_contracts.PubkeyToken.State.{
  Error, State, buygas_message, flon_symbol, newaccount_message,
}
use toolkit_contracts.PubkeyToken.Actions.{
  find_hash, find_key, init, move, new_account, newaccount, ontransfer, pay_and_erase,
}
use toolkit_contracts.PubkeyToken.Books.{
  Grown, OwnNumbers, found_row, funds, pay_and_erase-Grown, receive-Grown,
}
use toolkit_contracts.PubkeyToken.Base58.{str_to_pubkey}

-- The actions with their arguments, and the context of the call.
pub data Call : Type 0 where
  init_call : ℕ → Call
  transfer_call : ℕ → ℕ → Asset → Text → Call
  newaccount_call : ℕ → ℕ → ℕ → ℕ → Call
  move_call : ℕ → ℕ → ℕ → ℕ → ℕ → Call

module _ (c : Chain) (raw_hash packed_hash : ℕ → ℕ) (recovers : ℕ → ℕ → ℕ → ℕ → Bool) where
  unfoldable pub call : Context → Call → State c → Result Error (State c)
  unfolding init ontransfer newaccount move
  call ctx (init_call a) s = init c raw_hash packed_hash recovers ctx a s
  call ctx (transfer_call f t q m) s = ontransfer c raw_hash packed_hash recovers ctx f t q m s
  call ctx (newaccount_call n k a g) s = newaccount c raw_hash packed_hash recovers ctx n k a g s
  call ctx (move_call n k l a g) s = move c raw_hash packed_hash recovers ctx n k l a g s

  unfoldable pub run : List (Context × Call) → State c → State c
  unfolding call
  run [] s = s
  run ((ctx, a) ∷ rest) s = run rest (after s (call ctx a s))

  -- What a call that succeeds brings in, and the gas that it buys.
  abbrev pub inflow : Context → Call → ℤ
  inflow ctx (transfer_call f t q m) =
      if not (t == ctx.self) || f == ctx.self then pos 0 else q.amount
  inflow ctx a = pos 0

  abbrev pub gas : Context → Call → ℤ
  gas ctx (newaccount_call n k a g) = pos 1000000
  gas ctx a = pos 0

  abbrev pub if_ok : (Context → Call → ℤ) → Context → Call → Result Error (State c) → ℤ
  if_ok amount ctx a (ok s) = amount ctx a
  if_ok amount ctx a (err e) = pos 0

  -- The amounts of the calls of a history that succeed, added up.
  unfoldable pub tally : (Context → Call → ℤ) → List (Context × Call) → State c → ℤ
  unfolding call
  tally amount [] s = pos 0
  tally amount ((ctx, a) ∷ rest) s =
      if_ok amount ctx a (call ctx a s) +ℤ tally amount rest (after s (call ctx a s))

  module _ (ctx : Context) (s : State c) (own : OwnNumbers c s) where
    ontransfer-Grown :
        (from to : ℕ) (q : Asset) (memo : Text)
        → OnOk
            (Grown c (inflow ctx (transfer_call from to q memo)) s)
            (ontransfer c raw_hash packed_hash recovers ctx from to q memo s)
    unfolding ontransfer
    ontransfer-Grown from to q memo = elim (Result-cases (str_to_pubkey memo)) [
      | inl (key, parsed) ↦ ground (
        arith,
        parsed,
        receive-Grown c raw_hash packed_hash recovers ctx s own key q,
        own,
        +ℤ_zero (funds c s),
      )
      | inr (e, bad) ↦ ground (arith, bad, own, +ℤ_zero (funds c s))
    ]

    -- The gas is bought on top of the fee and the rest, which make up the deposit.
    newaccount-Grown :
        (miner pubkey acct sig : ℕ)
        → OnOk
            (Grown c (pos 1000000) s)
            (newaccount c raw_hash packed_hash recovers ctx miner pubkey acct sig s)
    unfolding newaccount new_account find_key
    newaccount-Grown miner pubkey acct sig =
        elim (Option-cases (find_hash packed_hash (raw_hash pubkey) (c.entries s.pkaccts))) [
          | inl missing ↦ ground (arith, missing)
          | inr (row, found) ↦ elim (Option-cases (c.make_asset (pos 1000000) flon_symbol)) [
            | inl over ↦ ground (arith, found, over)
            | inr (bought, made) ↦
                let there =
                  found_row c raw_hash packed_hash recovers s (raw_hash pubkey) row own found in
                let law = make_asset-eq-some c (pos 1000000) flon_symbol bought made in
                let s' : State c = record s {
                  sent = buygas_message acct bought ∷ newaccount_message acct pubkey ∷ s.sent;
                } in
                let more : funds c s' ≡ funds c s +ℤ pos 1000000 = rw law (omega int_laws) in
                let paid =
                  pay_and_erase-Grown c raw_hash packed_hash recovers ctx s' own miner acct row
                    there in
                elim (Bool-cases (leb_ℤ s.global.miner_fee.amount row.quantity.amount)) [
                  | inr short ↦ ground (arith, found, made, short)
                  | inl covered ↦
                      let grown =
                        OnOk-map (Grown c (pos 0) s') (Grown c (pos 1000000) s)
                          (pay_and_erase c raw_hash packed_hash recovers miner acct row s')
                          (λ t g. (g.0, g.1 ∙ +ℤ_zero (funds c s') ∙ more)) (paid covered) in
                      ground (arith, found, made, covered, grown)
                ]
          ]
        ]

    move-Grown :
        (miner pubkey time to sig : ℕ)
        → OnOk
            (Grown c (pos 0) s)
            (move c raw_hash packed_hash recovers ctx miner pubkey time to sig s)
    unfolding move find_key
    move-Grown miner pubkey time to sig =
        elim (Option-cases (find_hash packed_hash (raw_hash pubkey) (c.entries s.pkaccts))) [
          | inl missing ↦ ground (arith, missing)
          | inr (row, found) ↦
              let there =
                found_row c raw_hash packed_hash recovers s (raw_hash pubkey) row own found in
              ground (
                arith,
                found,
                pay_and_erase-Grown c raw_hash packed_hash recovers ctx s own miner to row there,
              )
        ]

    call-Grown : (a : Call) → OnOk (Grown c (inflow ctx a +ℤ gas ctx a) s) (call ctx a s)
    unfolding call init
    call-Grown (init_call a) = ground (arith, own, sym (+ℤ_zero (funds c s)), +ℤ_zero (pos 0))
    call-Grown (transfer_call f t q m) =
        rw (+ℤ_zero (inflow ctx (transfer_call f t q m))) (ontransfer-Grown f t q m)
    call-Grown (newaccount_call n k a g) = rw (zero-+ℤ (pos 1000000)) (newaccount-Grown n k a g)
    call-Grown (move_call n k l a g) = rw (+ℤ_zero (pos 0)) (move-Grown n k l a g)

  Grown-after :
      (ctx : Context) (a : Call) (s : State c) (r : Result Error (State c))
      → OwnNumbers c s
      → OnOk (Grown c (inflow ctx a +ℤ gas ctx a) s) r
      → Grown c (if_ok inflow ctx a r +ℤ if_ok gas ctx a r) s (after s r)
  Grown-after ctx a s (ok s') own g = g
  Grown-after ctx a s (err e) own g = (own, omega int_laws)

  -- In any history of calls that starts with every deposit under its own number, whatever the two
  -- hashes are: what was sent, for gas too, and what is held for all keys have grown together by
  -- what the successful calls have brought in, and by 1000000 for each account that was opened. So
  -- what is sent and still owed exceeds what came in by the gas of the accounts. Every deposit
  -- still stands under its own number.
  pub run_overspends :
      (calls : List (Context × Call)) (s : State c)
      → OwnNumbers c s
      → OwnNumbers c (run calls s)
        × (funds c (run calls s) ≡ funds c s +ℤ (tally inflow calls s +ℤ tally gas calls s))
  unfolding run tally
  run_overspends [] s own = (own, omega int_laws)
  run_overspends ((ctx, a) ∷ rest) s own =
      let now = Grown-after ctx a s (call ctx a s) own (call-Grown ctx s own a) in
      let later = run_overspends rest (after s (call ctx a s)) now.0 in
      (later.0, omega (int_laws, parts_of_eq now.1, parts_of_eq later.1))
