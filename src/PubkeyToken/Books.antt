-- ===== src/PubkeyToken/Books.antt =====
-- pubkey.token: what a deposit and a payout do to the books (src/pubkey.token.cpp).
use mathlib.Core.Path.{subst}
use toolkit_contracts.Base.{
  Bool, Bool-cases, List, OnOk, Option-cases, [], arith, inl, inr, int_laws, leb_ℤ, ltb_ℤ,
  parts_of_eq, pos, some, sym, true, ℕ, ℤ, ℤ_antisym, ◌%◌, ◌+ℤ◌, ◌+◌, ◌^◌, ◌∙◌, ◌∷◌, ◌≡◌,
}
use toolkit_contracts.Chain.{
  Asset, Chain, Context, add_asset-eq-some, find-erase, find-put, sub_asset-eq-some, total,
  total-erase, total-put, total-put_new,
}
use toolkit_contracts.PubkeyToken.State.{
  Message, PubkeyAccount, State, buygas_message, newaccount_message, transfer_message,
}
use toolkit_contracts.PubkeyToken.Actions.{find_hash, find_key, pay_and_erase, receive}
use toolkit_contracts.PubkeyToken.Lookup.{find_hash-some}

-- What was sent, by transfers and for gas.
abbrev pub spent : List Message → ℤ
spent [] = pos 0
spent (transfer_message to q ∷ sent) = q.amount +ℤ spent sent
spent (newaccount_message a k ∷ sent) = spent sent
spent (buygas_message a q ∷ sent) = q.amount +ℤ spent sent

abbrev pub row_value : PubkeyAccount → ℤ
row_value row = row.quantity.amount

module _ (c : Chain) where
  -- What was sent, and what is held for all keys.
  abbrev pub funds : State c → ℤ
  funds s = spent s.sent +ℤ total c row_value s.pkaccts

  -- Every row stands under its own number.
  abbrev pub OwnNumbers : State c → Type 0
  OwnNumbers s = (k : ℕ) (a : PubkeyAccount) → c.find s.pkaccts k ≡ some a → a.id ≡ k

  abbrev pub Grown : ℤ → State c → State c → Type 0
  Grown d s s' = OwnNumbers s' × (funds s' ≡ funds s +ℤ d)

  module _ (raw_hash packed_hash : ℕ → ℕ) (recovers : ℕ → ℕ → ℕ → ℕ → Bool) where
    -- A row that is found by a hash stands under its number.
    pub found_row :
        (s : State c) (h : ℕ) (row : PubkeyAccount)
        → OwnNumbers s
        → find_hash packed_hash h (c.entries s.pkaccts) ≡ some row
        → c.find s.pkaccts row.id ≡ some row
    found_row s h row own f =
        let (same, (k, l)) =
          find_hash-some packed_hash h (c.entries s.pkaccts) row (c.entries-IsSorted s.pkaccts) f in
        let there : c.find s.pkaccts k ≡ some row = c.find-entries s.pkaccts k ∙ l in
        let number = own k row there in
        subst (λ j. c.find s.pkaccts j ≡ some row) (sym number) there

    module _ (ctx : Context) (s : State c) (own : OwnNumbers s) where
      pub receive-Grown :
          (pubkey : ℕ) (q : Asset)
          → OnOk (Grown q.amount s) (receive c raw_hash packed_hash recovers ctx pubkey q s)
      unfolding receive find_key
      receive-Grown pubkey q =
          elim (Option-cases (find_hash packed_hash (raw_hash pubkey) (c.entries s.pkaccts))) [
            | inl new ↦
                let id = (s.global.last_idx + 1) % 2 ^ 64 in
                let row : PubkeyAccount = record {
                  id = id;
                  pubkey = pubkey;
                  quantity = q;
                  last_recv_at = ctx.now;
                } in
                elim (Option-cases (c.find s.pkaccts id)) [
                  | inr (old, taken) ↦ ground (arith, new, taken)
                  | inl free ↦
                      let more = total-put_new c s.pkaccts row_value id row free in
                      let books : spent s.sent +ℤ total c row_value (c.put s.pkaccts id row)
                          ≡ funds s +ℤ q.amount =
                        omega (int_laws, parts_of_eq more) in
                      let numbers : (k : ℕ) (a : PubkeyAccount)
                          → c.find (c.put s.pkaccts id row) k ≡ some a
                          → a.id ≡ k =
                        λ k a g. ground (arith, g, find-put c s.pkaccts id row k, own k a) in
                      ground (arith, new, free, books, numbers)
                ]
            | inr (old, fo) ↦ elim (Option-cases (c.add_asset old.quantity q)) [
              | inl over ↦ ground (arith, fo, over)
              | inr (added, fs) ↦
                  let row : PubkeyAccount = record old {
                    quantity = added;
                    last_recv_at = ctx.now;
                  } in
                  let law = (add_asset-eq-some c old.quantity q added fs).0 in
                  let there = found_row s (raw_hash pubkey) old own fo in
                  let more = total-put c s.pkaccts row_value old.id row old there in
                  let books : spent s.sent +ℤ total c row_value (c.put s.pkaccts old.id row)
                      ≡ funds s +ℤ q.amount =
                    omega (int_laws, parts_of_eq more, parts_of_eq law) in
                  let numbers : (k : ℕ) (a : PubkeyAccount)
                      → c.find (c.put s.pkaccts old.id row) k ≡ some a
                      → a.id ≡ k =
                    λ k a g. ground (arith, g, find-put c s.pkaccts old.id row k, own k a) in
                  ground (arith, fo, fs, books, numbers)
            ]
          ]

      pub pay_and_erase-Grown :
          (miner to : ℕ) (row : PubkeyAccount)
          → c.find s.pkaccts row.id ≡ some row
          → leb_ℤ s.global.miner_fee.amount row.quantity.amount ≡ true
          → OnOk (Grown (pos 0) s) (pay_and_erase c raw_hash packed_hash recovers miner to row s)
      unfolding pay_and_erase
      pay_and_erase-Grown miner to row there covered =
          elim (Option-cases (c.sub_asset row.quantity s.global.miner_fee)) [
            | inl under ↦ ground (arith, under)
            | inr (rest, fs) ↦
                let law = (sub_asset-eq-some c row.quantity s.global.miner_fee rest fs).0 in
                let less = total-erase c s.pkaccts row_value row.id row there in
                let numbers : (k : ℕ) (a : PubkeyAccount)
                    → c.find (c.erase s.pkaccts row.id) k ≡ some a
                    → a.id ≡ k =
                  λ k a g. ground (arith, g, find-erase c s.pkaccts row.id k, own k a) in
                elim (Bool-cases (ltb_ℤ s.global.miner_fee.amount row.quantity.amount)) [
                  | inl more ↦
                      let books : rest.amount
                            +ℤ (s.global.miner_fee.amount +ℤ spent s.sent)
                            +ℤ total c row_value (c.erase s.pkaccts row.id)
                          ≡ funds s +ℤ pos 0 =
                        omega (int_laws, parts_of_eq law, parts_of_eq less) in
                      ground (arith, fs, more, books, numbers)
                  | inr all ↦
                      let same : s.global.miner_fee.amount ≡ row.quantity.amount =
                        ℤ_antisym s.global.miner_fee.amount row.quantity.amount covered
                          (ground (arith, all)) in
                      let books : s.global.miner_fee.amount
                            +ℤ spent s.sent
                            +ℤ total c row_value (c.erase s.pkaccts row.id)
                          ≡ funds s +ℤ pos 0 =
                        omega (int_laws, parts_of_eq less, parts_of_eq same) in
                      ground (arith, fs, all, books, numbers)
                ]
          ]
