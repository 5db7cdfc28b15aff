-- ===== src/PubkeyToken/Locked.antt =====
-- pubkey.token: what two different hashes come to over histories of calls.
use toolkit_contracts.Base.{
  +ℤ_zero, Bool, List, OnOk, OnOk-map, Option-cases, Result, Result-cases, Text, [], after, arith,
  err, false, inl, inr, int_laws, ok, parts_of_eq, pos, refl, some, sym, ℕ, ℤ, ◌%◌, ◌+ℤ◌, ◌+◌, ◌==◌,
  ◌^◌, ◌∙◌, ◌∷◌, ◌≡◌,
}
use toolkit_contracts.Chain.{Asset, Chain, Context, find-put, total, total-put_new}
use toolkit_contracts.PubkeyToken.State.{Error, PubkeyAccount, State}
use toolkit_contracts.PubkeyToken.Base58.{str_to_pubkey}
use toolkit_contracts.PubkeyToken.Actions.{find_key, init, move, newaccount, ontransfer, receive}
use toolkit_contracts.PubkeyToken.Apart.{find_hash-nothing, hashes_apart}
use toolkit_contracts.PubkeyToken.Books.{row_value}
use toolkit_contracts.PubkeyToken.Run.{
  Call, call, if_ok, inflow, init_call, move_call, newaccount_call, run, tally, transfer_call,
}

module _ (c : Chain) (raw_hash packed_hash : ℕ → ℕ) (recovers : ℕ → ℕ → ℕ → ℕ → Bool)
    (apart : (k j : ℕ) → packed_hash k == raw_hash j ≡ false) where
  abbrev pub held : State c → ℤ
  held s = total c row_value s.pkaccts

  -- Nothing is sent, every row stays, and what is held grows by an amount.
  abbrev pub Locked : ℤ → State c → State c → Type 0
  Locked d s s' =
      (s'.sent ≡ s.sent)
      × ((k : ℕ) (a : PubkeyAccount) → c.find s.pkaccts k ≡ some a → c.find s'.pkaccts k ≡ some a)
      × (held s' ≡ held s +ℤ d)

  unmoved : (s : State c) → Locked (pos 0) s s
  unmoved s = (refl, λ k a f. f, sym (+ℤ_zero (held s)))

  receive-Locked :
      (ctx : Context) (pubkey : ℕ) (q : Asset) (s : State c)
      → OnOk (Locked q.amount s) (receive c raw_hash packed_hash recovers ctx pubkey q s)
  unfolding receive find_key
  receive-Locked ctx pubkey q s =
      let missing =
        find_hash-nothing packed_hash (raw_hash pubkey) (c.entries s.pkaccts)
          (λ k. apart k pubkey) in
      let id = (s.global.last_idx + 1) % 2 ^ 64 in
      let row : PubkeyAccount = record {
        id = id;
        pubkey = pubkey;
        quantity = q;
        last_recv_at = ctx.now;
      } in
      elim (Option-cases (c.find s.pkaccts id)) [
        | inr (old, taken) ↦ ground (arith, missing, taken)
        | inl free ↦
            let more = total-put_new c s.pkaccts row_value id row free in
            let stays : (k : ℕ) (a : PubkeyAccount)
                → c.find s.pkaccts k ≡ some a
                → c.find (c.put s.pkaccts id row) k ≡ some a =
              λ k a f. ground (arith, f, free, find-put c s.pkaccts id row k) in
            ground (arith, missing, free, more, stays)
      ]

  ontransfer-Locked :
      (ctx : Context) (from to : ℕ) (q : Asset) (memo : Text) (s : State c)
      → OnOk
          (Locked (inflow c raw_hash packed_hash recovers ctx (transfer_call from to q memo)) s)
          (ontransfer c raw_hash packed_hash recovers ctx from to q memo s)
  unfolding ontransfer
  ontransfer-Locked ctx from to q memo s = elim (Result-cases (str_to_pubkey memo)) [
    | inl (key, parsed) ↦ ground (arith, parsed, receive-Locked ctx key q s, unmoved s)
    | inr (e, bad) ↦ ground (arith, bad, unmoved s)
  ]

  never : (d : ℤ) (s : State c) (r : Result Error (State c)) → OnOk (λ t. ⊥) r → OnOk (Locked d s) r
  never d s r = OnOk-map (λ t. ⊥) (Locked d s) r (λ t h. absurd h)

  call-Locked :
      (ctx : Context) (a : Call) (s : State c)
      → OnOk
          (Locked (inflow c raw_hash packed_hash recovers ctx a) s)
          (call c raw_hash packed_hash recovers ctx a s)
  unfolding call init
  call-Locked ctx (init_call a) s = ground (arith, unmoved s)
  call-Locked ctx (transfer_call f t q m) s = ontransfer-Locked ctx f t q m s
  call-Locked ctx (newaccount_call n k a g) s =
      never (pos 0) s (newaccount c raw_hash packed_hash recovers ctx n k a g s)
        (hashes_apart c raw_hash packed_hash recovers ctx n k a g 0 s (λ j. apart j k)).0
  call-Locked ctx (move_call n k l a g) s =
      never (pos 0) s (move c raw_hash packed_hash recovers ctx n k l a g s)
        (hashes_apart c raw_hash packed_hash recovers ctx n k a g l s (λ j. apart j k)).1

  Locked-after :
      (ctx : Context) (a : Call) (s : State c) (r : Result Error (State c))
      → OnOk (Locked (inflow c raw_hash packed_hash recovers ctx a) s) r
      → Locked
          (if_ok c raw_hash packed_hash recovers (inflow c raw_hash packed_hash recovers) ctx a r)
          s
          (after s r)
  Locked-after ctx a s (ok s') g = g
  Locked-after ctx a s (err e) g = unmoved s

  -- Where the hash by which keys are looked up is never one of the hashes of the index, then in any
  -- history of calls nothing is sent, for a key or for gas, every row stays as it is, and what is
  -- held for all keys grows by just what the successful calls bring in: no deposit ever comes out.
  pub run-Locked :
      (calls : List (Context × Call)) (s : State c)
      → Locked
          (tally c raw_hash packed_hash recovers (inflow c raw_hash packed_hash recovers) calls s)
          s
          (run c raw_hash packed_hash recovers calls s)
  unfolding run tally
  run-Locked [] s = unmoved s
  run-Locked ((ctx, a) ∷ rest) s =
      let r = call c raw_hash packed_hash recovers ctx a s in
      let now = Locked-after ctx a s r (call-Locked ctx a s) in
      let later = run-Locked rest (after s r) in
      (
        later.0 ∙ now.0,
        λ k b f. later.1 k b (now.1 k b f),
        omega (int_laws, parts_of_eq now.2, parts_of_eq later.2),
      )
