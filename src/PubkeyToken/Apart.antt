-- ===== src/PubkeyToken/Apart.antt =====
-- pubkey.token: what two different hashes come to.
use toolkit_contracts.Base.{
  Bool, OnOk, Option-cases, [], arith, false, inl, inr, none, refl, some, ℕ, ◌%◌, ◌+◌, ◌==◌, ◌^◌,
  ◌∷◌, ◌≡◌,
}
use toolkit_contracts.Chain.{Asset, Chain, Context, Rows, find-put}
use toolkit_contracts.PubkeyToken.State.{PubkeyAccount, State}
use toolkit_contracts.PubkeyToken.Actions.{find_hash, find_key, move, newaccount, receive}

pub find_hash-nothing :
    (packed_hash : ℕ → ℕ) (h : ℕ) (m : Rows PubkeyAccount)
    → ((k : ℕ) → packed_hash k == h ≡ false)
    → find_hash packed_hash h m ≡ none
unfolding find_hash
find_hash-nothing packed_hash h [] n = refl
find_hash-nothing packed_hash h ((k, a) ∷ m) n =
    ground (arith, n a.pubkey, find_hash-nothing packed_hash h m n)

module _ (c : Chain) (raw_hash packed_hash : ℕ → ℕ) (recovers : ℕ → ℕ → ℕ → ℕ → Bool) where
  -- Where the hash by which a key is looked up is never one of the hashes of the index, no deposit
  -- can be paid out: neither `newaccount` nor `move` ever succeeds.
  pub hashes_apart :
      (ctx : Context) (miner pubkey to sig time : ℕ) (s : State c)
      → ((k : ℕ) → packed_hash k == raw_hash pubkey ≡ false)
      → OnOk (λ t. ⊥) (newaccount c raw_hash packed_hash recovers ctx miner pubkey to sig s)
        × OnOk (λ t. ⊥) (move c raw_hash packed_hash recovers ctx miner pubkey time to sig s)
  unfolding newaccount move find_key
  hashes_apart ctx miner pubkey to sig time s n =
      let missing = find_hash-nothing packed_hash (raw_hash pubkey) (c.entries s.pkaccts) n in
      (ground (arith, missing), ground (arith, missing))

  -- Where the hash by which a key is looked up is never one of the hashes of the index, a deposit
  -- that goes through is never added to an earlier one for the key: it gets a row of its own, under
  -- a number that was free and is the last one then, and every other row stays.
  pub receive_appends :
      (ctx : Context) (pubkey : ℕ) (q : Asset) (s : State c)
      → ((k : ℕ) → packed_hash k == raw_hash pubkey ≡ false)
      → OnOk
          (λ s'.
            (c.find s.pkaccts s'.global.last_idx ≡ none)
            × (s'.global.last_idx ≡ (s.global.last_idx + 1) % 2 ^ 64)
            × (c.find s'.pkaccts s'.global.last_idx
                ≡ some (record {
                  id = s'.global.last_idx;
                  pubkey = pubkey;
                  quantity = q;
                  last_recv_at = ctx.now;
                }))
            × ((k : ℕ) → k == s'.global.last_idx ≡ false → c.find s'.pkaccts k ≡ c.find s.pkaccts k)
            × (s'.sent ≡ s.sent))
          (receive c raw_hash packed_hash recovers ctx pubkey q s)
  unfolding receive find_key
  receive_appends ctx pubkey q s n =
      let missing = find_hash-nothing packed_hash (raw_hash pubkey) (c.entries s.pkaccts) n in
      let id = (s.global.last_idx + 1) % 2 ^ 64 in
      let row : PubkeyAccount = record {
        id = id;
        pubkey = pubkey;
        quantity = q;
        last_recv_at = ctx.now;
      } in
      let here : c.find (c.put s.pkaccts id row) id ≡ some row =
        ground (arith, find-put c s.pkaccts id row id) in
      let others : (k : ℕ)
          → k == id ≡ false
          → c.find (c.put s.pkaccts id row) k ≡ c.find s.pkaccts k =
        λ k other. ground (arith, other, find-put c s.pkaccts id row k) in
      elim (Option-cases (c.find s.pkaccts id)) [
        | inr (old, taken) ↦ ground (arith, missing, taken)
        | inl free ↦ ground (arith, missing, free, here, others)
      ]
