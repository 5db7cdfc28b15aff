-- ===== src/PubkeyToken/Lookup.antt =====
-- pubkey.token: the row that is found by a hash.
use toolkit_contracts.Base.{==_iff, Bool-cases, [], arith, inl, inr, some, ℕ, ◌==◌, ◌∷◌, ◌≡◌}
use toolkit_contracts.Chain.{Above-IsSorted, IsSorted, Rows, lookup, lookup-Above}
use toolkit_contracts.PubkeyToken.State.{PubkeyAccount}
use toolkit_contracts.PubkeyToken.Actions.{find_hash}

module _ (hash : ℕ → ℕ) where
  pub find_hash-some :
      (h : ℕ) (m : Rows PubkeyAccount) (a : PubkeyAccount)
      → IsSorted m
      → find_hash hash h m ≡ some a
      → (hash a.pubkey ≡ h) × ((k : ℕ) × (lookup k m ≡ some a))
  unfolding find_hash
  find_hash-some h [] a i e = cc
  find_hash-some h ((j, b) ∷ m) a i e = elim (Bool-cases (hash b.pubkey == h)) [
    | inl here ↦
        let same : b ≡ a = ground (arith, here) in
        let hash_b : hash b.pubkey ≡ h = (==_iff (hash b.pubkey) h).0 here in
        (rw same at hash_b, (j, ground (arith, same)))
    | inr later ↦
        let (f, (k, l)) = find_hash-some h m a (Above-IsSorted j m i) (ground (arith, later)) in
        (f, (k, ground (arith, lookup-Above j k m i, l)))
  ]
