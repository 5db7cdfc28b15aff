-- ===== src/Blindbox/Draw.antt =====
-- flon.blindbox: a random draw always finds an NFT.
use toolkit_contracts.Base.{
  Bool-cases, List, [], arith, if◌then◌else◌, inl, inr, leb, ok, refl, some, ℕ, ◌%◌, ◌+◌, ◌-◌, ◌<◌,
  ◌==◌, ◌^◌, ◌∷◌, ◌≡◌, ◌≤◌,
}
use toolkit_contracts.Chain.{lookup, tally}
use toolkit_contracts.Blindbox.State.{Booth, Nfts}
use toolkit_contracts.Blindbox.Stock.{one_nft, pick, rand, take_nft}
use toolkit_contracts.Blindbox.Counts.{Matches, pick-found, with_numbers}

rand_bounds :
    (range : ℕ) (hashes : List ℕ) (r : ℕ) → rand range hashes ≡ some r → (0 < r) × (r ≤ range)
unfolding rand
rand_bounds range [] r h = cc
rand_bounds range (x ∷ hashes) r h = ground (arith, rand_bounds range hashes r)

pick-some :
    (r c : ℕ) (m : Nfts)
    → c < r
    → r ≤ c + tally (λ n. n) m
    → c + tally (λ n. n) m < 2 ^ 64
    → (e : ℕ × ℕ) × (pick r c m ≡ some e)
unfolding pick
pick-some r c [] h k l = absurd (omega arith)
pick-some r c ((j, n) ∷ m) h k l = elim (Bool-cases (leb r ((c + n) % 2 ^ 64))) [
  | inl here ↦ ((j, n), ground (arith, here))
  | inr later ↦
      let rest = pick-some r ((c + n) % 2 ^ 64) m (ground arith) (ground arith) (ground arith) in
      (rest.0, ground (arith, later, rest.1))
]

-- Where the numbers of a booth are those of its NFTs, which are fewer than 2^64, a draw for which
-- one of the hashes is accepted takes one NFT of a symbol that the booth has.
pub one_nft_succeeds :
    (hashes : List ℕ) (b : Booth) (m : Nfts) (r : ℕ)
    → Matches b m
    → tally (λ n. n) m < 2 ^ 64
    → rand b.nft_num hashes ≡ some r
    → (k : ℕ) × (n : ℕ) × (b' : Booth) × (one_nft hashes b m ≡ ok (k, b', take_nft k n m))
      × (lookup k m ≡ some n)
      × (b'.nft_num + 1 ≡ b.nft_num)
unfolding one_nft
one_nft_succeeds hashes b m r v l h =
    let within = rand_bounds b.nft_num hashes r h in
    let entry = pick-some r 0 m within.0 (omega (arith, within.1, v.nfts)) (omega arith) in
    let e = entry.0 in
    let b' =
      with_numbers b ((b.nft_num + 2 ^ 64 - 1) % 2 ^ 64)
        (if e.1 == 1 then (b.nft_box_num + 2 ^ 64 - 1) % 2 ^ 64 else b.nft_box_num) in
    (
      e.0,
      e.1,
      b',
      rw (h, entry.1) refl,
      pick-found r 0 m e v.sorted entry.1,
      omega (arith, v.nfts, within),
    )
