-- ===== src/Blindbox/Counts.antt =====
-- flon.blindbox: a booth's numbers count the NFTs that it has.
use toolkit_contracts.Base.{
  Bool-cases, List, OnOk, OnOk-map, OnOk_apply, Option-cases, Result-cases, [], arith,
  if◌then◌else◌, inl, inr, is_some, pos_part, refl, some, ℕ, ◌%◌, ◌+◌, ◌-◌, ◌==◌, ◌^◌, ◌∷◌, ◌≡◌,
}
use toolkit_contracts.Chain.{
  Above-IsSorted, IsSorted, IsSorted-insert, IsSorted-remove, Rows, lookup, lookup-Above, tally,
  tally-insert, tally-insert_new, tally-remove,
}
use toolkit_contracts.Blindbox.State.{Booth, NAsset, Nfts}
use toolkit_contracts.Blindbox.Stock.{
  add_bought, add_loop, add_nft, buy_loop, one_nft, pick, rand, take_nft,
}

-- The numbers of a booth are those of its NFTs, modulo 2^64.
pub record Matches (b : Booth) (m : Nfts) : Type 0 where
  pub sorted : IsSorted m
  pub nfts : b.nft_num ≡ tally (λ n. n) m % 2 ^ 64
  pub boxes : b.nft_box_num ≡ tally (λ n. 1) m % 2 ^ 64

abbrev pub with_numbers : Booth → ℕ → ℕ → Booth
with_numbers b num boxes = record b { nft_num = num; nft_box_num = boxes }

add_nft-tally :
    (symbol amount : ℕ) (m : Nfts)
    → IsSorted m
    → IsSorted (add_nft symbol amount m)
      × (tally (λ n. n) (add_nft symbol amount m) % 2 ^ 64 ≡ (tally (λ n. n) m + amount) % 2 ^ 64)
      × (tally (λ n. 1) (add_nft symbol amount m)
          ≡ (if is_some (lookup symbol m) then tally (λ n. 1) m else tally (λ n. 1) m + 1))
unfolding add_nft
add_nft-tally symbol amount m s = elim (Option-cases (lookup symbol m)) [
  | inl new ↦
      rw (new, add_nft)
        (
          IsSorted-insert symbol amount m s,
          omega (arith, tally-insert_new (λ n. n) symbol amount m new),
          omega (arith, tally-insert_new (λ n. 1) symbol amount m new),
        )
  | inr (n, old) ↦
      let v : ℕ = (n + amount) % 2 ^ 64 in
      rw (old, add_nft)
        (
          IsSorted-insert symbol v m s,
          omega (arith, tally-insert (λ n. n) symbol v n m s old),
          omega (arith, tally-insert (λ n. 1) symbol v n m s old),
        )
]

-- What the loop counts as new is what the tallies have grown by.
abbrev pub Grown : Nfts → ℕ → ℕ → Nfts × ℕ × ℕ → Type 0
Grown m nums boxes r =
    IsSorted r.0
    × ((nums + tally (λ n. n) r.0) % 2 ^ 64 ≡ (r.1 + tally (λ n. n) m) % 2 ^ 64)
    × ((boxes + tally (λ n. 1) r.0) % 2 ^ 64 ≡ (r.2 + tally (λ n. 1) m) % 2 ^ 64)

pub add_loop-Grown :
    (assets : List NAsset) (m : Nfts) (nums boxes : ℕ)
    → IsSorted m
    → OnOk (Grown m nums boxes) (add_loop assets m nums boxes)
unfolding add_loop
add_loop-Grown [] m nums boxes s = (s, refl, refl)
add_loop-Grown (nft ∷ assets) m nums boxes s =
    let n = pos_part nft.amount in
    let m' = add_nft nft.symbol n m in
    let one = add_nft-tally nft.symbol n m s in
    let b' = if is_some (lookup nft.symbol m) then boxes else (boxes + 1) % 2 ^ 64 in
    let rest = add_loop-Grown assets m' ((nums + n) % 2 ^ 64) b' one.0 in
    let shift : (r : Nfts × ℕ × ℕ) → Grown m' ((nums + n) % 2 ^ 64) b' r → Grown m nums boxes r =
      λ r g. (g.0, omega (arith, g.1, one.1), ground (arith, g.2, one.2)) in
    let moved =
      OnOk-map (Grown m' ((nums + n) % 2 ^ 64) b') (Grown m nums boxes)
        (add_loop assets m' ((nums + n) % 2 ^ 64) b') shift rest in
    ground (arith, moved)

pub pick-found :
    (r c : ℕ) (m : Nfts) (e : ℕ × ℕ) → IsSorted m → pick r c m ≡ some e → lookup e.0 m ≡ some e.1
unfolding pick
pick-found r c [] e s h = cc
pick-found r c ((j, n) ∷ m) e s h =
    ground
      (arith, pick-found r ((c + n) % 2 ^ 64) m e (Above-IsSorted j m s), lookup-Above j e.0 m s)

take_nft-tally :
    (k n : ℕ) (m : Nfts)
    → IsSorted m
    → lookup k m ≡ some n
    → IsSorted (take_nft k n m)
      × (tally (λ n. n) (take_nft k n m) % 2 ^ 64 ≡ (tally (λ n. n) m + 2 ^ 64 - 1) % 2 ^ 64)
      × (tally (λ n. 1) (take_nft k n m)
          ≡ (if n == 1 then tally (λ n. 1) m - 1 else tally (λ n. 1) m))
unfolding take_nft
take_nft-tally k n m s h = elim (Bool-cases (n == 1)) [
  | inl one ↦ rw one (
    IsSorted-remove k m s,
    ground (arith, tally-remove (λ n. n) k n m h),
    ground (arith, tally-remove (λ n. 1) k n m h),
  )
  | inr more ↦
      let v : ℕ = (n + 2 ^ 64 - 1) % 2 ^ 64 in
      rw more (
        IsSorted-insert k v m s,
        omega (arith, tally-insert (λ n. n) k v n m s h),
        omega (arith, tally-insert (λ n. 1) k v n m s h),
      )
]

pub one_nft-Matches :
    (hashes : List ℕ) (b : Booth) (m : Nfts)
    → Matches b m
    → OnOk (λ r. Matches r.1 r.2) (one_nft hashes b m)
unfolding one_nft
one_nft-Matches hashes b m v = elim (Option-cases (rand b.nft_num hashes)) [
  | inl trap ↦ ground arith
  | inr (r, fr) ↦ elim (Option-cases (pick r 0 m)) [
    | inl trap ↦ ground arith
    | inr (e, fe) ↦
        let found = pick-found r 0 m e v.sorted fe in
        let t = take_nft-tally e.0 e.1 m v.sorted found in
        let num = (b.nft_num + 2 ^ 64 - 1) % 2 ^ 64 in
        let boxes = if e.1 == 1 then (b.nft_box_num + 2 ^ 64 - 1) % 2 ^ 64 else b.nft_box_num in
        let after_it : Matches (with_numbers b num boxes) (take_nft e.0 e.1 m) = record {
          sorted = t.0;
          nfts = omega (arith, t.1, v.nfts);
          boxes = ground (arith, t.2, v.boxes, tally-remove (λ n. 1) e.0 e.1 m found);
        } in
        ground (arith, fr, fe, after_it)
  ]
]

pub buy_loop-Matches :
    (draws : List (List ℕ)) (b : Booth) (m : Nfts) (bought : Rows NAsset)
    → Matches b m
    → OnOk (λ r. Matches r.0 r.1) (buy_loop draws b m bought)
unfolding buy_loop
buy_loop-Matches [] b m bought v = v
buy_loop-Matches (hashes ∷ draws) b m bought v = elim (Result-cases (one_nft hashes b m)) [
  | inr (x, fx) ↦ ground (arith, fx)
  | inl (one, f1) ↦
      let v' : Matches one.1 one.2 =
        OnOk_apply (λ r. Matches r.1 r.2) (one_nft hashes b m) (one_nft-Matches hashes b m v) f1 in
      elim (Option-cases (add_bought one.0 bought)) [
        | inl clash ↦ ground (arith, f1)
        | inr (bought', fb) ↦ ground (arith, f1, fb, buy_loop-Matches draws one.1 one.2 bought' v')
      ]
]
