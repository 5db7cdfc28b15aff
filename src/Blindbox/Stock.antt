-- ===== src/Blindbox/Stock.antt =====
-- flon.blindbox: the NFTs of a booth: adding, drawing and taking one (src/blindbox.cpp).
use toolkit_contracts.Base.{
  List, Option, Result, [], check, if◌then◌else◌, is_some, leb, ltb_ℤ, none, ok, or_abort, pos,
  pos_part, some, ℕ, ◌%◌, ◌+ℤ◌, ◌+◌, ◌-◌, ◌==◌, ◌>>=◌, ◌>>◌, ◌^◌, ◌∷◌,
}
use toolkit_contracts.Chain.{Rows, insert, lookup, remove}
use toolkit_contracts.Blindbox.State.{Booth, Error, NAsset, Nfts, as_int64, not_positive, platform}

-- What a booth has, where a missing row of `boothboxes` is an empty one.
abbrev pub nfts_or_none : Option Nfts → Nfts
nfts_or_none none = []
nfts_or_none (some m) = m

-- `nfts[symbol] += amount` in 64 bits; `map::operator[]` starts a missing entry at zero.
unfoldable pub add_nft : ℕ → ℕ → Nfts → Nfts
add_nft symbol amount m = elim (lookup symbol m) [
  | none ↦ insert symbol amount m
  | some n ↦ insert symbol ((n + amount) % 2 ^ 64) m
]

-- The loop of `on_transfer_ntoken`: the NFTs after it, and how many NFTs and entries are new.
unfoldable pub add_loop : List NAsset → Nfts → ℕ → ℕ → Result Error (Nfts × ℕ × ℕ)
unfolding add_nft
add_loop [] m new_nft_num new_nftbox_num = ok (m, new_nft_num, new_nftbox_num)
add_loop (nft ∷ assets) m new_nft_num new_nftbox_num = do
  check (ltb_ℤ (pos 0) nft.amount) not_positive
  let amount = pos_part nft.amount
  add_loop assets (add_nft nft.symbol amount m) ((new_nft_num + amount) % 2 ^ 64)
      (if is_some (lookup nft.symbol m) then new_nftbox_num else (new_nftbox_num + 1) % 2 ^ 64)

-- `_rand`. The hashes that its loop looks at are given, the seed's first; there is no result where
-- none of them is accepted, or where the remainder by zero traps.
unfoldable pub rand : ℕ → List ℕ → Option ℕ
rand range [] = none
rand range (r ∷ hashes) =
    let limit = 2 ^ 64 - 1 - (2 ^ 64 - 1) % range in
    let rest = rand range hashes in
    if range == 0 then none else if leb r limit then some (r % range + 1) else rest

-- The symbol whose entry the drawn number falls into; the source runs past the end where none does.
unfoldable pub pick : ℕ → ℕ → Nfts → Option (ℕ × ℕ)
pick rand_index curr_num [] = none
pick rand_index curr_num ((k, n) ∷ m) =
    let curr = (curr_num + n) % 2 ^ 64 in
    let rest = pick rand_index curr m in if leb rand_index curr then some (k, n) else rest

-- One NFT less of a symbol that has `n`; an entry that comes to zero is erased.
unfoldable pub take_nft : ℕ → ℕ → Nfts → Nfts
take_nft k n m = if n == 1 then remove k m else insert k ((n + 2 ^ 64 - 1) % 2 ^ 64) m

-- `symbol.id`
abbrev pub id_of : ℕ → ℕ
id_of symbol = symbol % 2 ^ 32

-- `bought[id] = nft`, or `+= nft`, which aborts where two symbols have one id.
unfoldable pub add_bought : ℕ → Rows NAsset → Option (Rows NAsset)
add_bought symbol bought = elim (lookup (id_of symbol) bought) [
  | none ↦ some (insert (id_of symbol) (record { amount = pos 1; symbol = symbol }) bought)
  | some nft ↦
      if nft.symbol == symbol
      then some (insert (id_of symbol) (record nft { amount = nft.amount +ℤ pos 1 }) bought)
      else none
]

abbrev pub values : {A : Type 0} → Rows A → List A
values [] = []
values ((k, a) ∷ m) = a ∷ values m

abbrev pub as_assets : Nfts → List NAsset
as_assets [] = []
as_assets ((k, n) ∷ m) = record { amount = as_int64 n; symbol = k } ∷ as_assets m

-- `_one_nft`: the symbol that is drawn, the booth, and what the booth then has.
unfoldable pub one_nft : List ℕ → Booth → Nfts → Result Error (ℕ × Booth × Nfts)
unfolding rand pick take_nft
one_nft hashes b m = do
  rand_index ← or_abort (rand b.nft_num hashes) platform
  entry ← or_abort (pick rand_index 0 m) platform
  ok (
    entry.0,
    record b {
      nft_num = (b.nft_num + 2 ^ 64 - 1) % 2 ^ 64;
      nft_box_num = if entry.1 == 1 then (b.nft_box_num + 2 ^ 64 - 1) % 2 ^ 64 else b.nft_box_num;
    },
    take_nft entry.0 entry.1 m,
  )

-- The loop of `_transfer_token`, one list of hashes for each NFT that is bought.
unfoldable pub buy_loop :
    List (List ℕ) → Booth → Nfts → Rows NAsset → Result Error (Booth × Nfts × Rows NAsset)
unfolding one_nft add_bought
buy_loop [] b m bought = ok (b, m, bought)
buy_loop (hashes ∷ draws) b m bought = do
  one ← one_nft hashes b m
  bought' ← or_abort (add_bought one.0 bought) platform
  buy_loop draws one.1 one.2 bought'
