-- ===== src/PubkeyToken/Base58.antt =====
-- pubkey.token: public keys in text (include/pubkey_utils.hpp).
use mathlib.Core.List.{reverse}
use toolkit_contracts.Base.{
  List, Option, Result, Text, [], check, cut_at, err, if◌then◌else◌, is_space, leb, length, none,
  ok, or_abort, skip_space, some, suc, zero, ℕ, ◌%◌, ◌&&◌, ◌*◌, ◌++◌, ◌+◌, ◌-◌, ◌/◌, ◌==◌, ◌>>=◌,
  ◌>>◌, ◌∷◌,
}
use toolkit_contracts.PubkeyToken.State.{Error, bad_base58, bad_length, bad_prefix}

-- `mapBase58`: the digit of a character, and none for a character that is not one.
unfoldable pub digit_of : ℕ → Option ℕ
digit_of x =
    if leb b'1' x && leb x b'9'
    then some (x - b'1')
    else if leb b'A' x && leb x b'H'
    then some (x - b'A' + 9)
    else if leb b'J' x && leb x b'N'
    then some (x - b'J' + 17)
    else if leb b'P' x && leb x b'Z'
    then some (x - b'P' + 22)
    else if leb b'a' x && leb x b'k'
    then some (x - b'a' + 33)
    else if leb b'm' x && leb x b'z'
    then some (x - b'm' + 44)
    else none

-- The loop over the bytes, the lowest one first: they are multiplied by 58 and the carry is added.
-- It goes on while there is a carry or one of the `left` bytes in use. The bytes, the last carry,
-- and how many bytes were gone over.
unfoldable pub mul_add : ℕ → ℕ → List ℕ → List ℕ × ℕ × ℕ
mul_add carry left [] = ([], carry, 0)
mul_add carry left (b ∷ bs) =
    let total = carry + 58 * b in
    let rest = mul_add (total / 256) (left - 1) bs in
    if carry == 0 && left == 0 then (b ∷ bs, 0, 0) else ((total % 256) ∷ rest.0, rest.1, suc rest.2)

-- The loop over the characters up to white space: the bytes, how many are in use, and what follows.
unfoldable pub decode_loop : Text → List ℕ → ℕ → Option (List ℕ × ℕ × Text)
unfolding digit_of mul_add is_space
decode_loop [] b256 used = some (b256, used, [])
decode_loop (x ∷ s) b256 used =
    let go = λ (digit : ℕ).
      let step = mul_add digit used b256 in
      let rest = decode_loop s step.0 step.2 in if step.1 == 0 then rest else none in
    if is_space x
    then some (b256, used, x ∷ s)
    else elim (digit_of x) [ none ↦ none | some digit ↦ go digit ]

unfoldable pub skip_ones : Text → ℕ × Text
skip_ones [] = (0, [])
skip_ones (x ∷ s) = let rest = skip_ones s in if x == b'1' then (rest.0 + 1, rest.1) else (0, x ∷ s)

unfoldable pub zeros : ℕ → List ℕ
zeros zero = []
zeros (suc n) = 0 ∷ zeros n

unfoldable pub drop_zeros : List ℕ → List ℕ
drop_zeros [] = []
drop_zeros (b ∷ bs) = if b == 0 then drop_zeros bs else b ∷ bs

unfoldable pub take_bytes : ℕ → List ℕ → List ℕ
take_bytes zero bs = []
take_bytes (suc n) [] = []
take_bytes (suc n) (b ∷ bs) = b ∷ take_bytes n bs

-- The text up to a zero byte, as the C library reads it.
unfoldable pub c_string : Text → Text
unfolding cut_at
c_string s = elim (cut_at 0 s) [ none ↦ s | some (a, b) ↦ a ]

-- What is left of the loop's result: only white space may follow, and leading zeros are skipped.
unfoldable pub finish_bytes : ℕ → List ℕ × ℕ × Text → Option (List ℕ)
unfolding skip_space zeros drop_zeros take_bytes
finish_bytes ones (b256, used, tail) =
    if length (skip_space tail) == 0
    then some (zeros ones ++ drop_zeros (reverse (take_bytes used b256)))
    else none

-- `DecodeBase58`; there is no result where it returns false.
unfoldable pub decode_base58 : Text → Option (List ℕ)
unfolding skip_space skip_ones decode_loop finish_bytes c_string
decode_base58 str =
    let (ones, s) = skip_ones (skip_space (c_string str)) in
    let size = length s * 733 / 1000 + 1 in
    elim (decode_loop s (zeros size) 0) [ none ↦ none | some r ↦ finish_bytes ones r ]

-- The number of bytes, the highest one first.
unfoldable pub number_of : ℕ → List ℕ → ℕ
number_of acc [] = acc
number_of acc (b ∷ bs) = number_of (acc * 256 + b) bs

-- `str_to_pubkey`: the first 33 bytes are the key.
unfoldable pub str_to_pubkey : Text → Result Error ℕ
unfolding decode_base58 number_of take_bytes
str_to_pubkey (x ∷ y ∷ rest) = do
  check (x == b'F' && y == b'U') bad_prefix
  vch ← or_abort (decode_base58 rest) bad_base58
  check (length vch == 37) bad_length
  ok (number_of 0 (take_bytes 33 vch))
str_to_pubkey _ = err bad_prefix
