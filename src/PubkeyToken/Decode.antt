-- ===== src/PubkeyToken/Decode.antt =====
-- pubkey.token: the base 58 decoder reads every text of digits (include/pubkey_utils.hpp).
use mathlib.Core.List.{reverse, reverse-cons}
use toolkit_contracts.Base.{
  Bool-cases, List, Option, Text, [], ap, arith, cut_at, inl, inr, length, none, refl, skip_space,
  some, suc, sym, zero, ℕ, ◌*◌, ◌++◌, ◌+◌, ◌/◌, ◌<◌, ◌==◌, ◌∙◌, ◌∷◌, ◌≡◌, ◌≢◌,
}
use toolkit_contracts.PubkeyToken.Base58.{
  c_string, decode_base58, decode_loop, digit_of, drop_zeros, finish_bytes, number_of, skip_ones,
  take_bytes, zeros,
}
use toolkit_contracts.PubkeyToken.Digits.{
  AllBytes, IsBase58, Unused, base58_value, bytes_value, decode_loop-base58_value, room,
}
use toolkit_contracts.PubkeyToken.Room.{base58_value-room}

-- The characters of a number are no zero bytes and no spaces.
cut_at-none : (s : Text) → IsBase58 s → cut_at 0 s ≡ none
unfolding cut_at digit_of
cut_at-none [] h = refl
cut_at-none (x ∷ s) (sp, (d, e), rest) = ground (arith, e, cut_at-none s rest)

c_string-whole : (s : Text) → IsBase58 s → c_string s ≡ s
unfolding c_string
c_string-whole s h = rw (c_string, cut_at-none s h) refl

skip_space-nothing : (s : Text) → IsBase58 s → skip_space s ≡ s
unfolding skip_space
skip_space-nothing [] h = refl
skip_space-nothing (x ∷ s) h = ground (arith, h.0)

-- The ones in front are zero digits.
skip_ones-value :
    (s : Text)
    → IsBase58 s
    → IsBase58 (skip_ones s).1 × (base58_value 0 (skip_ones s).1 ≡ base58_value 0 s)
unfolding skip_ones base58_value digit_of
skip_ones-value [] h = (tt, refl)
skip_ones-value (x ∷ s) h = elim (Bool-cases (x == b'1')) [
  | inr other ↦ rw other (h, refl)
  | inl one ↦
      let rest = skip_ones-value s h.2 in let same : x ≡ b'1' = ground (arith, one) in rw same rest
]

number_of-snoc :
    (acc b : ℕ) (bs : List ℕ) → number_of acc (bs ++ b ∷ []) ≡ number_of acc bs * 256 + b
unfolding number_of
number_of-snoc acc b [] = refl
number_of-snoc acc b (x ∷ bs) = number_of-snoc (acc * 256 + x) b bs

number_of-reverse : (bs : List ℕ) → number_of 0 (reverse bs) ≡ bytes_value bs
unfolding number_of
number_of-reverse [] = refl
number_of-reverse (b ∷ bs) =
    rw (reverse-cons b bs, number_of-snoc 0 b (reverse bs), number_of-reverse bs) (omega arith)

number_of-drop_zeros : (bs : List ℕ) → number_of 0 (drop_zeros bs) ≡ number_of 0 bs
unfolding number_of drop_zeros
number_of-drop_zeros [] = refl
number_of-drop_zeros (b ∷ bs) = ground (arith, number_of-drop_zeros bs)

take_bytes-value :
    (n : ℕ) (bs : List ℕ) → Unused n bs → bytes_value (take_bytes n bs) ≡ bytes_value bs
unfolding take_bytes
take_bytes-value zero bs h = sym h
take_bytes-value (suc n) [] h = refl
take_bytes-value (suc n) (b ∷ bs) h = omega (arith, take_bytes-value n bs h)

zeros-Unused : (n : ℕ) → (Unused 0 (zeros n)) × AllBytes (zeros n)
unfolding zeros
zeros-Unused zero = (refl, tt)
zeros-Unused (suc n) = let (u, b) = zeros-Unused n in (omega (arith, u), (omega arith, b))

AllBytes-append : (s t : List ℕ) → AllBytes s → AllBytes t → AllBytes (s ++ t)
AllBytes-append [] t h k = k
AllBytes-append (b ∷ s) t h k = (h.0, AllBytes-append s t h.1 k)

AllBytes-reverse : (s : List ℕ) → AllBytes s → AllBytes (reverse s)
AllBytes-reverse [] h = tt
AllBytes-reverse (b ∷ s) h =
    rw (reverse-cons b s) (AllBytes-append (reverse s) (b ∷ []) (AllBytes-reverse s h.1) (h.0, tt))

take_bytes-AllBytes : (n : ℕ) (bs : List ℕ) → AllBytes bs → AllBytes (take_bytes n bs)
unfolding take_bytes
take_bytes-AllBytes zero bs h = tt
take_bytes-AllBytes (suc n) [] h = tt
take_bytes-AllBytes (suc n) (b ∷ bs) h = (h.0, take_bytes-AllBytes n bs h.1)

-- The highest byte, where there is one, is not zero.
abbrev pub NoZeroFirst : List ℕ → Type 0
NoZeroFirst [] = Unit {0}
NoZeroFirst (b ∷ bs) = b ≢ 0

drop_zeros-shape :
    (bs : List ℕ) → AllBytes bs → AllBytes (drop_zeros bs) × NoZeroFirst (drop_zeros bs)
unfolding drop_zeros
drop_zeros-shape [] h = (tt, tt)
drop_zeros-shape (b ∷ bs) h = elim (Bool-cases (b == 0)) [
  | inl gone ↦ rw gone (drop_zeros-shape bs h.1)
  | inr kept ↦ rw kept (h, ground (arith, kept))
]

decode_base58-finish_bytes :
    (s : Text) (bs : List ℕ) (used : ℕ)
    → IsBase58 s
    → decode_loop (skip_ones s).1 (zeros (length (skip_ones s).1 * 733 / 1000 + 1)) 0
      ≡ some (bs, used, [])
    → decode_base58 s ≡ some (zeros (skip_ones s).0 ++ drop_zeros (reverse (take_bytes used bs)))
unfolding decode_base58 finish_bytes skip_space
decode_base58-finish_bytes s bs used h e =
    let whole : skip_space (c_string s) ≡ s =
      ap skip_space (c_string-whole s h) ∙ skip_space-nothing s h in
    let after_ones : Text → Option (List ℕ) = λ w.
      elim (decode_loop (skip_ones w).1 (zeros (length (skip_ones w).1 * 733 / 1000 + 1)) 0) [
        | none ↦ none
        | some r ↦ finish_bytes (skip_ones w).0 r
      ] in
    ap after_ones whole ∙ rw e refl

-- What the decoder gives for a text of digits: a zero byte for each one in front, and the bytes of
-- the number that the digits stand for, the highest one first and not zero.
abbrev pub Decoded : Text → List ℕ → Type 0
Decoded s ds =
    (decode_base58 s ≡ some (zeros (skip_ones s).0 ++ ds))
    × (number_of 0 ds ≡ base58_value 0 s)
    × AllBytes ds
    × NoZeroFirst ds

-- Every text of base 58 digits is decoded: there is always room. The result is a zero byte for each
-- one in front, and then the bytes of the number that the digits stand for, the highest one first,
-- without a zero byte in front.
pub decode_base58_lem : (s : Text) → IsBase58 s → (ds : List ℕ) × Decoded s ds
unfolding decode_base58 finish_bytes
decode_base58_lem s h =
    let (d, same) = skip_ones-value s h in
    let t = (skip_ones s).1 in
    let size = length t * 733 / 1000 + 1 in
    let (unused, bytes) = zeros-Unused size in
    let nothing : bytes_value (zeros size) ≡ 0 = unused in
    let room_there : base58_value (bytes_value (zeros size)) t < room (zeros size) =
      rw nothing (base58_value-room t d) in
    let (bs, used, e, v, u, b) =
      decode_loop-base58_value t (zeros size) 0 d unused bytes room_there in
    let raw = reverse (take_bytes used bs) in
    let shape =
      drop_zeros-shape raw
        (AllBytes-reverse (take_bytes used bs) (take_bytes-AllBytes used bs b)) in
    let value : number_of 0 (drop_zeros raw) ≡ base58_value 0 s =
      number_of-drop_zeros raw
      ∙ number_of-reverse (take_bytes used bs)
      ∙ take_bytes-value used bs u
      ∙ v
      ∙ ap (λ n. base58_value n t) nothing
      ∙ same in
    let runs = decode_base58-finish_bytes s bs used h e in
    (drop_zeros raw, (runs, value, shape.0, shape.1))
