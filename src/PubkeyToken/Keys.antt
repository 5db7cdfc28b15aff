-- ===== src/PubkeyToken/Keys.antt =====
-- pubkey.token: which key is read from a text (`str_to_pubkey` of include/pubkey_utils.hpp).
use toolkit_contracts.Base.{
  Bool-cases, List, Text, [], ap, arith, err, if◌then◌else◌, inl, inr, length, ok, refl, suc, sym,
  true, zero, ℕ, ◌*◌, ◌++◌, ◌+◌, ◌/◌, ◌==◌, ◌^◌, ◌∙◌, ◌∷◌, ◌≡◌,
}
use toolkit_contracts.PubkeyToken.State.{bad_length}
use toolkit_contracts.PubkeyToken.Base58.{number_of, skip_ones, str_to_pubkey, take_bytes, zeros}
use toolkit_contracts.PubkeyToken.Digits.{AllBytes, IsBase58, base58_value}
use toolkit_contracts.PubkeyToken.Decode.{Decoded, decode_base58_lem}

length-append : (s t : List ℕ) → length (s ++ t) ≡ length s + length t
length-append [] t = omega arith
length-append (b ∷ s) t = omega (arith, length-append s t)

length-zeros : (n : ℕ) → length (zeros n) ≡ n
unfolding zeros
length-zeros zero = refl
length-zeros (suc n) = omega (arith, length-zeros n)

number_of-zeros : (n : ℕ) (bs : List ℕ) → number_of 0 (zeros n ++ bs) ≡ number_of 0 bs
unfolding zeros number_of
number_of-zeros zero bs = refl
number_of-zeros (suc n) bs = number_of-zeros n bs

zeros-AllBytes : (n : ℕ) (bs : List ℕ) → AllBytes bs → AllBytes (zeros n ++ bs)
unfolding zeros
zeros-AllBytes zero bs h = h
zeros-AllBytes (suc n) bs h = (omega arith, zeros-AllBytes n bs h)

-- Without its last four bytes a number is divided by 2^32.
drop_four : (acc : ℕ) (bs : List ℕ) → length bs ≡ 4 → AllBytes bs → number_of acc bs / 2 ^ 32 ≡ acc
unfolding number_of
drop_four acc [] l h = absurd (omega (arith, l))
drop_four acc (a ∷ []) l h = absurd (omega (arith, l))
drop_four acc (a ∷ b ∷ []) l h = absurd (omega (arith, l))
drop_four acc (a ∷ b ∷ c ∷ []) l h = absurd (omega (arith, l))
drop_four acc (a ∷ b ∷ c ∷ d ∷ []) l (ha, (hb, (hc, (hd, u)))) = omega (arith, ha, hb, hc, hd)
drop_four acc (a ∷ b ∷ c ∷ d ∷ e ∷ bs) l h = absurd (omega (arith, l))

number_of-take_bytes :
    (acc n : ℕ) (bs : List ℕ)
    → length bs ≡ n + 4
    → AllBytes bs
    → number_of acc (take_bytes n bs) ≡ number_of acc bs / 2 ^ 32
unfolding number_of take_bytes
number_of-take_bytes acc zero bs l h = sym (drop_four acc bs (omega (arith, l)) h)
number_of-take_bytes acc (suc n) [] l h = absurd (omega (arith, l))
number_of-take_bytes acc (suc n) (b ∷ bs) l h =
    number_of-take_bytes (acc * 256 + b) n bs (omega (arith, l)) h.1

-- After the letters FU, every text of base 58 digits is decoded: to a zero byte for each one in
-- front, and the bytes of the number of the digits. Where these are 37 together the key is that
-- number divided by 2^32, so that the last four bytes do not matter, and otherwise the text is
-- refused for its length.
pub str_to_pubkey_lem :
    (s : Text)
    → IsBase58 s
    → (ds : List ℕ) × Decoded s ds
      × (str_to_pubkey (b'F' ∷ b'U' ∷ s) ≡ (
          if (skip_ones s).0 + length ds == 37
          then ok (base58_value 0 s / 2 ^ 32)
          else err bad_length))
unfolding str_to_pubkey
str_to_pubkey_lem s h =
    let (ds, (runs, value, bytes, first)) = decode_base58_lem s h in
    let n = (skip_ones s).0 in
    let all = zeros n ++ ds in
    let size : length all ≡ n + length ds =
      length-append (zeros n) ds ∙ ap (λ k. k + length ds) (length-zeros n) in
    let reads : length all == 37 ≡ true
        → number_of 0 (take_bytes 33 all) ≡ base58_value 0 s / 2 ^ 32 =
      λ e.
        number_of-take_bytes 0 33 all (ground (arith, e)) (zeros-AllBytes n ds bytes)
        ∙ ap (λ k. k / 2 ^ 32) (number_of-zeros n ds ∙ value) in
    (
      ds,
      (runs, value, bytes, first),
      elim (Bool-cases (length all == 37)) [
        | inl whole ↦ ground (arith, runs, size, whole, reads whole)
        | inr other ↦ ground (arith, runs, size, other)
      ],
    )
