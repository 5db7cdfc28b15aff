-- ===== src/PubkeyToken/Room.antt =====
-- pubkey.token: there is room for every text in the bytes that the base 58 decoder allocates
-- (include/pubkey_utils.hpp).
use toolkit_contracts.Base.{
  Bool, Bool-cases, Text, [], arith, inl, inr, leb, length, ltb, refl, some, suc, true, zero, ℕ,
  ◌&&◌, ◌*◌, ◌+◌, ◌-◌, ◌/◌, ◌<◌, ◌∷◌, ◌≡◌, ◌≤◌,
}
use toolkit_contracts.PubkeyToken.Base58.{digit_of, zeros}
use toolkit_contracts.PubkeyToken.Digits.{IsBase58, base58_value, room}

abbrev pub pow58 : ℕ → ℕ
pow58 zero = 1
pow58 (suc n) = 58 * pow58 n

abbrev pub pow256 : ℕ → ℕ
pow256 zero = 1
pow256 (suc n) = 256 * pow256 n

pub room-zeros : (n : ℕ) → room (zeros n) ≡ pow256 n
unfolding zeros
room-zeros zero = refl
room-zeros (suc n) = omega (arith, room-zeros n)

pow58_add : (m n : ℕ) → pow58 (m + n) ≡ pow58 m * pow58 n
pow58_add zero n = let e : 0 + n ≡ n = omega arith in rw e (omega arith)
pow58_add (suc m) n = grind (arith, pow58_add m n)

pow256_add : (m n : ℕ) → pow256 (m + n) ≡ pow256 m * pow256 n
pow256_add zero n = let e : 0 + n ≡ n = omega arith in rw e (omega arith)
pow256_add (suc m) n = grind (arith, pow256_add m n)

-- The test for every length below a bound.
abbrev fits_below : ℕ → Bool
fits_below zero = true
fits_below (suc n) = leb (pow58 n) (pow256 (n * 733 / 1000 + 1)) && fits_below n

fits_below_lem : (n r : ℕ) → fits_below n ≡ true → r < n → pow58 r ≤ pow256 (r * 733 / 1000 + 1)
fits_below_lem zero r h l = omega arith
fits_below_lem (suc n) r h l = ground (arith, fits_below_lem n r)

fits_below_71 : fits_below 71 ≡ true
fits_below_71 = refl

pow256-pos : (n : ℕ) → 1 ≤ pow256 n
pow256-pos zero = omega arith
pow256-pos (suc n) = omega (arith, pow256-pos n)

pow256_mono : (k m : ℕ) → pow256 m ≤ pow256 (k + m)
pow256_mono k m = rw (pow256_add k m) (grind (arith, pow256-pos k))

times_le : (a b c d : ℕ) → a ≤ b → c ≤ d → a * c ≤ b * d
times_le a b c d h k = grind arith

-- 71 digits fit 52 bytes.
fits_later :
    (n : ℕ)
    → pow58 n ≤ pow256 (n * 733 / 1000 + 1)
    → pow58 (71 + n) ≤ pow256 ((71 + n) * 733 / 1000 + 1)
fits_later n h =
    let size = n * 733 / 1000 + 1 in
    let more = (71 + n) * 733 / 1000 + 1 - (52 + size) in
    let e : (71 + n) * 733 / 1000 + 1 ≡ more + (52 + size) = omega arith in
    let both : pow58 71 * pow58 n ≤ pow256 52 * pow256 size =
      times_le (pow58 71) (pow256 52) (pow58 n) (pow256 size) (omega arith) h in
    let grown = pow256_mono more (52 + size) in
    rw (e, pow58_add 71 n) (omega (arith, both, grown, pow256_add 52 size))

fits_in_rounds : (q n : ℕ) → n < 71 * q → pow58 n ≤ pow256 (n * 733 / 1000 + 1)
fits_in_rounds zero n h = absurd (omega (arith, h))
fits_in_rounds (suc q) n h = elim (Bool-cases (ltb n 71)) [
  | inl first ↦ fits_below_lem 71 n fits_below_71 (ground (arith, first))
  | inr later ↦
      let e : n ≡ 71 + (n - 71) = ground (arith, later) in
      rw e (fits_later (n - 71) (fits_in_rounds q (n - 71) (omega (arith, e))))
]

digit_of-small : (x d : ℕ) → digit_of x ≡ some d → d < 58
unfolding digit_of
digit_of-small x d e = ground arith

next_digit : (acc d p : ℕ) → d < 58 → (acc * 58 + d + 1) * p ≤ (acc + 1) * (58 * p)
next_digit acc d p h = grind arith

base58_value_lt :
    (acc : ℕ) (s : Text) → IsBase58 s → base58_value acc s < (acc + 1) * pow58 (length s)
unfolding base58_value
base58_value_lt acc [] h = omega arith
base58_value_lt acc (x ∷ s) (sp, (d, e), rest) =
    let later = base58_value_lt (acc * 58 + d) s rest in
    let grown = next_digit acc d (pow58 (length s)) (digit_of-small x d e) in
    rw (e, base58_value) (omega (arith, later, grown))

-- The number of a text of digits has room in the bytes that are allocated for it.
pub base58_value-room :
    (s : Text) → IsBase58 s → base58_value 0 s < room (zeros (length s * 733 / 1000 + 1))
base58_value-room s h =
    let n = length s in
    rw (room-zeros (n * 733 / 1000 + 1))
      (omega (arith, base58_value_lt 0 s h, fits_in_rounds (n + 1) n (omega arith)))
