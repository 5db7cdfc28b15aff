-- ===== src/Base/Print.antt =====
-- `std::to_string` of an unsigned number, and how the numbers are read back.
use Prim.Native.Nat.{ℕ, zero, suc, ◌+◌, ◌-◌, ◌*◌, ◌/◌, ◌%◌, ◌<◌, ◌^◌}
use mathlib.Core.Path.{◌≡◌}
use mathlib.Core.Bool.{Bool, true, false, ◌&&◌}
use mathlib.Core.Option.{none, some}
use mathlib.Core.List.{[], ◌∷◌, ◌++◌}
use native.Mathlib.Omega.{arith}
use toolkit_contracts.Base.Tests.{leb, ltb, if◌then◌else◌}
use toolkit_contracts.Base.Int.{pos}
use toolkit_contracts.Base.Parse.{
  Text, digits_value, take_sign, skip_space, starts_with_digit, to_uint64, stoi, stoul,
}

-- The decimal digits, the first one first; a number of 64 bits has at most 20.
unfoldable pub digits_of : ℕ → ℕ → Text
digits_of zero n = []
digits_of (suc k) n =
    let more = digits_of k (n / 10) ++ ((b'0' + n % 10) ∷ []) in
    if ltb n 10 then (b'0' + n) ∷ [] else more

unfoldable pub to_string : ℕ → Text
unfolding digits_of
to_string n = digits_of 20 n

abbrev pub is_digit : ℕ → Bool
is_digit c = leb b'0' c && leb c b'9'

abbrev pub AllDigits : Text → Type 0
AllDigits [] = Unit {0}
AllDigits (c ∷ s) = (is_digit c ≡ true) × AllDigits s

pub AllDigits-append : (s t : Text) → AllDigits s → AllDigits t → AllDigits (s ++ t)
AllDigits-append [] t h k = k
AllDigits-append (c ∷ s) t h k = (h.0, AllDigits-append s t h.1 k)

digits_of-AllDigits : (k n : ℕ) → AllDigits (digits_of k n)
unfolding digits_of
digits_of-AllDigits zero n = tt
digits_of-AllDigits (suc k) n =
    let more =
      AllDigits-append (digits_of k (n / 10)) ((b'0' + n % 10) ∷ [])
        (digits_of-AllDigits k (n / 10)) (ground arith, tt) in
    ground (arith, more)

pub to_string-AllDigits : (n : ℕ) → AllDigits (to_string n)
unfolding to_string
to_string-AllDigits n = digits_of-AllDigits 20 n

pub digits_value-snoc :
    (acc c : ℕ) (s : Text)
    → AllDigits s
    → is_digit c ≡ true
    → digits_value acc (s ++ c ∷ []) ≡ digits_value acc s * 10 + (c - b'0')
unfolding digits_value
digits_value-snoc acc c [] h d = ground arith
digits_value-snoc acc c (x ∷ s) h d =
    ground (arith, h.0, digits_value-snoc (acc * 10 + (x - b'0')) c s h.1 d)

abbrev pub ten_to : ℕ → ℕ
ten_to zero = 1
ten_to (suc k) = 10 * ten_to k

digits_value-digits_of : (k n : ℕ) → n < ten_to k → digits_value 0 (digits_of k n) ≡ n
unfolding digits_of digits_value
digits_value-digits_of zero n h = omega arith
digits_value-digits_of (suc k) n h =
    let small : n / 10 < ten_to k = omega arith in
    let ih = digits_value-digits_of k (n / 10) small in
    let snoc =
      digits_value-snoc 0 (b'0' + n % 10) (digits_of k (n / 10)) (digits_of-AllDigits k (n / 10))
        (ground arith) in
    ground (arith, ih, snoc)

-- What is printed is read back.
pub digits_value-to_string : (n : ℕ) → n < 2 ^ 64 → digits_value 0 (to_string n) ≡ n
unfolding to_string
digits_value-to_string n h = digits_value-digits_of 20 n (omega arith)

head_digit :
    (c : ℕ) (s : Text)
    → is_digit c ≡ true
    → (take_sign (skip_space (c ∷ s)) ≡ (false, c ∷ s)) × (starts_with_digit (c ∷ s) ≡ true)
unfolding take_sign skip_space starts_with_digit
head_digit c s h = (ground arith, ground arith)

abbrev pub IsNumber : Text → Type 0
IsNumber [] = ⊥
IsNumber (c ∷ s) = (is_digit c ≡ true) × AllDigits s

IsNumber-append : (s t : Text) → IsNumber s → AllDigits t → IsNumber (s ++ t)
IsNumber-append [] t h k = absurd h
IsNumber-append (c ∷ s) t h k = (h.0, AllDigits-append s t h.1 k)

IsNumber-digits_of : (k n : ℕ) → IsNumber (digits_of (suc k) n)
unfolding digits_of
IsNumber-digits_of zero n = ground arith
IsNumber-digits_of (suc k) n =
    let last = (b'0' + n % 10) ∷ [] in
    let more : IsNumber (digits_of (suc k) (n / 10) ++ last) =
      IsNumber-append (digits_of (suc k) (n / 10)) last (IsNumber-digits_of k (n / 10))
        (ground arith, tt) in
    ground (arith, more)

pub IsNumber-to_string : (n : ℕ) → IsNumber (to_string n)
unfolding to_string
IsNumber-to_string n = IsNumber-digits_of 19 n

-- A text of digits is read whole, with no white space or sign before it.
pub read_digits :
    (s : Text) → IsNumber s → (take_sign (skip_space s) ≡ (false, s)) × (starts_with_digit s ≡ true)
read_digits [] h = absurd h
read_digits (c ∷ s) h = head_digit c s h.0

module _ (n : ℕ) where
  number :
      (take_sign (skip_space (to_string n)) ≡ (false, to_string n))
      × (starts_with_digit (to_string n) ≡ true)
  number = read_digits (to_string n) (IsNumber-to_string n)

  pub to_uint64-to_string : n < 2 ^ 64 → to_uint64 (to_string n) ≡ some n
  unfolding to_uint64
  to_uint64-to_string h = rw (number.0, digits_value-to_string n h, number.1) (ground arith)

  pub stoi-to_string :
      n < 2 ^ 64 → stoi (to_string n) ≡ (if ltb n (2 ^ 31) then some (pos n) else none)
  unfolding stoi
  stoi-to_string h = rw (number.0, digits_value-to_string n h, number.1)

  pub stoul-to_string : n < 2 ^ 64 → stoul (to_string n) ≡ (if ltb n (2 ^ 32) then some n else none)
  unfolding stoul
  stoul-to_string h = rw (number.0, digits_value-to_string n h, number.1)
