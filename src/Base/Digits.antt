-- ===== src/Base/Digits.antt =====
-- The value of a text of digits.
use Prim.Native.Nat.{ℕ, zero, suc, ◌+◌, ◌-◌, ◌*◌, ◌≤◌, ◌<◌, ◌^◌}
use mathlib.Core.Path.{◌≡◌, refl}
use mathlib.Core.Option.{some}
use mathlib.Core.List.{[], ◌∷◌, ◌++◌}
use native.Mathlib.Omega.{arith}
use toolkit_contracts.Base.Tests.{length}
use toolkit_contracts.Base.Int.{pos}
use toolkit_contracts.Base.Parse.{Text, digits_value, to_uint64, to_int64, signed_value}
use toolkit_contracts.Base.Print.{AllDigits, IsNumber, read_digits, ten_to}

-- A text of digits is read by its value.
pub to_int64-IsNumber :
    (s : Text) → IsNumber s → digits_value 0 s < 2 ^ 63 → to_int64 s ≡ some (pos (digits_value 0 s))
unfolding to_int64 signed_value
to_int64-IsNumber s h l = let (whole, starts) = read_digits s h in rw (whole, starts) (ground arith)

pub to_uint64-IsNumber :
    (s : Text) → IsNumber s → digits_value 0 s < 2 ^ 64 → to_uint64 s ≡ some (digits_value 0 s)
unfolding to_uint64
to_uint64-IsNumber s h l =
    let (whole, starts) = read_digits s h in rw (whole, starts) (ground arith)

-- Digits that follow count as many powers of ten less.
pub digits_value-append :
    (acc : ℕ) (s t : Text)
    → AllDigits s
    → digits_value acc (s ++ t) ≡ digits_value (digits_value acc s) t
unfolding digits_value
digits_value-append acc [] t h = refl
digits_value-append acc (c ∷ s) t h =
    ground (arith, h.0, digits_value-append (acc * 10 + (c - b'0')) s t h.1)

shift_one : (acc d t : ℕ) → (acc * 10 + d) * t ≡ acc * (10 * t) + d * t
shift_one acc d t = grind arith

pub digits_value-shift :
    (acc : ℕ) (t : Text)
    → AllDigits t
    → digits_value acc t ≡ acc * ten_to (length t) + digits_value 0 t
unfolding digits_value
digits_value-shift acc [] h = omega arith
digits_value-shift acc (c ∷ t) h =
    let d = c - b'0' in
    let one = digits_value-shift (acc * 10 + d) t h.1 in
    let zero_acc = digits_value-shift d t h.1 in
    ground (arith, h.0, one, zero_acc, shift_one acc d (ten_to (length t)))

digit_times : (d t : ℕ) → d ≤ 9 → d * t ≤ 9 * t
digit_times d t h = grind arith

pub digits_value-below : (t : Text) → AllDigits t → digits_value 0 t < ten_to (length t)
unfolding digits_value
digits_value-below [] h = omega arith
digits_value-below (c ∷ t) h =
    let rest = digits_value-shift (c - b'0') t h.1 in
    let small = digits_value-below t h.1 in
    ground (arith, h.0, rest, small, digit_times (c - b'0') (ten_to (length t)))

pub ten_to_mono : (p m : ℕ) → p ≤ m → ten_to p ≤ ten_to m
ten_to_mono zero zero h = omega arith
ten_to_mono (suc p) zero h = absurd (omega arith)
ten_to_mono zero (suc m) h = omega (arith, ten_to_mono zero m (omega arith))
ten_to_mono (suc p) (suc m) h = omega (arith, ten_to_mono p m (omega arith))
