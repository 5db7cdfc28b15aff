-- ===== src/Arithmetic.antt =====
-- The decimal arithmetic of the contracts' utils.hpp (contracts/flon.split/include/utils.hpp and its
-- copies).
pub mod Safe
pub mod Quotients
mod Tests
use toolkit_contracts.Base.{
  Bool, Option, arith, if◌then◌else◌, leb, leb_ℤ, ltb, ltb_ℤ, negsuc, none, pos, refl, some, suc,
  ten_to, ten_to_mono, true, zero, ℕ, ℤ, ◌%◌, ◌&&◌, ◌*ℤ◌, ◌*◌, ◌+ℤ◌, ◌+◌, ◌-◌, ◌/ℤ◌, ◌/◌, ◌<◌, ◌^◌,
  ◌||◌, ◌≡◌, ◌≤◌,
}

abbrev pub int64_max : ℕ
int64_max = 9223372036854775807

abbrev pub is_int64 : ℤ → Bool
is_int64 n = leb_ℤ n (pos int64_max) && leb_ℤ (negsuc int64_max) n

abbrev pub is_int128 : ℤ → Bool
is_int128 n = leb_ℤ n (pos (2 ^ 127 - 1)) && leb_ℤ (negsuc (2 ^ 127 - 1)) n

abbrev pub int64_min : ℤ
int64_min = negsuc int64_max

abbrev pub int64_top : ℤ
int64_top = pos int64_max

-- What an operation does: the exact result where it fits 64 bits.
abbrev pub exact : ℤ → Option ℤ
exact n = if is_int64 n then some n else none

abbrev pub IsInt64 : ℤ → Type 0
IsInt64 n = is_int64 n ≡ true

-- `multiply_decimal<int64_t>`: a * b / precision, rounded, with a range check. There is no result
-- either where the product leaves `int128_t` or the precision is zero, for which C++ gives none.
unfoldable pub multiply_decimal64 : ℤ → ℤ → ℤ → Option ℤ
unfolding ◌*ℤ◌ ◌/ℤ◌ ◌+ℤ◌
multiply_decimal64 a b precision =
    let product = pos 10 *ℤ a *ℤ b in
    let tmp = product /ℤ precision in
    if is_int128 product && (ltb_ℤ precision (pos 0) || ltb_ℤ (pos 0) precision) && is_int64 tmp
    then some ((tmp +ℤ pos 5) /ℤ pos 10)
    else none

-- `divide_decimal<int64_t>`: a * precision / b, rounded, likewise.
unfoldable pub divide_decimal64 : ℤ → ℤ → ℤ → Option ℤ
unfolding multiply_decimal64
divide_decimal64 a b precision = multiply_decimal64 a precision b

-- The conversions between `int64_t` and `uint64_t`.
abbrev pub to_u64 : ℤ → ℕ
to_u64 (pos n) = n % 2 ^ 64
to_u64 (negsuc n) = 2 ^ 64 - 1 - n % 2 ^ 64

abbrev pub to_i64 : ℕ → ℤ
to_i64 n = if ltb n (2 ^ 63) then pos n else negsuc (2 ^ 64 - 1 - n)

-- `power` and `power10`, a loop of multiplications in `int64_t`, each of which wraps around.
unfoldable pub power : ℤ → ℕ → ℤ
unfolding ◌*ℤ◌
power base zero = pos 1
power base (suc exp) = to_i64 (to_u64 (power base exp *ℤ base))

unfoldable pub power10 : ℕ → ℤ
unfolding power
power10 exp = power (pos 10) exp

pub ten_to_fits : (p : ℕ) → p ≤ 18 → ten_to p < 2 ^ 63
ten_to_fits p h = omega (arith, ten_to_mono p 18 h)

pub power10_small : (p : ℕ) → p ≤ 18 → power10 p ≡ pos (ten_to p)
unfolding power10 power ◌*ℤ◌
power10_small zero h = refl
power10_small (suc p) h =
    let e = power10_small p (omega arith) in
    let fits = ten_to_fits (suc p) h in rw e (ground (arith, fits))

-- On numbers that are not negative.
pub multiply_decimal64-pos :
    (a b p : ℕ)
    → 0 < p
    → 10 * a * b < 2 ^ 127
    → multiply_decimal64 (pos a) (pos b) (pos p)
      ≡ (if leb (10 * a * b / p) int64_max then some (pos ((10 * a * b / p + 5) / 10)) else none)
unfolding multiply_decimal64
multiply_decimal64-pos a b p h k = ground arith
