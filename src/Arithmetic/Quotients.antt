-- ===== src/Arithmetic/Quotients.antt =====
-- The checked quotient and remainder of `safe<int64_t>` (contracts/flon.proxyswap/include/safe.hpp).
use native.Mathlib.Nat.{div-lt_iff_lt-mul}
use toolkit_contracts.Base.{
  Bool-cases, Option, arith, eq_ℤ, false, if◌then◌else◌, inl, inr, int_laws, negsuc, none, not,
  parts_of_eq, pos, some, sub_ℕ, suc, sym, zero, ℕ, ℤ, ◌%◌, ◌&&◌, ◌*ℤ◌, ◌+ℤ◌, ◌-ℤ◌, ◌/ℤ◌, ◌/◌, ◌<◌,
  ◌||◌, ◌≡◌, ◌≤◌,
}
use toolkit_contracts.Arithmetic.{IsInt64, exact, int64_max, int64_min, is_int64}

unfoldable pub safe_div : ℤ → ℤ → Option ℤ
safe_div a b =
    if eq_ℤ b (pos 0)
    then none
    else if eq_ℤ a int64_min && eq_ℤ b (negsuc 0)
    then none
    else some (a /ℤ b)

infixl 70 ◌%ℤ◌
-- The remainder of C++: what the quotient leaves, with the sign of the dividend. The code tests for
-- zero before.
unfoldable pub ◌%ℤ◌ : ℤ → ℤ → ℤ
pos a %ℤ pos b = pos (a % b)
pos a %ℤ negsuc b = pos (a % suc b)
negsuc a %ℤ pos b = sub_ℕ 0 (suc a % b)
negsuc a %ℤ negsuc b = sub_ℕ 0 (suc a % suc b)

unfoldable pub safe_mod : ℤ → ℤ → Option ℤ
unfolding ◌%ℤ◌
safe_mod a b =
    if eq_ℤ b (pos 0)
    then none
    else if eq_ℤ a int64_min && eq_ℤ b (negsuc 0)
    then none
    else some (a %ℤ b)

small_quotient : (x b : ℕ) → x ≤ suc int64_max → 0 < b → x / suc b < suc int64_max
small_quotient x b h k =
    (div-lt_iff_lt-mul {k = suc b} {x = x} {y = suc int64_max} (omega arith)).1 (omega arith)

quotient_le : (x b : ℕ) → x / suc b ≤ x
quotient_le x b = grind arith

pub safe_div-exact :
    (a b : ℤ) → IsInt64 a → safe_div a b ≡ (if eq_ℤ b (pos 0) then none else exact (a /ℤ b))
unfolding safe_div ◌/ℤ◌
safe_div-exact (pos a) (pos zero) h = ground arith
safe_div-exact (negsuc a) (pos zero) h = ground arith
safe_div-exact (pos a) (pos (suc b)) h = ground (arith, quotient_le a b)
safe_div-exact (pos a) (negsuc b) h = ground (arith, quotient_le a b)
safe_div-exact (negsuc a) (pos (suc b)) h = ground (arith, quotient_le (suc a) b)
safe_div-exact (negsuc a) (negsuc b) h =
    ground (arith, quotient_le (suc a) b, small_quotient (suc a) b)

division : (a b : ℤ) → eq_ℤ b (pos 0) ≡ false → a /ℤ b *ℤ b +ℤ a %ℤ b ≡ a
unfolding ◌/ℤ◌ ◌%ℤ◌ ◌*ℤ◌ ◌+ℤ◌
division (pos a) (pos b) h = grind arith
division (pos a) (negsuc b) h = grind arith
division (negsuc a) (pos b) h = grind arith
division (negsuc a) (negsuc b) h = grind arith

remainder_lem : (a b : ℤ) → eq_ℤ b (pos 0) ≡ false → a %ℤ b ≡ a -ℤ a /ℤ b *ℤ b
remainder_lem a b h = omega (int_laws, parts_of_eq (division a b h))

safe_mod-safe_div :
    (a b : ℤ) → safe_mod a b ≡ (elim (safe_div a b) [ none ↦ none | some q ↦ some (a %ℤ b) ])
unfolding safe_mod safe_div
safe_mod-safe_div a b = ground arith

pub safe_mod-exact :
    (a b : ℤ)
    → IsInt64 a
    → safe_mod a b
      ≡ (if eq_ℤ b (pos 0) || not (is_int64 (a /ℤ b)) then none else some (a -ℤ a /ℤ b *ℤ b))
safe_mod-exact a b h = elim (Bool-cases (eq_ℤ b (pos 0))) [
  | inl by_zero ↦ ground (arith, by_zero, safe_mod-safe_div a b, safe_div-exact a b h)
  | inr some_b ↦
      rw (sym (remainder_lem a b some_b))
        (ground (arith, some_b, safe_mod-safe_div a b, safe_div-exact a b h))
]
