-- ===== src/Arithmetic/Safe.antt =====
-- The checked arithmetic `safe<int64_t>` (contracts/flon.proxyswap/include/safe.hpp and its copies).
-- There is no result where `check` aborts.
use native.Mathlib.Nat.{div-lt_iff_lt-mul}
use toolkit_contracts.Base.{
  +ℤ_parts, -ℤ_parts, Bool, Option, arith, eq_ℤ, if◌then◌else◌, ltb, ltb_ℤ, negsuc, none, not, pos,
  refl, some, suc, zero, ℕ, ℤ, ◌&&◌, ◌*ℤ◌, ◌*◌, ◌+ℤ◌, ◌+◌, ◌-ℤ◌, ◌/ℤ◌, ◌/◌, ◌<◌, ◌||◌, ◌↔◌, ◌≡◌,
  ◌≤◌,
}
use toolkit_contracts.Arithmetic.{IsInt64, exact, int64_max, int64_min, int64_top, is_int64}
use toolkit_contracts.Arithmetic.Quotients.{safe_div, safe_div-exact, safe_mod, safe_mod-exact}

unfoldable pub safe_add : ℤ → ℤ → Option ℤ
safe_add a b =
    if ltb_ℤ (pos 0) b && ltb_ℤ (int64_top -ℤ b) a
    then none
    else if ltb_ℤ b (pos 0) && ltb_ℤ a (int64_min -ℤ b)
    then none
    else some (a +ℤ b)

unfoldable pub safe_sub : ℤ → ℤ → Option ℤ
safe_sub a b =
    if ltb_ℤ (pos 0) b && ltb_ℤ a (int64_min +ℤ b)
    then none
    else if ltb_ℤ b (pos 0) && ltb_ℤ (int64_top +ℤ b) a
    then none
    else some (a -ℤ b)

-- Whether the product is refused, by the signs of the two numbers.
unfoldable pub mul_overflows : ℤ → ℤ → Bool
mul_overflows a b =
    if ltb_ℤ (pos 0) a
    then (if ltb_ℤ (pos 0) b then ltb_ℤ (int64_top /ℤ b) a else ltb_ℤ b (int64_min /ℤ a))
    else if ltb_ℤ (pos 0) b
    then ltb_ℤ a (int64_min /ℤ b)
    else not (eq_ℤ a (pos 0)) && ltb_ℤ b (int64_top /ℤ a)

unfoldable pub safe_mul : ℤ → ℤ → Option ℤ
unfolding mul_overflows
safe_mul a b = if mul_overflows a b then none else some (a *ℤ b)

-- `++` and `--`, before and after the number.
unfoldable pub safe_incr : ℤ → Option ℤ
unfolding safe_add
safe_incr a = safe_add a (pos 1)

unfoldable pub safe_decr : ℤ → Option ℤ
unfolding safe_sub
safe_decr a = safe_sub a (pos 1)

unfoldable pub safe_neg : ℤ → Option ℤ
safe_neg a = if eq_ℤ a int64_min then none else some (pos 0 -ℤ a)

safe_add-exact : (a b : ℤ) → IsInt64 a → IsInt64 b → safe_add a b ≡ exact (a +ℤ b)
unfolding safe_add
safe_add-exact a b h k = ground (arith, +ℤ_parts a b, -ℤ_parts int64_top b, -ℤ_parts int64_min b)

safe_sub-exact : (a b : ℤ) → IsInt64 a → IsInt64 b → safe_sub a b ≡ exact (a -ℤ b)
unfolding safe_sub
safe_sub-exact a b h k = ground (arith, -ℤ_parts a b, +ℤ_parts int64_top b, +ℤ_parts int64_min b)

safe_neg-exact : (a : ℤ) → IsInt64 a → safe_neg a ≡ exact (pos 0 -ℤ a)
unfolding safe_neg
safe_neg-exact a h = ground (arith, -ℤ_parts (pos 0) a)

over_iff : (a b m : ℕ) → 0 < b → (m / b < a) ↔ (m < a * b)
over_iff a b m h = div-lt_iff_lt-mul h

-- The refusal by the sizes of the two numbers, for each pair of signs.
module _ (a b : ℕ) where
  mul_overflows-pos_pos : mul_overflows (pos (suc a)) (pos (suc b)) ≡ ltb int64_max (suc a * suc b)
  unfolding mul_overflows ◌/ℤ◌
  mul_overflows-pos_pos = ground (arith, over_iff (suc a) (suc b) int64_max)

  mul_overflows-pos_neg :
      mul_overflows (pos (suc a)) (negsuc b) ≡ ltb (suc int64_max) (suc b * suc a)
  unfolding mul_overflows ◌/ℤ◌
  mul_overflows-pos_neg = ground (arith, over_iff (suc b) (suc a) (suc int64_max))

  mul_overflows-neg_pos :
      mul_overflows (negsuc a) (pos (suc b)) ≡ ltb (suc int64_max) (suc a * suc b)
  unfolding mul_overflows ◌/ℤ◌
  mul_overflows-neg_pos = ground (arith, over_iff (suc a) (suc b) (suc int64_max))

  mul_overflows-neg_neg : mul_overflows (negsuc a) (negsuc b) ≡ ltb int64_max (suc b * suc a)
  unfolding mul_overflows ◌/ℤ◌
  mul_overflows-neg_neg = ground (arith, over_iff (suc b) (suc a) int64_max)

safe_mul-exact : (a b : ℤ) → IsInt64 a → IsInt64 b → safe_mul a b ≡ exact (a *ℤ b)
unfolding safe_mul ◌*ℤ◌ ◌/ℤ◌
safe_mul-exact (pos zero) (pos b) h k = ground arith
safe_mul-exact (pos zero) (negsuc b) h k = ground arith
safe_mul-exact (pos (suc a)) (pos zero) h k = ground arith
safe_mul-exact (negsuc a) (pos zero) h k = ground arith
safe_mul-exact (pos (suc a)) (pos (suc b)) h k = rw (mul_overflows-pos_pos a b) (ground arith)
safe_mul-exact (pos (suc a)) (negsuc b) h k = rw (mul_overflows-pos_neg a b) (ground arith)
safe_mul-exact (negsuc a) (pos (suc b)) h k = rw (mul_overflows-neg_pos a b) (ground arith)
safe_mul-exact (negsuc a) (negsuc b) h k = rw (mul_overflows-neg_neg a b) (ground arith)

-- On numbers of 64 bits the checked sum, difference, product, negation, successor, predecessor and
-- quotient are exactly those of the integers where they fit 64 bits; where they do not, and for a
-- division by zero, the operation aborts. The checked remainder is what the quotient leaves, and
-- aborts where the quotient does. No result is wrapped around.
pub safe_exact :
    (a b : ℤ)
    → IsInt64 a
    → IsInt64 b
    → (safe_add a b ≡ exact (a +ℤ b))
      × (safe_sub a b ≡ exact (a -ℤ b))
      × (safe_mul a b ≡ exact (a *ℤ b))
      × (safe_neg a ≡ exact (pos 0 -ℤ a))
      × (safe_incr a ≡ exact (a +ℤ pos 1))
      × (safe_decr a ≡ exact (a -ℤ pos 1))
      × (safe_div a b ≡ (if eq_ℤ b (pos 0) then none else exact (a /ℤ b)))
      × (safe_mod a b
          ≡ (if eq_ℤ b (pos 0) || not (is_int64 (a /ℤ b)) then none else some (a -ℤ a /ℤ b *ℤ b)))
unfolding safe_incr safe_decr
safe_exact a b h k = (
  safe_add-exact a b h k,
  safe_sub-exact a b h k,
  safe_mul-exact a b h k,
  safe_neg-exact a h,
  safe_add-exact a (pos 1) h refl,
  safe_sub-exact a (pos 1) h refl,
  safe_div-exact a b h,
  safe_mod-exact a b h,
)

-- The checked product and sum of natural numbers that stay in range.
module _ (a b : ℕ) (ha : a ≤ int64_max) (hb : b ≤ int64_max) where
  pub safe_mul-pos : a * b ≤ int64_max → safe_mul (pos a) (pos b) ≡ some (pos (a * b))
  unfolding ◌*ℤ◌
  safe_mul-pos h =
      let e = safe_mul-exact (pos a) (pos b) (ground arith) (ground arith) in ground (arith, e)

  pub safe_add-pos : a + b ≤ int64_max → safe_add (pos a) (pos b) ≡ some (pos (a + b))
  unfolding ◌+ℤ◌
  safe_add-pos h =
      let e = safe_add-exact (pos a) (pos b) (ground arith) (ground arith) in ground (arith, e)
