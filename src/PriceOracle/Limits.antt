-- ===== src/PriceOracle/Limits.antt =====
-- price.oracle: how far one update can move a price.
use toolkit_contracts.Base.{arith, negsuc, ok, pos, refl, ℕ, ℤ, ◌*◌, ◌+◌, ◌/◌, ◌<◌, ◌↔◌, ◌≡◌, ◌≤◌}
use toolkit_contracts.PriceOracle.Actions.{check_price}
use toolkit_contracts.Arithmetic.{int64_max, multiply_decimal64-pos}

-- Next to an old price whose fifteenfold fits 64 bits, a new price passes exactly where it is
-- above half of the old one, rounded up, and below one and a half times it, rounded up; so none
-- passes that is not positive.
pub check_price_lem :
    (old : ℕ) (amount : ℤ)
    → 0 < old
    → 15 * old ≤ int64_max
    → (check_price old amount ≡ ok tt)
      ↔ ((n : ℕ) × (amount ≡ pos n) × ((old + 1) / 2 < n) × (n < (3 * old + 1) / 2))
unfolding check_price
check_price_lem old (pos n) h k =
    let upper = multiply_decimal64-pos old 15 10 (omega arith) (omega arith) in
    let lower = multiply_decimal64-pos old 5 10 (omega arith) (omega arith) in
    (
      λ e. (n, refl, ground (arith, upper, lower), ground (arith, upper, lower)),
      λ (m, f, l, u). ground (arith, upper, lower),
    )
check_price_lem old (negsuc n) h k =
    let upper = multiply_decimal64-pos old 15 10 (omega arith) (omega arith) in
    let lower = multiply_decimal64-pos old 5 10 (omega arith) (omega arith) in
    (λ e. ground (arith, upper, lower), λ (m, f, l, u). cc)
