-- ===== src/Arithmetic/Tests.antt =====
-- The checked arithmetic: an example of the theorem, and runs at the bounds.
use toolkit_contracts.Base.{
  eq_ℤ, if◌then◌else◌, negsuc, none, not, pos, refl, some, ◌*ℤ◌, ◌+ℤ◌, ◌-ℤ◌, ◌/ℤ◌, ◌||◌, ◌≡◌,
}
use toolkit_contracts.Arithmetic.{exact, int64_min, int64_top, is_int64}
use toolkit_contracts.Arithmetic.Safe.{
  safe_add, safe_decr, safe_exact, safe_incr, safe_mul, safe_neg, safe_sub,
}
use toolkit_contracts.Arithmetic.Quotients.{safe_div, safe_mod}

safe_mul-min : safe_mul int64_min (negsuc 0) ≡ none
unfolding safe_mul ◌*ℤ◌ ◌/ℤ◌
safe_mul-min = refl

safe_add-top : safe_add int64_top (pos 1) ≡ none
unfolding safe_add ◌+ℤ◌ ◌-ℤ◌
safe_add-top = refl

safe_mod-min : safe_mod int64_min (negsuc 0) ≡ none
unfolding safe_mod
safe_mod-min = refl

safe_exact_example :
    (safe_add (pos 4611686018427387904) (pos 5) ≡ exact ((pos 4611686018427387904) +ℤ pos 5))
    × (safe_sub (pos 4611686018427387904) (pos 5) ≡ exact ((pos 4611686018427387904) -ℤ pos 5))
    × (safe_mul (pos 4611686018427387904) (pos 5) ≡ exact ((pos 4611686018427387904) *ℤ pos 5))
    × (safe_neg (pos 4611686018427387904) ≡ exact (pos 0 -ℤ (pos 4611686018427387904)))
    × (safe_incr (pos 4611686018427387904) ≡ exact ((pos 4611686018427387904) +ℤ pos 1))
    × (safe_decr (pos 4611686018427387904) ≡ exact ((pos 4611686018427387904) -ℤ pos 1))
    × (safe_div (pos 4611686018427387904) (pos 5)
        ≡ (if eq_ℤ (pos 5) (pos 0) then none else exact ((pos 4611686018427387904) /ℤ pos 5)))
    × (safe_mod (pos 4611686018427387904) (pos 5) ≡ (
        if eq_ℤ (pos 5) (pos 0) || not (is_int64 ((pos 4611686018427387904) /ℤ pos 5))
        then none
        else some ((pos 4611686018427387904) -ℤ (pos 4611686018427387904) /ℤ pos 5 *ℤ pos 5)))
safe_exact_example = safe_exact (pos 4611686018427387904) (pos 5) refl refl
