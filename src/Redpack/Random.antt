-- ===== src/Redpack/Random.antt =====
-- flon.redpack: the bounds of a random share, and the draw that starves the last claimer.
use toolkit_contracts.Base.{
  Option-cases, ap, arith, if◌then◌else◌, inl, inr, none, pos, pos_part, some, ten_to, ten_to_mono,
  ℕ, ◌%◌, ◌*◌, ◌+◌, ◌/ℤ◌, ◌/◌, ◌<◌, ◌==◌, ◌^◌, ◌||◌, ◌≡◌, ◌≤◌,
}
use toolkit_contracts.Chain.{Asset, Chain, make_asset-eq-some}
use toolkit_contracts.Arithmetic.{power10_small, ten_to_fits, to_i64}
use toolkit_contracts.Redpack.State.{Redpack}
use toolkit_contracts.Redpack.Assign.{
  assign_redpack, draw_units, min_unit_of, min_unit_value, precision_of, rand,
}

*-mono : (a b u : ℕ) → a ≤ b → a * u ≤ b * u
*-mono a b u h = grind arith

dvd_units : (seed k unit : ℕ) → 0 < k → (seed % k + 1) * unit ≤ k * unit
dvd_units seed k unit h = *-mono (seed % k + 1) k unit (ground arith)

-- The smallest share of a symbol with at most 18 digits: one unit of all but the last two of them.
abbrev pub units : ℕ → ℕ → ℕ
units precision min_unit = ten_to precision / ten_to min_unit

abbrev pub unit_of : Redpack → ℕ
unit_of r =
    let precision = precision_of r.remaining_quant.symbol in units precision (min_unit_of precision)

pub min_unit_of-small : (precision : ℕ) → precision ≤ 18 → min_unit_of precision ≤ 18
unfolding min_unit_of
min_unit_of-small precision h = ground arith

min_unit_value-units :
    (precision unit : ℕ)
    → precision ≤ 18
    → unit ≤ 18
    → min_unit_value precision unit ≡ some (pos (units precision unit))
unfolding min_unit_value ◌/ℤ◌
min_unit_value-units precision unit h k =
    let some_base = ten_to_mono 0 unit (omega arith) in
    rw (power10_small precision h, power10_small unit k) (ground (arith, some_base))

quotient_le : (a b : ℕ) → a / b ≤ a
quotient_le a b = grind arith

-- With at most 18 digits, and of an amount below 2^63, nothing wraps around.
pub rand_small :
    (seed a precision unit : ℕ)
    → a < 2 ^ 63
    → precision ≤ 18
    → unit ≤ 18
    → rand seed (pos a) precision unit ≡ (
        let u = units precision unit in
        let k = a / u in if u == 0 || k == 0 then none else some ((seed % k + 1) * u))
unfolding rand draw_units ◌/ℤ◌
rand_small seed a precision unit small h l =
    let u = units precision unit in
    let k = a / u in
    let below = dvd_units seed k u in
    let whole : k * u ≤ a = grind arith in
    let fits : u < 2 ^ 63 =
      omega (arith, quotient_le (ten_to precision) (ten_to unit), ten_to_fits precision h) in
    let fits_k : k < 2 ^ 63 = omega (arith, quotient_le a u, small) in
    rw (rand, min_unit_value-units precision unit h l)
      (ground (arith, below, whole, fits, fits_k, small))

rand-bounds :
    (seed a precision unit n : ℕ)
    → a < 2 ^ 63
    → precision ≤ 18
    → unit ≤ 18
    → rand seed (pos a) precision unit ≡ some n
    → (0 < n) × (n ≤ a) × ((k : ℕ) × (n ≡ k * units precision unit))
rand-bounds seed a precision unit n small h l e =
    let u = units precision unit in
    let k = a / u in
    let below = dvd_units seed k u in
    let whole : k * u ≤ a = grind arith in
    let run = rand_small seed a precision unit small h l in
    (
      ground (arith, below, whole, run, e),
      ground (arith, below, whole, run, e),
      (seed % k + 1, ground (arith, below, whole, run, e)),
    )

-- A random share of a packet with several counts left, which holds a non-negative amount below
-- 2^63 of a symbol with at most 18 digits, is in the packet's symbol where one is drawn: a positive number of whole units, at most
-- twice the average that is left per count, and never more than what is left.
pub assign_redpack-bounds :
    (c : Chain) (seed m : ℕ) (r : Redpack) (q : Asset)
    → r.remaining_quant.amount ≡ pos m
    → m < 2 ^ 63
    → precision_of r.remaining_quant.symbol ≤ 18
    → 1 < r.remaining_count
    → assign_redpack c seed r ≡ some q
    → (q.symbol ≡ r.remaining_quant.symbol)
      × ((k : ℕ) × (q.amount ≡ pos (k * unit_of r))
          × (0 < k * unit_of r)
          × (k * unit_of r ≤ m / r.remaining_count * 2)
          × (k * unit_of r ≤ m))
unfolding assign_redpack
assign_redpack-bounds c seed m r q e w digits h drawn =
    let raw = r.remaining_quant.symbol in
    let most = m / r.remaining_count * 2 in
    let half : most ≤ m = grind arith in
    let precision = precision_of raw in
    let wrap : most % 2 ^ 64 ≡ most = omega arith in
    let part : pos_part r.remaining_quant.amount ≡ m = rw e in
    elim (Option-cases (c.make_asset (pos most) raw)) [
      | inl large ↦ ground arith
      | inr (a, fa) ↦ elim (Option-cases (rand seed a.amount precision (min_unit_of precision))) [
        | inl trap ↦ ground arith
        | inr (n, fn) ↦
            let la = make_asset-eq-some c (pos most) raw a fa in
            let b =
              rand-bounds seed most precision (min_unit_of precision) n (omega (arith, half, w))
                digits (min_unit_of-small precision digits) (rw la at fn) in
            let below : n ≤ most = b.1 in
            let plain : to_i64 n ≡ pos n = ground (arith, below, half, w) in
            let made : c.make_asset (to_i64 n) raw ≡ some q = ground (arith, wrap, part, fa, fn) in
            let lq = make_asset-eq-some c (pos n) raw q (rw plain at made) in
            (
              ap (λ z. z.symbol) lq,
              (
                b.2.0,
                ground (arith, lq, b.2.1),
                ground (arith, b, half, below),
                ground (arith, b, half, below),
                ground (arith, b, half, below),
              ),
            )
      ]
    ]
