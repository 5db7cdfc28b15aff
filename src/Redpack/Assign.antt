-- ===== src/Redpack/Assign.antt =====
-- flon.redpack: how much one claim gets (src/redpack.cpp).
use toolkit_contracts.Base.{
  Option, eq_ℤ, if◌then◌else◌, leb, none, pos, pos_part, some, ℕ, ℤ, ◌%◌, ◌*◌, ◌+◌, ◌-◌, ◌/ℤ◌, ◌/◌,
  ◌==◌, ◌^◌, ◌||◌,
}
use toolkit_contracts.Chain.{Asset, Chain}
use toolkit_contracts.Redpack.State.{AssignType, Redpack, mean, random}
use toolkit_contracts.Arithmetic.{power10, to_i64, to_u64}

-- The lowest byte of a symbol is its precision.
abbrev pub precision_of : ℕ → ℕ
precision_of raw = raw % 256

-- `min_unit_value` of `_rand`, an `int64_t`: the number that a random share is a multiple of, where a
-- division by zero traps. The powers of ten are those of the precision only up to 18.
unfoldable pub min_unit_value : ℕ → ℕ → Option ℤ
unfolding power10 ◌/ℤ◌
min_unit_value precision min_unit =
    if eq_ℤ (power10 min_unit) (pos 0) then none else some (power10 precision /ℤ power10 min_unit)

-- The last steps of `_rand`, on `int64_t` numbers that are taken for `uint64_t`. A division or a
-- remainder by zero traps.
unfoldable pub draw_units : ℕ → ℤ → ℤ → Option ℕ
unfolding ◌/ℤ◌
draw_units seed max_amount unit =
    let max_units = to_u64 (max_amount /ℤ unit) in
    if eq_ℤ unit (pos 0) || max_units == 0
    then none
    else some ((seed % max_units + 1) * to_u64 unit % 2 ^ 64)

-- `_rand`. The seed, eight bytes of a hash of the block, is given.
unfoldable pub rand : ℕ → ℤ → ℕ → ℕ → Option ℕ
unfolding min_unit_value draw_units
rand seed max_amount precision min_unit = elim (min_unit_value precision min_unit) [
  | none ↦ none
  | some unit ↦ draw_units seed max_amount unit
]

-- The precision that `_assign_redpack` hands to `_rand`.
unfoldable pub min_unit_of : ℕ → ℕ
min_unit_of precision = if leb precision 2 then 0 else precision - 2

-- `_assign_redpack`.
unfoldable pub assign_redpack : Chain → ℕ → Redpack → Option Asset
unfolding rand min_unit_of
assign_redpack c seed r =
    let raw = r.remaining_quant.symbol in
    let quantity = pos_part r.remaining_quant.amount / r.remaining_count * 2 % 2 ^ 64 in
    let drawn : Option Asset = elim (c.make_asset (pos quantity) raw) [
      | none ↦ none
      | some q ↦ elim (rand seed q.amount (precision_of raw) (min_unit_of (precision_of raw))) [
        | none ↦ none
        | some n ↦ c.make_asset (to_i64 n) raw
      ]
    ] in
    if r.remaining_count == 1 then some r.remaining_quant else drawn

-- `assigned_quant` of `claimredpack`, by the type of the packet.
unfoldable pub share_of : Chain → ℕ → AssignType → Redpack → Option Asset
share_of c seed random r = assign_redpack c seed r
share_of c seed mean r =
    if r.remaining_count == 1
    then some r.remaining_quant
    else c.div_asset r.total_quant r.total_count
