-- ===== src/Swap/Memo.antt =====
-- flon.proxyswap: the memo of a payment (`on_transfer`, and `asset_from_string` of utils.hpp).
use toolkit_contracts.Base.{
  Bool, List, Option, Result, Text, [], check, cut_at, err, false, if◌then◌else◌, is_digit, leb,
  length, ltb, negsuc, none, not, ok, or_abort, pos, some, split_raw, stoll, sub_ℕ, sym, text_eq,
  to_int64, to_uint64, trim, true, ℕ, ℤ, ◌%◌, ◌&&◌, ◌==◌, ◌>>=◌, ◌>>◌, ◌^◌, ◌||◌, ◌∷◌,
}
use toolkit_contracts.Chain.{Asset, Chain, Context}
use toolkit_contracts.Swap.State.{
  Error, OrderType, State, buy, invalid_format, is_enabled, pair_not_enabled, param_error, platform,
  record_no_found, sell,
}
use toolkit_contracts.Swap.Actions.{place_order}
use toolkit_contracts.Arithmetic.{power10}
use toolkit_contracts.Arithmetic.Safe.{safe_add, safe_mul}

abbrev buy_word : Text
buy_word = b'b' ∷ b'u' ∷ b'y' ∷ []

abbrev sell_word : Text
sell_word = b's' ∷ b'e' ∷ b'l' ∷ b'l' ∷ []

-- `precision_from_decimals`, of a number of digits that is an `int8_t`: the loop does not run for
-- one that wraps around to a negative number.
unfoldable pub precision_from_decimals : ℕ → Option ℤ
unfolding power10
precision_from_decimals decimals =
    if leb 128 decimals
    then some (pos 1)
    else if leb decimals 18
    then some (power10 decimals)
    else none

-- An `int64_t` out of a `uint64_t`.
abbrev pub as_int64 : ℕ → ℤ
as_int64 n = if ltb n (2 ^ 63) then pos n else sub_ℕ n (2 ^ 64)

-- The amount of an asset in text, and the number of its decimal digits, an `uint8_t`. A fraction
-- is added on the side of the sign.
unfoldable pub parse_parts : Bool → Text → Text → Result Error (ℤ × ℕ)
unfolding precision_from_decimals safe_mul safe_add
parse_parts minus whole fraction = do
  check (ltb 0 (length fraction)) platform
  let digits = length fraction % 2 ^ 8
  int_part ← or_abort (to_int64 whole) platform
  fract ← or_abort (to_uint64 fraction) platform
  fract_part ←
      or_abort (if minus then safe_mul (as_int64 fract) (negsuc 0) else some (as_int64 fract))
        platform
  precision ← or_abort (precision_from_decimals digits) platform
  scaled ← or_abort (safe_mul int_part precision) platform
  amount ← or_abort (safe_add scaled fract_part) platform
  ok (amount, digits)

unfoldable pub starts_with_minus : Text → Bool
starts_with_minus [] = false
starts_with_minus (c ∷ s) = c == b'-'

unfoldable pub parse_amount : Text → Result Error (ℤ × ℕ)
unfolding cut_at parse_parts starts_with_minus
parse_amount amount_str = elim (cut_at b'.' amount_str) [
  | none ↦ do int_part ← or_abort (to_int64 amount_str) platform; ok (int_part, 0)
  | some (whole, fraction) ↦ parse_parts (starts_with_minus amount_str) whole fraction
]

unfoldable pub all_digits : Text → Bool
all_digits [] = true
all_digits (c ∷ s) = is_digit c && all_digits s

unfoldable pub type_of : Text → Result Error OrderType
type_of t =
    if text_eq t buy_word
    then ok buy
    else if text_eq t sell_word
    then ok sell
    else err invalid_format

-- The first four parts of a memo; more of them are not read.
unfoldable pub params_of : List Text → Result Error (Text × Text × Text × Text)
params_of (a ∷ b ∷ c ∷ d ∷ rest) = ok (a, b, c, d)
params_of _ = err param_error

-- A symbol out of its code and its precision is given, `symbol(code, precision)`.
module _ (c : Chain) (symbol_of : Text → ℕ → Option ℕ) where
  unfoldable pub asset_from_string : Text → Result Error Asset
  unfolding cut_at parse_amount
  asset_from_string from = do
    parts ← or_abort (cut_at b' ' (trim from)) platform
    amount ← parse_amount parts.0
    sym ← or_abort (symbol_of (trim parts.1) amount.1) platform
    or_abort (c.make_asset amount.0 sym) platform

  unfoldable pub on_transfer : Context → ℕ → ℕ → Asset → Text → State c → Result Error (State c)
  unfolding params_of type_of all_digits asset_from_string place_order
  on_transfer ctx from to quantity memo s =
      let handled = do
        check (leb (length memo) 256) invalid_format
        params ← params_of (split_raw [] b':' memo)
        tpcode ← or_abort (c.name_of params.0) platform
        kind ← type_of params.1
        check (ltb 0 (length params.3)) invalid_format
        check (all_digits params.3) invalid_format
        slippage ← or_abort (stoll params.3) platform
        p ← or_abort (c.find s.pairs tpcode) record_no_found
        check (is_enabled p.status) pair_not_enabled
        price ← asset_from_string params.2
        place_order c ctx from tpcode kind price slippage quantity memo s
      in if not (to == ctx.self) || from == ctx.self then ok s else handled
