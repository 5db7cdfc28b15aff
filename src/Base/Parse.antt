-- ===== src/Base/Parse.antt =====
-- Text as a list of bytes, and what the contracts' utils.hpp and the C library read from it.
use Prim.Native.Nat.{ℕ, ◌+◌, ◌-◌, ◌*◌, ◌%◌, ◌^◌}
use mathlib.Core.Bool.{Bool, true, false, ◌&&◌, ◌||◌}
use mathlib.Core.Option.{Option, none, some}
use mathlib.Core.List.{List, [], ◌∷◌, reverse}
use toolkit_contracts.Base.Tests.{◌==◌, leb, ltb, if◌then◌else◌}
use toolkit_contracts.Base.Int.{ℤ, pos, sub_ℕ, ltb_ℤ, leb_ℤ}

abbrev pub Text : Type 0
Text = List ℕ

unfoldable pub text_eq : Text → Text → Bool
text_eq [] [] = true
text_eq (a ∷ s) (b ∷ t) = (a == b) && text_eq s t
text_eq _ _ = false

unfoldable pub trim_left : Text → Text
trim_left [] = []
trim_left (c ∷ s) = if c == b' ' then trim_left s else c ∷ s

-- `trim`: spaces are removed at both ends.
unfoldable pub trim : Text → Text
unfolding trim_left
trim s = reverse (trim_left (reverse (trim_left s)))

-- `field` holds the bytes since the last delimiter, the last one first.
unfoldable pub split_from : Text → ℕ → Text → List Text
unfolding trim
split_from field d [] = trim (reverse field) ∷ []
split_from field d (c ∷ s) =
    let cut = trim (reverse field) ∷ split_from [] d s in
    let keep = split_from (c ∷ field) d s in if c == d then cut else keep

-- `split(str, delims)` for a delimiter of one byte.
unfoldable pub split : Text → ℕ → List Text
unfolding split_from
split s d = split_from [] d s

unfoldable pub digits_value : ℕ → Text → ℕ
digits_value acc [] = acc
digits_value acc (c ∷ s) =
    let next = digits_value (acc * 10 + (c - b'0')) s in
    if leb b'0' c && leb c b'9' then next else acc

-- White space, as `isspace` has it.
unfoldable pub is_space : ℕ → Bool
is_space c = c == 32 || leb 9 c && leb c 13

unfoldable pub skip_space : Text → Text
unfolding is_space
skip_space [] = []
skip_space (c ∷ s) = if is_space c then skip_space s else c ∷ s

-- The optional sign in front of a number: whether it is a minus, and what follows.
unfoldable pub take_sign : Text → Bool × Text
take_sign [] = (false, [])
take_sign (c ∷ s) =
    if c == b'-' then (true, s) else if c == b'+' then (false, s) else (false, c ∷ s)

unfoldable pub starts_with_digit : Text → Bool
starts_with_digit [] = false
starts_with_digit (c ∷ s) = leb b'0' c && leb c b'9'

-- `to_uint64`, that is `strtoull` in base 10: the leading digits, negated after a minus as the C
-- library does, with `none` where it sets `errno`, on a text with no number or on one out of range,
-- which the code turns into an abort.
unfoldable pub to_uint64 : Text → Option ℕ
unfolding digits_value skip_space take_sign starts_with_digit
to_uint64 s =
    let (minus, digits) = take_sign (skip_space s) in
    let n = digits_value 0 digits in
    if starts_with_digit digits && ltb n (2 ^ 64)
    then some (if minus then (2 ^ 64 - n) % 2 ^ 64 else n)
    else none

-- `std::stoi`: `none` where it throws, on a text with no number or on one out of range of `int`.
unfoldable pub stoi : Text → Option ℤ
unfolding digits_value skip_space take_sign starts_with_digit
stoi s =
    let (minus, digits) = take_sign (skip_space s) in
    let n = digits_value 0 digits in
    if starts_with_digit digits
    then (if minus
        then (if leb n (2 ^ 31) then some (sub_ℕ 0 n) else none)
        else if ltb n (2 ^ 31)
        then some (pos n)
        else none)
    else none

-- `std::stoul` for an `unsigned long` of 32 bits, as the contracts are compiled: `none` likewise.
unfoldable pub stoul : Text → Option ℕ
unfolding digits_value skip_space take_sign starts_with_digit
stoul s =
    let (minus, digits) = take_sign (skip_space s) in
    let n = digits_value 0 digits in
    if starts_with_digit digits && ltb n (2 ^ 32)
    then some (if minus then (2 ^ 32 - n) % 2 ^ 32 else n)
    else none

-- The `split` of other copies of utils.hpp, for a delimiter of one byte: nothing is trimmed.
unfoldable pub split_raw : Text → ℕ → Text → List Text
split_raw field d [] = reverse field ∷ []
split_raw field d (x ∷ s) =
    let cut = reverse field ∷ split_raw [] d s in
    let keep = split_raw (x ∷ field) d s in if x == d then cut else keep

-- The leading digits with a sign, as `strtoll` and `std::stoll` read them.
unfoldable pub signed_value : Text → ℤ
unfolding digits_value skip_space take_sign
signed_value s =
    let (minus, digits) = take_sign (skip_space s) in
    let n = digits_value 0 digits in if minus then sub_ℕ 0 n else pos n

-- `to_int64`, that is `strtoll` in base 10, with `none` likewise.
unfoldable pub to_int64 : Text → Option ℤ
unfolding signed_value skip_space take_sign starts_with_digit
to_int64 s =
    let n = signed_value s in
    if starts_with_digit (take_sign (skip_space s)).1
      && (ltb_ℤ n (pos (2 ^ 63)) && leb_ℤ (sub_ℕ 0 (2 ^ 63)) n)
    then some n
    else none

-- `std::stoll`, which throws where `strtoll` sets `errno` or reads nothing.
unfoldable pub stoll : Text → Option ℤ
unfolding to_int64
stoll s = to_int64 s

-- The text before and after the first byte of a kind, where there is one: `find` and `substr`.
unfoldable pub cut_at : ℕ → Text → Option (Text × Text)
cut_at d [] = none
cut_at d (c ∷ s) =
    let rest = cut_at d s in
    if c == d then some ([], s) else elim rest [ none ↦ none | some (a, b) ↦ some (c ∷ a, b) ]
