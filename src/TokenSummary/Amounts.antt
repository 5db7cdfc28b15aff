-- ===== src/TokenSummary/Amounts.antt =====
-- tokensummary prints amounts that flon.proxyswap reads.
use toolkit_contracts.Base.{
  AllDigits, Bool-cases, IsNumber, IsNumber-to_string, Result, Text, [], ap, arith, cut_at,
  digits_value, digits_value-append, digits_value-below, digits_value-shift, digits_value-to_string,
  false, if◌then◌else◌, inl, inr, leb, length, ltb, none, ok, pos, refl, some, suc, ten_to,
  ten_to_mono, to_int64-IsNumber, to_string, to_string-AllDigits, to_uint64-IsNumber, zero, ℕ, ℤ,
  ◌%◌, ◌*◌, ◌++◌, ◌+◌, ◌-◌, ◌<◌, ◌^◌, ◌∙◌, ◌∷◌, ◌≡◌, ◌≤◌,
}
use toolkit_contracts.TokenSummary.Actions.{format_amount, insert_dot, pad_zeros, with_dot}
use toolkit_contracts.Swap.{
  Error, as_int64, parse_amount, parse_parts, precision_from_decimals, starts_with_minus,
}
use toolkit_contracts.Arithmetic.{power10_small}
use toolkit_contracts.Arithmetic.Safe.{safe_add, safe_add-pos, safe_mul, safe_mul-pos}

abbrev Cuts : Text → ℕ → Text × Text → Type 0
Cuts s k r =
    (cut_at b'.' (insert_dot k s) ≡ some r)
    × (s ≡ r.0 ++ r.1)
    × (length r.0 ≡ k)
    × AllDigits r.0
    × AllDigits r.1

insert_dot-Cuts : (s : Text) (k : ℕ) → AllDigits s → k ≤ length s → (r : Text × Text) × Cuts s k r
unfolding cut_at insert_dot
insert_dot-Cuts s zero h l = (([], s), (refl, refl, refl, tt, h))
insert_dot-Cuts [] (suc k) h l = absurd (omega arith)
insert_dot-Cuts (c ∷ s) (suc k) h l =
    let (r, (e, f, g, da, db)) = insert_dot-Cuts s k h.1 (omega arith) in
    ((c ∷ r.0, r.1), (ground (arith, h.0, e), ap (λ t. c ∷ t) f, ap suc g, (h.0, da), db))

IsNumber-length : (s : Text) → AllDigits s → 0 < length s → IsNumber s
IsNumber-length [] h l = absurd (omega arith)
IsNumber-length (c ∷ s) h l = h

length-append : (s t : Text) → length (s ++ t) ≡ length s + length t
length-append [] t = omega arith
length-append (c ∷ s) t = omega (arith, length-append s t)

-- Padding leaves the value alone.
pad_zeros_lem :
    (k : ℕ) (s : Text)
    → AllDigits s
    → AllDigits (pad_zeros k s)
      × (length (pad_zeros k s) ≡ k + length s)
      × (digits_value 0 (pad_zeros k s) ≡ digits_value 0 s)
unfolding pad_zeros digits_value
pad_zeros_lem zero s h = (h, omega arith, refl)
pad_zeros_lem (suc k) s h =
    let (d, l, v) = pad_zeros_lem k s h in ((refl, d), omega (arith, l), ground (arith, v))

whole_le : (w t f n : ℕ) → 0 < t → n ≡ w * t + f → w ≤ n
whole_le w t f n h e = grind arith

as_int64-small : (n : ℕ) → n < 2 ^ 63 → as_int64 n ≡ pos n
as_int64-small n h = ground arith

-- The digits before and after a point are read by the value of both together.
module _ (a b : Text) (da : AllDigits a) (db : AllDigits b) (la : 0 < length a) (lb : 0 < length b)
    (most : length b ≤ 18) where
  abbrev w : ℕ
  w = digits_value 0 a

  abbrev v : ℕ
  v = digits_value 0 b

  value-append : digits_value 0 (a ++ b) ≡ w * ten_to (length b) + v
  value-append = rw (digits_value-append 0 a b da) (digits_value-shift w b db)

  precision_of_b : precision_from_decimals (length b % 2 ^ 8) ≡ some (pos (ten_to (length b)))
  unfolding precision_from_decimals
  precision_of_b =
      let small : length b % 2 ^ 8 ≡ length b = omega arith in
      rw small (ground (arith, power10_small (length b) most))

  parse_parts-digits :
      digits_value 0 (a ++ b) < 2 ^ 63
      → parse_parts false a b ≡ ok (pos (digits_value 0 (a ++ b)), length b)
  unfolding parse_parts
  parse_parts-digits small =
      let sum = value-append in
      let below = digits_value-below b db in
      let pow = ten_to_mono (length b) 18 most in
      let unit = ten_to_mono 0 (length b) (omega arith) in
      let w_small = whole_le w (ten_to (length b)) v (digits_value 0 (a ++ b)) (omega arith) sum in
      let whole = to_int64-IsNumber a (IsNumber-length a da la) (omega arith) in
      let fraction = to_uint64-IsNumber b (IsNumber-length b db lb) (omega arith) in
      let digits : length b % 2 ^ 8 ≡ length b = omega arith in
      let product : safe_mul (pos w) (pos (ten_to (length b)))
          ≡ some (pos (w * ten_to (length b))) =
        safe_mul-pos w (ten_to (length b)) (omega arith) (omega arith) (omega arith) in
      let total : safe_add (pos (w * ten_to (length b))) (pos v)
          ≡ some (pos (digits_value 0 (a ++ b))) =
        rw sum (safe_add-pos (w * ten_to (length b)) v (omega arith) (omega arith) (omega arith)) in
      rw (whole, fraction, as_int64-small v (omega arith), precision_of_b, product, total, digits)
        (ground arith)

no_minus :
    (s : Text) (k : ℕ)
    → AllDigits s
    → 0 < k
    → k ≤ length s
    → starts_with_minus (insert_dot k s) ≡ false
unfolding starts_with_minus insert_dot
no_minus s zero h l m = absurd (omega arith)
no_minus [] (suc k) h l m = absurd (omega arith)
no_minus (c ∷ s) (suc k) h l m = ground (arith, h.0)

parse_amount-cut :
    (t a b : Text)
    → cut_at b'.' t ≡ some (a, b)
    → starts_with_minus t ≡ false
    → parse_amount t ≡ parse_parts false a b
unfolding parse_amount
parse_amount-cut t a b e m = ground (arith, e, m)

parse_amount-halves :
    (s t a b : Text)
    → cut_at b'.' t ≡ some (a, b)
    → starts_with_minus t ≡ false
    → s ≡ a ++ b
    → AllDigits a
    → AllDigits b
    → 0 < length a
    → 0 < length b
    → length b ≤ 18
    → digits_value 0 s < 2 ^ 63
    → parse_amount t ≡ ok (pos (digits_value 0 s), length b)
parse_amount-halves s t a b cut m e da db la lb most small =
    let small' : digits_value 0 (a ++ b) < 2 ^ 63 = rw e at small in
    rw (parse_amount-cut t a b cut m, e) (parse_parts-digits a b da db la lb most small')

-- A text of more digits than the precision, with the point put in, is read back by its value.
parse_amount-insert_dot :
    (s : Text) (p : ℕ)
    → AllDigits s
    → p < length s
    → 0 < p
    → p ≤ 18
    → digits_value 0 s < 2 ^ 63
    → parse_amount (insert_dot (length s - p) s) ≡ ok (pos (digits_value 0 s), p)
parse_amount-insert_dot s p h l few most small =
    let k = length s - p in
    let (r, (cut, e, lw, da, db)) = insert_dot-Cuts s k h (omega arith) in
    let lengths : length s ≡ length r.0 + length r.1 = ap length e ∙ length-append r.0 r.1 in
    let lp : length r.1 ≡ p = omega arith in
    let read =
      parse_amount-halves s (insert_dot k s) r.0 r.1 cut
        (no_minus s k h (omega arith) (omega arith)) e da db (omega arith) (omega arith)
        (omega arith) small in
    read ∙ ap (λ m. ok (pos (digits_value 0 s), m)) lp

with_dot-read :
    (s : Text) (p : ℕ)
    → AllDigits s
    → 0 < p
    → p ≤ 18
    → digits_value 0 s < 2 ^ 63
    → parse_amount (with_dot s p) ≡ ok (pos (digits_value 0 s), p)
unfolding with_dot
with_dot-read s p h few most small = elim (Bool-cases (leb (length s) p)) [
  | inr long ↦ rw long (parse_amount-insert_dot s p h (ground arith) few most small)
  | inl short ↦
      let t = pad_zeros (p - length s + 1) s in
      let (d, l, v) = pad_zeros_lem (p - length s + 1) s h in
      let longer : p < length t = ground (arith, l) in
      let read = parse_amount-insert_dot t p d longer few most (omega (arith, v)) in
      rw short (read ∙ ap (λ m. ok (pos m, p)) v)
]

cut_at-none : (s : Text) → AllDigits s → cut_at b'.' s ≡ none
unfolding cut_at
cut_at-none [] h = refl
cut_at-none (c ∷ s) h = ground (arith, h.0, cut_at-none s h.1)

parse_amount-digits :
    (s : Text)
    → IsNumber s
    → AllDigits s
    → digits_value 0 s < 2 ^ 63
    → parse_amount s ≡ ok (pos (digits_value 0 s), 0)
unfolding parse_amount
parse_amount-digits s h d small = ground (arith, cut_at-none s d, to_int64-IsNumber s h small)

format_amount-pos :
    (n p : ℕ)
    → format_amount (pos n) p ≡ (if ltb 0 p then with_dot (to_string n) p else to_string n)
unfolding format_amount
format_amount-pos n p =
    let e : n + 0 ≡ n = omega arith in
    let not_below : ltb n 0 ≡ false = ground arith in rw (e, not_below) refl

-- A balance that is not negative, printed with at most 18 decimal digits, is read back as the same
-- amount with the same number of digits.
pub parse_amount-format_amount :
    (n p : ℕ) → n < 2 ^ 63 → p ≤ 18 → parse_amount (format_amount (pos n) p) ≡ ok (pos n, p)
parse_amount-format_amount n p small most =
    let value = digits_value-to_string n (omega arith) in
    let digits = to_string-AllDigits n in
    let whole : ℕ → Result Error (ℤ × ℕ) = λ m. ok (pos m, p) in
    let read_back = ap whole value in
    elim (Bool-cases (ltb 0 p)) [
      | inl dotted ↦
          let read =
            with_dot-read (to_string n) p digits (ground arith) most (omega (arith, value)) in
          rw (format_amount-pos n p, dotted) (read ∙ read_back)
      | inr plain ↦
          let none_left : 0 ≡ p = ground arith in
          let read =
            parse_amount-digits (to_string n) (IsNumber-to_string n) digits
              (omega (arith, value)) in
          rw (format_amount-pos n p, plain)
            (read ∙ ap (λ m. ok (pos (digits_value 0 (to_string n)), m)) none_left ∙ read_back)
    ]
