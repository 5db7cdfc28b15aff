-- ===== src/TokenSummary/Tests.antt =====
-- tokensummary: examples of the theorems, and runs of the actions on small tables.
use toolkit_contracts.TokenSummary.State.{State as SummaryState}
use toolkit_contracts.Base.{
  OnOk, Option, [], after, arith, negsuc, ok, pos, refl, some, to_int64, to_string, to_uint64, ℕ,
  ◌*ℤ◌, ◌+ℤ◌, ◌-ℤ◌, ◌/ℤ◌, ◌∷◌, ◌≡◌,
}
use toolkit_contracts.Chain.{Asset}
use toolkit_contracts.TokenSummary.Actions.{addtoken, format_amount, view}
use toolkit_contracts.TokenSummary.Amounts.{parse_amount-format_amount}
use toolkit_contracts.TokenSummary.Keys.{addtoken_clashes}
use toolkit_contracts.Chain.Memory.{empty_table, memory, one_row, signed_at}
use toolkit_contracts.Swap.{parse_amount}
use toolkit_contracts.Arithmetic.Safe.{safe_add, safe_mul}

abbrev start : SummaryState memory
start = record { admin = 3; tokencfg = one_row 5 (record { bank = 2; sym = 1282 }) }

abbrev none_listed : SummaryState memory
none_listed = record { admin = 3; tokencfg = empty_table }

abbrev balances : ℕ → ℕ → ℕ → Option Asset
balances bank account code = some (record { amount = pos 7; symbol = 1282 })

-- Seven units with two decimal digits.
view-seven :
    view memory balances (λ code. b'A' ∷ []) 9 start
    ≡ record { code = 2; balance = b'0' ∷ b'.' ∷ b'0' ∷ b'7' ∷ []; coin = b'A' ∷ [] } ∷ []
unfolding view to_string
view-seven = refl

format_amount-neg : format_amount (negsuc 1233) 2 ≡ b'-' ∷ b'1' ∷ b'2' ∷ b'.' ∷ b'3' ∷ b'4' ∷ []
unfolding format_amount
format_amount-neg = refl

parse_amount-neg : parse_amount (b'-' ∷ b'1' ∷ b'2' ∷ b'.' ∷ b'3' ∷ b'4' ∷ []) ≡ ok (negsuc 1233, 2)
unfolding parse_amount safe_mul safe_add to_int64 to_uint64 ◌*ℤ◌ ◌+ℤ◌ ◌-ℤ◌ ◌/ℤ◌
parse_amount-neg = refl

parse_amount-format_amount_example :
    parse_amount (format_amount (pos 1234567) 8) ≡ ok (pos 1234567, 8)
parse_amount-format_amount_example =
    parse_amount-format_amount 1234567 8 (omega arith) (omega arith)

abbrev listed : SummaryState memory
listed = after none_listed (addtoken memory (signed_at 0) 2 1282 none_listed)

-- A second bank, with a token of the same code and another precision.
addtoken_clashes_example : OnOk (λ t. ⊥) (addtoken memory (signed_at 0) 4 1288 listed)
unfolding addtoken
addtoken_clashes_example =
    addtoken_clashes memory (signed_at 0) (signed_at 0) 2 4 1282 1288 none_listed listed refl refl
