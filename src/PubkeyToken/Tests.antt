-- ===== src/PubkeyToken/Tests.antt =====
-- pubkey.token: examples of the theorems, and runs of the actions on small tables.
use toolkit_contracts.Base.{
  Bool, List, OnOk, Text, [], after, arith, cut_at, err, false, if◌then◌else◌, is_space, length,
  none, ok, pos, refl, skip_space, some, suc, true, zero, ℕ, ◌%◌, ◌+ℤ◌, ◌+◌, ◌-ℤ◌, ◌/◌, ◌==◌, ◌^◌,
  ◌∷◌, ◌≡◌,
}
use toolkit_contracts.Chain.{Asset, Context}
use toolkit_contracts.PubkeyToken.State.{
  PubkeyAccount, State, bad_length, flon_symbol, sys_bank, transfer_message,
}
use toolkit_contracts.PubkeyToken.Base58.{decode_base58, digit_of, skip_ones, str_to_pubkey}
use toolkit_contracts.PubkeyToken.Actions.{move, newaccount, ontransfer, receive}
use toolkit_contracts.PubkeyToken.Apart.{hashes_apart, receive_appends}
use toolkit_contracts.PubkeyToken.Digits.{IsBase58, base58_value}
use toolkit_contracts.PubkeyToken.Decode.{Decoded}
use toolkit_contracts.PubkeyToken.Keys.{str_to_pubkey_lem}
use toolkit_contracts.PubkeyToken.Books.{OwnNumbers, funds, spent}
use toolkit_contracts.PubkeyToken.Run.{
  Call, gas, inflow, move_call, newaccount_call, run, run_overspends, tally, transfer_call,
}
use toolkit_contracts.PubkeyToken.Locked.{Locked, run-Locked}
use toolkit_contracts.Chain.Memory.{memory, one_row, signed_at, text_number}

abbrev coins : ℕ → Asset
coins n = record { amount = pos n; symbol = flon_symbol }

-- The key 77 has a deposit, made at the time 5.
abbrev row_one : PubkeyAccount
row_one = record { id = 1; pubkey = 77; quantity = coins 5000; last_recv_at = 5 }

abbrev start : State memory
start = record {
  global = record { admin = 3; last_idx = 1; miner_fee = coins 1000 };
  pkaccts = one_row 1 row_one;
  sent = [];
}

abbrev plain : ℕ → ℕ
plain k = k

abbrev anyone : ℕ → ℕ → ℕ → ℕ → Bool
anyone to time sig pubkey = true

-- The fee goes to the miner 8, and the rest to the account 9.
move-sent :
    (after start (move memory plain plain anyone (signed_at 6) 8 77 5 9 1 start)).sent
    ≡ transfer_message 9 (coins 4000) ∷ transfer_message 8 (coins 1000) ∷ []
unfolding move ◌-ℤ◌
move-sent = refl

-- `Z` is the digit 32, and 32 * 58 is 7 * 256 + 64.
decode-base58 : decode_base58 (b'Z' ∷ b'1' ∷ []) ≡ some (7 ∷ 64 ∷ [])
unfolding decode_base58 cut_at skip_space is_space
decode-base58 = refl

-- The account 9 is opened for the key 77, by the miner 8.
abbrev opening : List (Context × Call)
opening = (record (signed_at 6) { is_account = λ a. false }, newaccount_call 8 77 9 1) ∷ []

-- The deposit of 5000 is paid out, and 1000000 are spent on top.
run-spent : spent (run memory plain plain anyone opening start).sent ≡ pos 1005000
unfolding run ◌-ℤ◌ ◌+ℤ◌
run-spent = refl

run_overspends_example :
    OwnNumbers memory (run memory plain plain anyone opening start)
    × (funds memory (run memory plain plain anyone opening start)
        ≡ funds memory start
          +ℤ (tally memory plain plain anyone (inflow memory plain plain anyone) opening start
              +ℤ tally memory plain plain anyone (gas memory plain plain anyone) opening start))
run_overspends_example =
    run_overspends memory plain plain anyone opening start (λ k a f. ground arith)

-- As many letters z, which is the digit 57.
abbrev many : ℕ → Text
many zero = []
many (suc n) = b'z' ∷ many n

many-IsBase58 : (n : ℕ) → IsBase58 (many n)
unfolding is_space digit_of
many-IsBase58 zero = tt
many-IsBase58 (suc n) = (refl, (57, refl), many-IsBase58 n)

-- One hash is even and the other odd.
abbrev raw_even : ℕ → ℕ
raw_even k = k + k

abbrev packed_odd : ℕ → ℕ
packed_odd k = k + k + 1

odd-even : (k j : ℕ) → packed_odd k == raw_even j ≡ false
odd-even k j = ground arith

receive_appends_example :
    OnOk
      (λ s'.
        (memory.find start.pkaccts s'.global.last_idx ≡ none)
        × (s'.global.last_idx ≡ 2 % 2 ^ 64)
        × (memory.find s'.pkaccts s'.global.last_idx
            ≡ some (record {
              id = s'.global.last_idx;
              pubkey = 77;
              quantity = coins 20;
              last_recv_at = 6;
            }))
        × ((k : ℕ)
            → k == s'.global.last_idx ≡ false
            → memory.find s'.pkaccts k ≡ memory.find start.pkaccts k)
        × (s'.sent ≡ []))
      (receive memory raw_even packed_odd anyone (signed_at 6) 77 (coins 20) start)
receive_appends_example =
    receive_appends memory raw_even packed_odd anyone (signed_at 6) 77 (coins 20) start
      (λ k. odd-even k 77)

-- A deposit for the key of fifty letters z, and two attempts to pay it out.
abbrev deposit_and_claims : List (Context × Call)
deposit_and_claims =
    (
      record (signed_at 6) { first_receiver = text_number sys_bank },
      transfer_call 7 1 (coins 20) (b'F' ∷ b'U' ∷ many 50),
    )
    ∷ (
      record (signed_at 7) { is_account = λ a. false },
      newaccount_call 8 (base58_value 0 (many 50) / 2 ^ 32) 9 1,
    )
    ∷ (signed_at 8, move_call 8 (base58_value 0 (many 50) / 2 ^ 32) 6 9 1)
    ∷ []

-- The deposit is made, and held after the attempts.
deposit_held :
    memory.find (run memory raw_even packed_odd anyone deposit_and_claims start).pkaccts 2
    ≡ some (record {
      id = 2;
      pubkey = base58_value 0 (many 50) / 2 ^ 32;
      quantity = coins 20;
      last_recv_at = 6;
    })
unfolding run ontransfer receive newaccount move str_to_pubkey base58_value cut_at skip_space
    is_space ◌+ℤ◌ ◌-ℤ◌
deposit_held = refl

run-Locked_example :
    Locked memory raw_even packed_odd anyone odd-even
      (tally memory raw_even packed_odd anyone
        (inflow memory raw_even packed_odd anyone)
        deposit_and_claims
        start)
      start
      (run memory raw_even packed_odd anyone deposit_and_claims start)
run-Locked_example = run-Locked memory raw_even packed_odd anyone odd-even deposit_and_claims start

hashes_apart_example :
    OnOk (λ t. ⊥) (newaccount memory (λ k. 0) (λ k. k + 1) anyone (signed_at 6) 8 77 9 1 start)
    × OnOk (λ t. ⊥) (move memory (λ k. 0) (λ k. k + 1) anyone (signed_at 6) 8 77 5 9 1 start)
hashes_apart_example =
    hashes_apart memory (λ k. 0) (λ k. k + 1) anyone (signed_at 6) 8 77 9 1 5 start
      (λ k. ground arith)

-- 50 of them are 37 bytes.
key_of_fifty : str_to_pubkey (b'F' ∷ b'U' ∷ many 50) ≡ ok (base58_value 0 (many 50) / 2 ^ 32)
unfolding str_to_pubkey base58_value cut_at skip_space is_space
key_of_fifty = refl

str_to_pubkey_lem_example :
    (ds : List ℕ) × Decoded (many 50) ds
    × (str_to_pubkey (b'F' ∷ b'U' ∷ many 50) ≡ (
        if (skip_ones (many 50)).0 + length ds == 37
        then ok (base58_value 0 (many 50) / 2 ^ 32)
        else err bad_length))
str_to_pubkey_lem_example = str_to_pubkey_lem (many 50) (many-IsBase58 50)
