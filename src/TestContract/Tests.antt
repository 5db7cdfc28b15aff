-- ===== src/TestContract/Tests.antt =====
-- flon.test: examples of the theorems.
use toolkit_contracts.Base.{List, Text, [], after, if◌then◌else◌, ok, refl, ◌==◌, ◌∷◌, ◌≡◌}
use toolkit_contracts.TestContract.State.{State, testcontract}
use toolkit_contracts.TestContract.Actions.{
  add, addrm, addrmadd, checkwithrv, maddrm, mremove, mrmadd, remove, rmadd, rmaddrm,
}
use toolkit_contracts.TestContract.Messages.{Changed, HasOnly, IsEmpty}
use toolkit_contracts.TestContract.Batches.{erasing_ends, replacing_ends}
use toolkit_contracts.Chain.Memory.{empty_table, memory, memory_free, one_row, signed_at}

abbrev hello : List Text
hello = (b'h' ∷ []) ∷ (b'e' ∷ []) ∷ []

-- The account 7 has one row, the others none.
abbrev one_message : State memory
one_message = record {
  plans = λ k.
      if k == 7 then one_row 3 (record { id = 3; account = 7; msg = b'x' ∷ [] }) else empty_table;
}

erasing_ends_example :
    ((s' : State memory) × (remove memory (7 ∷ 8 ∷ []) one_message ≡ ok s')
      × Changed memory (IsEmpty memory) (7 ∷ 8 ∷ []) one_message s')
    × ((s' : State memory) × (mremove memory (7 ∷ 8 ∷ []) one_message ≡ ok s')
        × Changed memory (IsEmpty memory) (7 ∷ 8 ∷ []) one_message s')
    × ((s' : State memory) × (maddrm memory (signed_at 0) (7 ∷ 8 ∷ []) hello one_message ≡ ok s')
        × Changed memory (IsEmpty memory) (7 ∷ 8 ∷ []) one_message s')
    × ((s' : State memory) × (addrm memory (signed_at 0) hello 7 one_message ≡ ok s')
        × Changed memory (IsEmpty memory) (7 ∷ []) one_message s')
    × ((s' : State memory) × (rmaddrm memory (signed_at 0) 7 hello one_message ≡ ok s')
        × Changed memory (IsEmpty memory) (7 ∷ []) one_message s')
erasing_ends_example =
    erasing_ends memory memory_free (signed_at 0) hello 7 (7 ∷ 8 ∷ []) one_message
      (refl, (refl, (refl, tt)))

replacing_ends_example :
    ((s' : State memory) × (mrmadd memory (signed_at 0) (7 ∷ 8 ∷ []) hello one_message ≡ ok s')
      × Changed memory (HasOnly memory hello) (7 ∷ 8 ∷ []) one_message s')
    × ((s' : State memory) × (rmadd memory (signed_at 0) 7 hello one_message ≡ ok s')
        × Changed memory (HasOnly memory hello) (7 ∷ []) one_message s')
    × ((s' : State memory) × (addrmadd memory (signed_at 0) 7 hello one_message ≡ ok s')
        × Changed memory (HasOnly memory hello) (7 ∷ []) one_message s')
replacing_ends_example =
    replacing_ends memory memory_free (signed_at 0) hello 7 (7 ∷ 8 ∷ []) one_message
      (refl, (refl, (refl, tt)))

added :
    memory.entries ((after one_message (add memory (signed_at 0) 7 hello one_message)).plans 7)
    ≡ (3, record { id = 3; account = 7; msg = b'x' ∷ [] })
      ∷ (4, record { id = 4; account = 7; msg = b'h' ∷ [] })
      ∷ (5, record { id = 5; account = 7; msg = b'e' ∷ [] })
      ∷ []
unfolding add
added = refl

right_name : checkwithrv testcontract ≡ 0
unfolding checkwithrv
right_name = refl
