-- ===== src/Chain/Memory.antt =====
-- An instance of the interface, on which the examples run: a table is its sorted rows.
use toolkit_contracts.Base.{
  Text, [], arith, if◌then◌else◌, none, pos, refl, some, true, ℕ, ◌&&◌, ◌*ℤ◌, ◌*◌, ◌+ℤ◌, ◌+◌, ◌-ℤ◌,
  ◌/ℤ◌, ◌<◌, ◌==◌, ◌∷◌, ◌≡◌,
}
use toolkit_contracts.Chain.RowList.{
  Above, Above-IsSorted, IsSorted, IsSorted-insert, IsSorted-remove, Rows, insert, lookup, remove,
}
use toolkit_contracts.Chain.Defs.{Chain, Context, is_amount_within_range}

abbrev Sorted : Type 0 → Type 0
Sorted A = (m : Rows A) × IsSorted m

abbrev next_key : {A : Type 0} → ℕ → Rows A → ℕ
next_key n [] = n
next_key n ((j, v) ∷ m) = next_key (j + 1) m

next_key-Above : {A : Type 0} (j : ℕ) (m : Rows A) → Above j m → j < next_key (j + 1) m
next_key-Above j [] h = omega arith
next_key-Above j ((i, v) ∷ m) h = omega (arith, h.0, next_key-Above i m h.1)

-- The next key is not taken.
next_key-free : {A : Type 0} (n : ℕ) (m : Rows A) → IsSorted m → lookup (next_key n m) m ≡ none
next_key-free n [] h = refl
next_key-free n ((j, v) ∷ m) h =
    ground (arith, next_key-Above j m h, next_key-free (j + 1) m (Above-IsSorted j m h))

-- Every text is a name here: the number of its bytes in base 256.
abbrev pub text_number : Text → ℕ
text_number [] = 0
text_number (x ∷ s) = x + 256 * text_number s

abbrev pub memory : Chain
memory = record {
  Table = Sorted;
  entries = λ t. t.0;
  find = λ t k. lookup k t.0;
  put = λ t k v. (insert k v t.0, IsSorted-insert k v t.0 t.1);
  erase = λ t k. (remove k t.0, IsSorted-remove k t.0 t.1);
  available_primary_key = λ t. next_key 0 t.0;
  entries-IsSorted = λ t. t.1;
  find-entries = λ t k. refl;
  entries-put = λ t k v. refl;
  entries-erase = λ t k. refl;
  symbol_is_valid = λ s. true;
  make_asset = λ n s.
      if is_amount_within_range n && true then some (record { amount = n; symbol = s }) else none;
  add_asset = λ a b.
      if a.symbol == b.symbol && is_amount_within_range (a.amount +ℤ b.amount)
      then some (record a { amount = a.amount +ℤ b.amount })
      else none;
  sub_asset = λ a b.
      if a.symbol == b.symbol && is_amount_within_range (a.amount -ℤ b.amount)
      then some (record a { amount = a.amount -ℤ b.amount })
      else none;
  make_asset_lem = λ n s. refl;
  add_asset_lem = λ a b. refl;
  sub_asset_lem = λ a b. refl;
  div_asset = λ a n. if n == 0 then none else some (record a { amount = a.amount /ℤ pos n });
  mul_asset = λ n a.
      if is_amount_within_range (pos n *ℤ a.amount)
      then some (record a { amount = pos n *ℤ a.amount })
      else none;
  div_asset_lem = λ a n. refl;
  mul_asset_lem = λ n a. refl;
  name_of = λ s. some (text_number s);
}

abbrev pub empty_table : {A : Type 0} → memory.Table A
empty_table = ([], tt)

-- An account 1 whose action at a time is signed by all, notified by the token contract 2.
abbrev pub signed_at : ℕ → Context
signed_at now = record {
  self = 1;
  first_receiver = 2;
  now = now;
  has_auth = λ a. true;
  is_account = λ a. true;
}

abbrev pub one_row : {A : Type 0} → ℕ → A → memory.Table A
one_row k v = memory.put empty_table k v

pub memory_free :
    {A : Type 0} (t : memory.Table A) → memory.find t (memory.available_primary_key t) ≡ none
memory_free t = next_key-free 0 t.0 t.1
