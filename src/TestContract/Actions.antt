-- ===== src/TestContract/Actions.antt =====
-- flon.test: the actions (src/testcontract.cpp). Printed text is left out.
use toolkit_contracts.Base.{
  List, Option, Result, Text, [], check, if◌then◌else◌, length, none, ok, or_abort, some, suc, zero,
  ℕ, ◌==◌, ◌>>=◌, ◌>>◌, ◌∷◌,
}
use toolkit_contracts.Chain.{Chain, Context, emplace}
use toolkit_contracts.TestContract.State.{
  Error, Plan, State, platform, record_not_found, testcontract, unauthorized, wrong_name,
}

-- `check`
unfoldable pub check_name : ℕ → Result Error (Unit {0})
check_name nm = check (nm == testcontract) wrong_name

-- `checkwithrv`: the number of the answer, zero where the name is right.
unfoldable pub checkwithrv : ℕ → ℕ
checkwithrv nm = if nm == testcontract then 0 else 1

module _ (c : Chain) where
  -- The loop that adds a row for each message.
  unfoldable pub add_rows : ℕ → List Text → c.Table Plan → Result Error (c.Table Plan)
  unfolding emplace
  add_rows acct [] plans = ok plans
  add_rows acct (msg ∷ messages) plans = do
    let id = c.available_primary_key plans
    plans' ← or_abort (emplace c plans id (record { id = id; account = acct; msg = msg })) platform
    add_rows acct messages plans'

  -- The loop that erases from the first row to the end, on fuel; `none` means that it ran out.
  unfoldable pub erase_loop : ℕ → c.Table Plan → Option (c.Table Plan)
  erase_loop zero plans = none
  erase_loop (suc fuel) plans = elim (c.entries plans) [
    | [] ↦ some plans
    | (k, row) ∷ rows ↦ erase_loop fuel (c.erase plans k)
  ]

  -- A round for each row, and one that finds the end.
  unfoldable pub erase_rows : c.Table Plan → Result Error (c.Table Plan)
  unfolding erase_loop
  erase_rows plans = or_abort (erase_loop (suc (length (c.entries plans))) plans) platform

  -- A change of the table of one account.
  unfoldable pub at_scope :
      ℕ → (c.Table Plan → Result Error (c.Table Plan)) → State c → Result Error (State c)
  at_scope acct change s = do
    plans ← change (s.plans acct)
    ok (record s { plans = λ k. if k == acct then plans else s.plans k })

  -- The same for each account of a list, which has to sign.
  unfoldable pub at_signed :
      Context
      → List ℕ
      → (ℕ → c.Table Plan → Result Error (c.Table Plan))
      → State c
      → Result Error (State c)
  unfolding at_scope
  at_signed ctx [] change s = ok s
  at_signed ctx (acct ∷ accts) change s = do
    check (ctx.has_auth acct) unauthorized
    s' ← at_scope acct (change acct) s
    at_signed ctx accts change s'

  unfoldable pub add : Context → ℕ → List Text → State c → Result Error (State c)
  unfolding add_rows at_scope
  add ctx acct messages s = do
    check (ctx.has_auth acct) unauthorized
    at_scope acct (add_rows acct messages) s

  -- No signature is asked for.
  unfoldable pub remove : List ℕ → State c → Result Error (State c)
  unfolding erase_rows at_scope
  remove [] s = ok s
  remove (acct ∷ accts) s = do s' ← at_scope acct erase_rows s; remove accts s'

  unfoldable pub update : Context → ℕ → ℕ → Text → State c → Result Error (State c)
  unfolding at_scope
  update ctx acct id msg s = do
    check (ctx.has_auth acct) unauthorized
    item ← or_abort (c.find (s.plans acct) id) record_not_found
    at_scope acct (λ plans. ok (c.put plans id (record item { msg = msg }))) s

  -- The bodies of the actions that add and erase.
  unfoldable pub add_erase : List Text → ℕ → c.Table Plan → Result Error (c.Table Plan)
  unfolding add_rows erase_rows
  add_erase messages acct plans = do plans' ← add_rows acct messages plans; erase_rows plans'

  unfoldable pub erase_add : List Text → ℕ → c.Table Plan → Result Error (c.Table Plan)
  unfolding add_rows erase_rows
  erase_add messages acct plans = do plans' ← erase_rows plans; add_rows acct messages plans'

  unfoldable pub addrm : Context → List Text → ℕ → State c → Result Error (State c)
  unfolding add_erase at_scope
  addrm ctx messages acct s = do
    check (ctx.has_auth acct) unauthorized
    at_scope acct (add_erase messages acct) s

  unfoldable pub rmadd : Context → ℕ → List Text → State c → Result Error (State c)
  unfolding erase_add at_scope
  rmadd ctx acct messages s = do
    check (ctx.has_auth acct) unauthorized
    at_scope acct (erase_add messages acct) s

  unfoldable pub rmaddrm : Context → ℕ → List Text → State c → Result Error (State c)
  unfolding erase_add erase_rows at_scope
  rmaddrm ctx acct messages s = do
    check (ctx.has_auth acct) unauthorized
    at_scope acct (λ plans. erase_add messages acct plans >>= erase_rows) s

  unfoldable pub addrmadd : Context → ℕ → List Text → State c → Result Error (State c)
  unfolding add_rows erase_add at_scope
  addrmadd ctx acct messages s = do
    check (ctx.has_auth acct) unauthorized
    at_scope acct (λ plans. add_rows acct messages plans >>= erase_add messages acct) s

  unfoldable pub madd : Context → List ℕ → List Text → State c → Result Error (State c)
  unfolding add_rows at_signed
  madd ctx accts messages s = at_signed ctx accts (λ acct. add_rows acct messages) s

  unfoldable pub mremove : List ℕ → State c → Result Error (State c)
  unfolding remove
  mremove accts s = remove accts s

  unfoldable pub maddrm : Context → List ℕ → List Text → State c → Result Error (State c)
  unfolding add_erase at_signed
  maddrm ctx accts messages s = at_signed ctx accts (add_erase messages) s

  unfoldable pub mrmadd : Context → List ℕ → List Text → State c → Result Error (State c)
  unfolding erase_add at_signed
  mrmadd ctx accts messages s = at_signed ctx accts (erase_add messages) s
