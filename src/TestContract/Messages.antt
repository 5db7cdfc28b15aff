-- ===== src/TestContract/Messages.antt =====
-- flon.test: what the tables hold after the actions.
use mathlib.Core.Path.{subst}
use mathlib.Core.List.{Perm, perm_middle, append-nil}
use mathlib.Core.List.Perm
use toolkit_contracts.Base.{
  ==_iff, Bool, Bool-cases, List, Result, Text, [], arith, false, if◌then◌else◌, inl, inr, ltb,
  none, ok, refl, sym, true, ℕ, ◌++◌, ◌==◌, ◌||◌, ◌∙◌, ◌∷◌, ◌≡◌,
}
use toolkit_contracts.Chain.{Chain, Context, Rows, emplace-free, insert, lookup}
use toolkit_contracts.TestContract.State.{Error, Plan, State}
use toolkit_contracts.TestContract.Actions.{
  add_erase, add_rows, at_scope, at_signed, erase_add, erase_rows,
}
use toolkit_contracts.TestContract.Erase.{erase_rows_ends}

-- The account and the message of every row.
abbrev pub contents : Rows Plan → List (ℕ × Text)
contents [] = []
contents ((k, row) ∷ rows) = (row.account, row.msg) ∷ contents rows

abbrev pub signed_texts : ℕ → List Text → List (ℕ × Text)
signed_texts acct [] = []
signed_texts acct (msg ∷ messages) = (acct, msg) ∷ signed_texts acct messages

abbrev pub listed : ℕ → List ℕ → Bool
listed k [] = false
listed k (acct ∷ accts) = k == acct || listed k accts

abbrev pub AllSign : Context → List ℕ → Type 0
AllSign ctx [] = Unit {0}
AllSign ctx (acct ∷ accts) = (ctx.has_auth acct ≡ true) × AllSign ctx accts

contents-insert :
    (k : ℕ) (row : Plan) (m : Rows Plan)
    → lookup k m ≡ none
    → Perm (contents (insert k row m)) ((row.account, row.msg) ∷ contents m)
contents-insert k row [] h = Perm.refl ((row.account, row.msg) ∷ [])
contents-insert k row ((j, old) ∷ m) h = elim (Bool-cases (k == j)) [
  | inl same ↦ absurd (ground (arith, same, h))
  | inr other ↦ elim (Bool-cases (ltb k j)) [
    | inl before ↦ rw (other, before) (Perm.refl _)
    | inr behind ↦
        let free : lookup k m ≡ none = ground (arith, other, h) in
        rw (other, behind)
          (Perm.trans (Perm.cons (old.account, old.msg) (contents-insert k row m free))
            (Perm.swap (row.account, row.msg) (old.account, old.msg) (contents m)))
  ]
]

-- The documented behaviour of `available_primary_key`: no row has the key.
abbrev pub FreeKeys : Chain → Type 0
FreeKeys c = (t : c.Table Plan) → c.find t (c.available_primary_key t) ≡ none

module _ (c : Chain) where
  -- A change that always succeeds, and what it makes of any table of an account.
  abbrev pub Makes :
      (ℕ → c.Table Plan → Result Error (c.Table Plan)) → (ℕ → c.Table Plan → Type 0) → Type 0
  Makes change P =
      (acct : ℕ) (t : c.Table Plan) → (t' : c.Table Plan) × (change acct t ≡ ok t') × P acct t'

  -- The tables of the accounts listed are as `P` says, and the others stay.
  abbrev pub Changed : (ℕ → c.Table Plan → Type 0) → List ℕ → State c → State c → Type 0
  Changed P accts s s' =
      (k : ℕ)
      → (listed k accts ≡ true → P k (s'.plans k))
        × (listed k accts ≡ false → s'.plans k ≡ s.plans k)

  abbrev pub HasOnly : List Text → ℕ → c.Table Plan → Type 0
  HasOnly messages acct t = Perm (contents (c.entries t)) (signed_texts acct messages)

  abbrev pub IsEmpty : ℕ → c.Table Plan → Type 0
  IsEmpty acct t = c.entries t ≡ []

  pub Changed-step :
      (P : ℕ → c.Table Plan → Type 0) (acct : ℕ) (accts : List ℕ) (t : c.Table Plan)
      (s s' : State c)
      → P acct t
      → Changed P accts (record s { plans = λ k. if k == acct then t else s.plans k }) s'
      → Changed P (acct ∷ accts) s s'
  Changed-step P acct accts t s s' p h k = elim (Bool-cases (listed k accts)) [
    | inl later ↦ (λ e. (h k).0 later, λ e. ground (arith, later, e))
    | inr never ↦ elim (Bool-cases (k == acct)) [
      | inl here ↦
          let same = (==_iff k acct).0 here in
          let kept : s'.plans k ≡ t = (h k).1 never ∙ rw here refl in
          (λ e. rw (kept, same) p, λ e. ground (arith, here, e))
      | inr other ↦ (λ e. ground (arith, never, other, e), λ e. (h k).1 never ∙ rw other refl)
    ]
  ]

  pub at_signed-Changed :
      (change : ℕ → c.Table Plan → Result Error (c.Table Plan)) (P : ℕ → c.Table Plan → Type 0)
      → Makes change P
      → (ctx : Context) (accts : List ℕ) (s : State c) → AllSign ctx accts
      → (s' : State c) × (at_signed c ctx accts change s ≡ ok s') × Changed P accts s s'
  unfolding at_signed at_scope
  at_signed-Changed change P good ctx [] s h = (s, refl, λ k. (λ e. cc, λ e. refl))
  at_signed-Changed change P good ctx (acct ∷ accts) s (h, hs) =
      let one = good acct (s.plans acct) in
      let s1 : State c = record s { plans = λ k. if k == acct then one.0 else s.plans k } in
      let rest = at_signed-Changed change P good ctx accts s1 hs in
      (rest.0, rw (h, one.1) rest.1, Changed-step P acct accts one.0 s rest.0 one.2 rest.2)

  pub erase_rows-Makes : Makes (λ acct. erase_rows c) IsEmpty
  erase_rows-Makes acct t = erase_rows_ends c t

module _ (c : Chain) (free : FreeKeys c) where
  pub add_rows-contents :
      (acct : ℕ) (messages : List Text) (t : c.Table Plan)
      → (t' : c.Table Plan) × (add_rows c acct messages t ≡ ok t')
        × Perm (contents (c.entries t')) (signed_texts acct messages ++ contents (c.entries t))
  unfolding add_rows
  add_rows-contents acct [] t = (t, refl, Perm.refl _)
  add_rows-contents acct (msg ∷ messages) t =
      let id = c.available_primary_key t in
      let row : Plan = record { id = id; account = acct; msg = msg } in
      let t1 = c.put t id row in
      let placed = emplace-free c t id row (free t) in
      let one : Perm (contents (c.entries t1)) ((acct, msg) ∷ contents (c.entries t)) =
        rw (c.entries-put t id row)
          (contents-insert id row (c.entries t) (sym (c.find-entries t id) ∙ free t)) in
      let rest = add_rows-contents acct messages t1 in
      (
        rest.0,
        rw placed rest.1,
        Perm.trans rest.2 (
            Perm.trans (Perm.append_left (signed_texts acct messages) one)
              (perm_middle (signed_texts acct messages) (contents (c.entries t)))),
      )

  pub add_erase-Makes : (messages : List Text) → Makes c (add_erase c messages) (IsEmpty c)
  unfolding add_erase
  add_erase-Makes messages acct t =
      let added = add_rows-contents acct messages t in
      let gone = erase_rows_ends c added.0 in (gone.0, rw added.1 gone.1, gone.2)

  pub erase_add-Makes : (messages : List Text) → Makes c (erase_add c messages) (HasOnly c messages)
  unfolding erase_add
  erase_add-Makes messages acct t =
      let gone = erase_rows_ends c t in
      let added = add_rows-contents acct messages gone.0 in
      let texts = signed_texts acct messages in
      let none_left : texts ++ contents (c.entries gone.0) ≡ texts = rw gone.2 (append-nil texts) in
      (added.0, rw gone.1 added.1, subst (Perm (contents (c.entries added.0))) none_left added.2)
