-- ===== src/TestContract/Batches.antt =====
-- flon.test: the actions end, and leave the tables empty or with the messages given.
use toolkit_contracts.Base.{
  List, Result, Text, [], if◌then◌else◌, ok, refl, ℕ, ◌==◌, ◌>>=◌, ◌∷◌, ◌≡◌,
}
use toolkit_contracts.Chain.{Chain, Context}
use toolkit_contracts.TestContract.State.{Error, Plan, State}
use toolkit_contracts.TestContract.Actions.{
  add_erase, add_rows, addrm, addrmadd, at_scope, erase_add, erase_rows, maddrm, mremove, mrmadd,
  remove, rmadd, rmaddrm,
}
use toolkit_contracts.TestContract.Erase.{erase_rows_ends}
use toolkit_contracts.TestContract.Messages.{
  AllSign, Changed, Changed-step, FreeKeys, HasOnly, IsEmpty, add_erase-Makes, add_rows-contents,
  at_signed-Changed, erase_add-Makes,
}

module _ (c : Chain) where
  pub remove-Changed :
      (accts : List ℕ) (s : State c)
      → (s' : State c) × (remove c accts s ≡ ok s') × Changed c (IsEmpty c) accts s s'
  unfolding remove at_scope
  remove-Changed [] s = (s, refl, λ k. (λ e. cc, λ e. refl))
  remove-Changed (acct ∷ accts) s =
      let one = erase_rows_ends c (s.plans acct) in
      let s1 : State c = record s { plans = λ k. if k == acct then one.0 else s.plans k } in
      let rest = remove-Changed accts s1 in
      (rest.0, rw one.1 rest.1, Changed-step c (IsEmpty c) acct accts one.0 s rest.0 one.2 rest.2)

  -- What the change of one account's table comes to.
  at_scope-Changed :
      (change : c.Table Plan → Result Error (c.Table Plan)) (P : ℕ → c.Table Plan → Type 0)
      (acct : ℕ) (s : State c)
      → (t : c.Table Plan) × (change (s.plans acct) ≡ ok t) × P acct t
      → (s' : State c) × (at_scope c acct change s ≡ ok s') × Changed c P (acct ∷ []) s s'
  unfolding at_scope
  at_scope-Changed change P acct s (t, e, p) =
      let s' : State c = record s { plans = λ k. if k == acct then t else s.plans k } in
      (s', rw e refl, Changed-step c P acct [] t s s' p (λ k. (λ e. cc, λ e. refl)))

  module _ (free : FreeKeys c) (ctx : Context) (messages : List Text) where
    -- The actions that erase the rows last end, and leave every account listed without rows, and
    -- the tables of the others alone, where each table gives free keys: `remove` and `mremove`
    -- whoever signs, and `maddrm`, `addrm` and `rmaddrm` where the accounts sign.
    pub erasing_ends :
        (acct : ℕ) (accts : List ℕ) (s : State c)
        → AllSign ctx (acct ∷ accts)
        → ((s' : State c) × (remove c accts s ≡ ok s') × Changed c (IsEmpty c) accts s s')
          × ((s' : State c) × (mremove c accts s ≡ ok s') × Changed c (IsEmpty c) accts s s')
          × ((s' : State c) × (maddrm c ctx accts messages s ≡ ok s')
              × Changed c (IsEmpty c) accts s s')
          × ((s' : State c) × (addrm c ctx messages acct s ≡ ok s')
              × Changed c (IsEmpty c) (acct ∷ []) s s')
          × ((s' : State c) × (rmaddrm c ctx acct messages s ≡ ok s')
              × Changed c (IsEmpty c) (acct ∷ []) s s')
    unfolding mremove maddrm addrm rmaddrm
    erasing_ends acct accts s (h, hs) =
        let erased = erase_add-Makes c free messages acct (s.plans acct) in
        let again = erase_rows_ends c erased.0 in
        (
          remove-Changed accts s,
          remove-Changed accts s,
          at_signed-Changed c (add_erase c messages) (IsEmpty c) (add_erase-Makes c free messages)
              ctx accts s hs,
          rw h (
              at_scope-Changed (add_erase c messages acct) (IsEmpty c) acct s
                (add_erase-Makes c free messages acct (s.plans acct))),
          rw h (
              at_scope-Changed (λ plans. erase_add c messages acct plans >>= erase_rows c)
                (IsEmpty c) acct s (again.0, rw erased.1 again.1, again.2)),
        )

    -- The actions that add the rows last end where the accounts sign and each table gives free
    -- keys, and leave every account listed with just the messages given, each as often as it is
    -- given, under its own name, and the tables of the others alone: `mrmadd`, `rmadd` and
    -- `addrmadd`.
    pub replacing_ends :
        (acct : ℕ) (accts : List ℕ) (s : State c)
        → AllSign ctx (acct ∷ accts)
        → ((s' : State c) × (mrmadd c ctx accts messages s ≡ ok s')
            × Changed c (HasOnly c messages) accts s s')
          × ((s' : State c) × (rmadd c ctx acct messages s ≡ ok s')
              × Changed c (HasOnly c messages) (acct ∷ []) s s')
          × ((s' : State c) × (addrmadd c ctx acct messages s ≡ ok s')
              × Changed c (HasOnly c messages) (acct ∷ []) s s')
    unfolding mrmadd rmadd addrmadd
    replacing_ends acct accts s (h, hs) =
        let added = add_rows-contents c free acct messages (s.plans acct) in
        let replaced = erase_add-Makes c free messages acct added.0 in
        (
          at_signed-Changed c (erase_add c messages) (HasOnly c messages)
              (erase_add-Makes c free messages) ctx accts s hs,
          rw h (
              at_scope-Changed (erase_add c messages acct) (HasOnly c messages) acct s
                (erase_add-Makes c free messages acct (s.plans acct))),
          rw h (
              at_scope-Changed
                (λ plans. add_rows c acct messages plans >>= erase_add c messages acct)
                (HasOnly c messages) acct s (replaced.0, rw added.1 replaced.1, replaced.2)),
        )
