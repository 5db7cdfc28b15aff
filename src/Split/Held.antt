-- ===== src/Split/Held.antt =====
-- flon.split: what the wallets of all plans hold together.
use toolkit_contracts.Base.{
  ==_iff, Bool-cases, List, OnOk, Option-cases, [], arith, inl, inr, int_laws, ltb_ℤ, parts_of_eq,
  pos, refl, suc, sym, zero, ℕ, ℤ, ◌+ℤ◌, ◌<◌, ◌==◌, ◌∙◌, ◌∷◌, ◌≡◌, ◌≤ℤ◌, ◌≤◌,
}
use toolkit_contracts.Chain.{Chain, Rows, total, total_nonneg}
use toolkit_contracts.Split.State.{Balance, State, Wallet, set_wallets}
use toolkit_contracts.Split.Actions.{claim, claimall, empty_loop, pay_balance, pay_balances}
use toolkit_contracts.Split.Conserve.{balances_value, wallet_value}
use toolkit_contracts.Split.Claims.{AreSound, RowsAreSound}
use toolkit_contracts.Split.Sound.{
  AllSound, Frame, Frame-trans, Keeps, RowsAreSound-lookup, RowsAreSound-remove, set_wallets-Keeps,
}

module _ (c : Chain) where
  pay_balances-Frame :
      (plan owner : ℕ) (bs : List Balance) (s : State c)
      → Frame c plan s (pay_balances c owner bs s)
        × ((pay_balances c owner bs s).wallets ≡ s.wallets)
  unfolding pay_balances pay_balance
  pay_balances-Frame plan owner [] s = ((refl, refl, λ k e. refl), refl)
  pay_balances-Frame plan owner (b ∷ bs) s =
      let s₁ = pay_balance c owner b s in
      let rest = pay_balances-Frame plan owner bs s₁ in
      elim (Bool-cases (ltb_ℤ (pos 0) b.quantity.amount)) [
        | inl paid ↦ ground (arith, paid, rest)
        | inr empty ↦ ground (arith, empty, rest)
      ]

  -- One wallet is paid and erased.
  pay_wallet-Keeps :
      (plan k : ℕ) (w : Wallet) (s : State c)
      → AllSound c s
      → let s₁ = pay_balances c w.owner w.balances s in
        Keeps c plan s (set_wallets c s₁ plan (c.erase (s₁.wallets plan) k))
  pay_wallet-Keeps plan k w s h =
      let s₁ = pay_balances c w.owner w.balances s in
      let (f, same) = pay_balances-Frame plan w.owner w.balances s in
      let h₁ : AllSound c s₁ = λ p. rw same (h p) in
      let t = s₁.wallets plan in
      let erased : RowsAreSound (c.entries (c.erase t k)) =
        rw (c.entries-erase t k) (RowsAreSound-remove k (c.entries t) (h₁ plan)) in
      let done = set_wallets-Keeps c s₁ plan (c.erase t k) h₁ erased in
      (done.0, Frame-trans c plan s s₁ (set_wallets c s₁ plan (c.erase t k)) f done.1)

  pub claim-Keeps :
      (plan owner : ℕ) (s : State c) → AllSound c s → OnOk (Keeps c plan s) (claim c plan owner s)
  unfolding claim
  claim-Keeps plan owner s h = elim (Option-cases (c.find (s.wallets plan) owner)) [
    | inl missing ↦ ground (arith, missing)
    | inr (w, fw) ↦ ground (arith, fw, pay_wallet-Keeps plan owner w s h)
  ]

  empty_loop-Keeps :
      (plan left : ℕ) (rows : Rows Wallet) (s : State c)
      → AllSound c s
      → Keeps c plan s (empty_loop c plan left rows s)
  unfolding empty_loop
  empty_loop-Keeps plan zero rows s h = (h, (refl, refl, λ k e. refl))
  empty_loop-Keeps plan (suc left) [] s h = (h, (refl, refl, λ k e. refl))
  empty_loop-Keeps plan (suc left) ((k, w) ∷ rows) s h =
      let s₁ = pay_balances c w.owner w.balances s in
      let s₂ = set_wallets c s₁ plan (c.erase (s₁.wallets plan) k) in
      let one = pay_wallet-Keeps plan k w s h in
      let rest = empty_loop-Keeps plan left rows s₂ one.0 in
      (rest.0, Frame-trans c plan s s₂ (empty_loop c plan left rows s₂) one.1 rest.1)

  pub claimall-Keeps :
      (plan : ℕ) (s : State c) → AllSound c s → OnOk (Keeps c plan s) (claimall c plan s)
  unfolding claimall
  claimall-Keeps plan s h =
      ground (arith, empty_loop-Keeps plan 20 (c.entries (s.wallets plan)) s h)

  module _ (bank symbol : ℕ) where
    abbrev pub held_by : ℕ → State c → ℤ
    held_by plan s = total c (wallet_value bank symbol) (s.wallets plan)

    -- What the wallets of the plans below a number hold of one token.
    unfoldable pub held : ℕ → State c → ℤ
    held zero s = pos 0
    held (suc n) s = held_by n s +ℤ held n s

    held-above : (n plan : ℕ) (s s' : State c) → n ≤ plan → Frame c plan s s' → held n s' ≡ held n s
    unfolding held
    held-above zero plan s s' h f = refl
    held-above (suc n) plan s s' h f =
        let same : s'.wallets n ≡ s.wallets n = f.2 n (ground (arith, h)) in
        rw (same, held-above n plan s s' (omega arith) f) refl

    pub held-same :
        (n : ℕ) (s s' : State c) → ((k : ℕ) → s'.wallets k ≡ s.wallets k) → held n s' ≡ held n s
    unfolding held
    held-same zero s s' h = refl
    held-same (suc n) s s' h = rw (h n, held-same n s s' h) refl

    pub held-Frame :
        (n plan : ℕ) (s s' : State c)
        → plan < n
        → Frame c plan s s'
        → held n s' +ℤ held_by plan s ≡ held n s +ℤ held_by plan s'
    unfolding held
    held-Frame zero plan s s' h f = absurd (omega arith)
    held-Frame (suc n) plan s s' h f = elim (Bool-cases (n == plan)) [
      | inl here ↦
          let same = (==_iff n plan).0 here in
          rw (same, held-above plan plan s s' (omega arith) f) (omega int_laws)
      | inr other ↦
          let kept : s'.wallets n ≡ s.wallets n = f.2 n other in
          let below = held-Frame n plan s s' (ground (arith, h, other)) f in
          rw kept (omega (int_laws, parts_of_eq below))
    ]

    balances_nonneg : (bs : List Balance) → AreSound bs → pos 0 ≤ℤ balances_value bank symbol bs
    balances_nonneg [] r = omega arith
    balances_nonneg (b ∷ bs) r = grind (int_laws, balances_nonneg bs r.2)

    pub held_nonneg : (n : ℕ) (s : State c) → AllSound c s → pos 0 ≤ℤ held n s
    unfolding held
    held_nonneg zero s h = omega arith
    held_nonneg (suc n) s h =
        let one = total_nonneg c (s.wallets n) (wallet_value bank symbol) (λ k w e.
          balances_nonneg w.balances (
            RowsAreSound-lookup k (c.entries (s.wallets n)) w (h n)
              (sym (c.find-entries (s.wallets n) k) ∙ e))) in
        omega (int_laws, one, held_nonneg n s h)
