-- ===== src/Split/Claims.antt =====
-- flon.split: claims pay out exactly what the wallets hold.
use toolkit_contracts.Base.{
  ==_refl, List, [], ap, arith, int_laws, none, ok, pos, refl, some, suc, zero, ℕ, ℤ, ◌+ℤ◌, ◌∙◌,
  ◌∷◌, ◌≡◌, ◌≤ℤ◌,
}
use toolkit_contracts.Chain.{Chain, Rows, find-erase, sent_value, total-erase}
use toolkit_contracts.Split.State.{Balance, State, Wallet, set_wallets}
use toolkit_contracts.Split.Actions.{claim, claimall, empty_loop, pay_balance, pay_balances}
use toolkit_contracts.Split.Conserve.{balances_value, entry_value, handed_out, wallet_value}

-- What `_add_wallet` keeps true of a wallet: each entry is filed under its own symbol, and is not
-- negative.
abbrev pub AreSound : List Balance → Type 0
AreSound [] = Unit {0}
AreSound (b ∷ bs) = (b.quantity.symbol ≡ b.symbol) × (pos 0 ≤ℤ b.quantity.amount) × AreSound bs

abbrev pub RowsAreSound : Rows Wallet → Type 0
RowsAreSound [] = Unit {0}
RowsAreSound ((k, w) ∷ rows) = AreSound w.balances × RowsAreSound rows

abbrev pub drop {ℓ} : {A : Type ℓ} → ℕ → List A → List A
drop zero xs = xs
drop (suc n) [] = []
drop (suc n) (x ∷ xs) = drop n xs

module _ (bank symbol : ℕ) (c : Chain) where
  abbrev sent_of : State c → ℤ
  sent_of s = sent_value bank symbol s.sent

  pay_balance-value :
      (owner : ℕ) (b : Balance) (s : State c)
      → b.quantity.symbol ≡ b.symbol
      → pos 0 ≤ℤ b.quantity.amount
      → (sent_of (pay_balance c owner b s) ≡ entry_value bank symbol b +ℤ sent_of s)
        × ((pay_balance c owner b s).wallets ≡ s.wallets)
  unfolding pay_balance
  pay_balance-value owner b s e h = grind int_laws

  pay_balances-value :
      (owner : ℕ) (bs : List Balance) (s : State c)
      → AreSound bs
      → (sent_of (pay_balances c owner bs s) ≡ sent_of s +ℤ balances_value bank symbol bs)
        × ((pay_balances c owner bs s).wallets ≡ s.wallets)
  unfolding pay_balances
  pay_balances-value owner [] s h = (omega int_laws, refl)
  pay_balances-value owner (b ∷ bs) s h =
      let one = pay_balance-value owner b s h.0 h.1 in
      let more = pay_balances-value owner bs (pay_balance c owner b s) h.2 in
      (grind int_laws, more.1 ∙ one.1)

  -- One wallet is paid and erased.
  pay_wallet-value :
      (plan k : ℕ) (w : Wallet) (s : State c)
      → c.find (s.wallets plan) k ≡ some w
      → AreSound w.balances
      → let s₁ = pay_balances c w.owner w.balances s in
        let s' = set_wallets c s₁ plan (c.erase (s₁.wallets plan) k) in
        (handed_out bank symbol c plan s' ≡ handed_out bank symbol c plan s)
        × (s'.wallets plan ≡ c.erase (s.wallets plan) k)
  pay_wallet-value plan k w s found sound =
      let paid = pay_balances-value w.owner w.balances s sound in
      let gone = total-erase c (s.wallets plan) (wallet_value bank symbol) k w found in
      rw (==_refl plan, paid.1) (grind int_laws, refl)

  -- A successful claim of a sound wallet: of every token, what has left the contract and what waits
  -- in the plan's wallets stay the same together, and the wallet is gone.
  pub claim_conserves :
      (plan owner : ℕ) (w : Wallet) (s s' : State c)
      → c.find (s.wallets plan) owner ≡ some w
      → AreSound w.balances
      → claim c plan owner s ≡ ok s'
      → (handed_out bank symbol c plan s' ≡ handed_out bank symbol c plan s)
        × (c.find (s'.wallets plan) owner ≡ none)
  unfolding claim
  claim_conserves plan owner w s s' found sound e =
      let once = pay_wallet-value plan owner w s found sound in
      let gone = find-erase c (s.wallets plan) owner owner in ground (arith, once, gone, found)

  erase_head :
      (t : c.Table Wallet) (k : ℕ) (w : Wallet) (rows : Rows Wallet)
      → c.entries t ≡ (k, w) ∷ rows
      → c.entries (c.erase t k) ≡ rows
  erase_head t k w rows e = rw (c.entries-erase t k, e, ==_refl k)

  empty_loop-value :
      (plan left : ℕ) (rows : Rows Wallet) (s : State c)
      → RowsAreSound rows
      → c.entries (s.wallets plan) ≡ rows
      → let s' = empty_loop c plan left rows s in
        (handed_out bank symbol c plan s' ≡ handed_out bank symbol c plan s)
        × (c.entries (s'.wallets plan) ≡ drop left rows)
  unfolding empty_loop
  empty_loop-value plan zero rows s h e = (refl, e)
  empty_loop-value plan (suc left) [] s h e = (refl, e)
  empty_loop-value plan (suc left) ((k, w) ∷ rows) s h e =
      let head : c.find (s.wallets plan) k ≡ some w =
        rw (c.find-entries (s.wallets plan) k, e, ==_refl k) in
      let once = pay_wallet-value plan k w s head h.0 in
      let rest = ap c.entries once.1 ∙ erase_head (s.wallets plan) k w rows e in
      let more = empty_loop-value plan left rows _ h.1 rest in (more.0 ∙ once.0, more.1)

  -- Where the wallets of a plan are sound, a successful `claimall` erases the first twenty of them,
  -- in the order of their owners, and leaves the others for the next call; of every token, what has
  -- left the contract and what waits in the plan's wallets stay the same together.
  pub claimall_conserves :
      (plan : ℕ) (s s' : State c)
      → RowsAreSound (c.entries (s.wallets plan))
      → claimall c plan s ≡ ok s'
      → (handed_out bank symbol c plan s' ≡ handed_out bank symbol c plan s)
        × (c.entries (s'.wallets plan) ≡ drop 20 (c.entries (s.wallets plan)))
  unfolding claimall
  claimall_conserves plan s s' sound e =
      ground (arith, empty_loop-value plan 20 (c.entries (s.wallets plan)) s sound refl)
