-- ===== src/Chain/Totals.antt =====
-- Consequences of the laws of a table: lookups and weighted totals after an update.
use toolkit_contracts.Base.{
  List, [], arith, if◌then◌else◌, none, pos, refl, some, sym, ℕ, ℤ, ◌&&◌, ◌+ℤ◌, ◌-ℤ◌, ◌==◌, ◌∙◌,
  ◌∷◌, ◌≡◌, ◌≤ℤ◌,
}
use toolkit_contracts.Chain.RowList.{
  lookup-insert, lookup-remove, sum, sum-insert, sum-insert_new, sum-remove, sum_nonneg,
}
use toolkit_contracts.Chain.Defs.{Asset, Chain, Transfer, emplace}

-- What the rows of a table weigh together.
pub total : {A : Type 0} (c : Chain) → (A → ℤ) → c.Table A → ℤ
total c w t = sum w (c.entries t)

pub total_lem :
    {A : Type 0} (c : Chain) (w : A → ℤ) (t : c.Table A) → total c w t ≡ sum w (c.entries t)
unfolding total
total_lem c w t = refl

module _ {A : Type 0} (c : Chain) (t : c.Table A) where
  pub find-put :
      (k : ℕ) (v : A) (j : ℕ) → c.find (c.put t k v) j ≡ (if k == j then some v else c.find t j)
  find-put k v j =
      rw (c.find-entries (c.put t k v) j, c.entries-put t k v, c.find-entries t j)
        (lookup-insert k v j (c.entries t))

  pub find-erase : (k j : ℕ) → c.find (c.erase t k) j ≡ (if k == j then none else c.find t j)
  find-erase k j =
      rw (c.find-entries (c.erase t k) j, c.entries-erase t k, c.find-entries t j)
        (lookup-remove k j (c.entries t) (c.entries-IsSorted t))

  module _ (w : A → ℤ) where
    pub total-put_new :
        (k : ℕ) (v : A) → c.find t k ≡ none → total c w (c.put t k v) ≡ total c w t +ℤ w v
    unfolding total
    total-put_new k v h =
        rw (c.entries-put t k v) (sum-insert_new w k v (c.entries t) (sym (c.find-entries t k) ∙ h))

    pub total-put :
        (k : ℕ) (v old : A)
        → c.find t k ≡ some old
        → total c w (c.put t k v) +ℤ w old ≡ total c w t +ℤ w v
    unfolding total
    total-put k v old h =
        rw (c.entries-put t k v)
          (sum-insert w k v old (c.entries t) (c.entries-IsSorted t) (sym (c.find-entries t k) ∙ h))

    pub total-erase :
        (k : ℕ) (old : A) → c.find t k ≡ some old → total c w (c.erase t k) +ℤ w old ≡ total c w t
    unfolding total
    total-erase k old h =
        rw (c.entries-erase t k) (sum-remove w k old (c.entries t) (sym (c.find-entries t k) ∙ h))

    pub total_nonneg : ((k : ℕ) (v : A) → c.find t k ≡ some v → pos 0 ≤ℤ w v) → pos 0 ≤ℤ total c w t
    unfolding total
    total_nonneg h =
        sum_nonneg w (c.entries t) (c.entries-IsSorted t) (λ k v e. h k v (c.find-entries t k ∙ e))

pub add_asset-eq-some :
    (c : Chain) (a b d : Asset)
    → c.add_asset a b ≡ some d
    → (d.amount ≡ a.amount +ℤ b.amount) × (d.symbol ≡ a.symbol) × (a.symbol ≡ b.symbol)
add_asset-eq-some c a b d e = ground (arith, c.add_asset_lem a b)

pub sub_asset-eq-some :
    (c : Chain) (a b d : Asset)
    → c.sub_asset a b ≡ some d
    → (d.amount ≡ a.amount -ℤ b.amount) × (d.symbol ≡ a.symbol) × (a.symbol ≡ b.symbol)
sub_asset-eq-some c a b d e = ground (arith, c.sub_asset_lem a b)

pub make_asset-eq-some :
    (c : Chain) (n : ℤ) (raw : ℕ) (d : Asset)
    → c.make_asset n raw ≡ some d
    → d ≡ record { amount = n; symbol = raw }
make_asset-eq-some c n raw d e = ground (arith, c.make_asset_lem n raw)

-- What an amount counts for one token, given by its contract and symbol.
abbrev pub weigh : ℕ → ℕ → ℕ → Asset → ℤ
weigh bank symbol contract q = if contract == bank && q.symbol == symbol then q.amount else pos 0

-- What has been sent of one token.
abbrev pub sent_value : ℕ → ℕ → List Transfer → ℤ
sent_value bank symbol [] = pos 0
sent_value bank symbol (t ∷ ts) = weigh bank symbol t.bank t.quantity +ℤ sent_value bank symbol ts

pub emplace-free :
    {A : Type 0} (c : Chain) (t : c.Table A) (k : ℕ) (v : A)
    → c.find t k ≡ none
    → emplace c t k v ≡ some (c.put t k v)
unfolding emplace
emplace-free c t k v h = rw h refl
