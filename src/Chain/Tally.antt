-- ===== src/Chain/Tally.antt =====
-- What the rows of a list count together, in natural numbers.
use toolkit_contracts.Base.{[], arith, length, none, refl, some, ℕ, ◌+◌, ◌∷◌, ◌≡◌}
use toolkit_contracts.Chain.RowList.{
  Above-IsSorted, IsSorted, Rows, insert, lookup, lookup-Above, remove,
}

module _ {A : Type 0} (w : A → ℕ) where
  abbrev pub tally : Rows A → ℕ
  tally [] = 0
  tally ((k, a) ∷ m) = w a + tally m

  pub tally-insert_new :
      (k : ℕ) (a : A) (m : Rows A) → lookup k m ≡ none → tally (insert k a m) ≡ tally m + w a
  tally-insert_new k a [] h = ground arith
  tally-insert_new k a ((j, b) ∷ m) h = ground (arith, tally-insert_new k a m)

  pub tally-insert :
      (k : ℕ) (a old : A) (m : Rows A)
      → IsSorted m
      → lookup k m ≡ some old
      → tally (insert k a m) + w old ≡ tally m + w a
  tally-insert k a old [] s h = ground arith
  tally-insert k a old ((j, b) ∷ m) s h =
      ground (arith, tally-insert k a old m (Above-IsSorted j m s), lookup-Above j k m s)

  pub tally-remove :
      (k : ℕ) (old : A) (m : Rows A) → lookup k m ≡ some old → tally (remove k m) + w old ≡ tally m
  tally-remove k old [] h = ground arith
  tally-remove k old ((j, b) ∷ m) h = ground (arith, tally-remove k old m)

-- The count of the rows.
pub tally-length : {A : Type 0} (m : Rows A) → tally (λ (a : A). 1) m ≡ length m
tally-length [] = refl
tally-length ((k, a) ∷ m) = omega (arith, tally-length m)
