-- ===== src/Chain/RowList.antt =====
-- The rows of a table, as a list in the order of their primary keys.
use toolkit_contracts.Base.{
  List, Option, [], arith, if◌then◌else◌, int_laws, ltb, none, pos, refl, some, ℕ, ℤ, ◌+ℤ◌, ◌<◌,
  ◌==◌, ◌∷◌, ◌≡◌, ◌≤ℤ◌, ◌≤◌,
}

abbrev pub Rows : Type 0 → Type 0
Rows A = List (ℕ × A)

module _ {A : Type 0} where
  abbrev pub lookup : ℕ → Rows A → Option A
  lookup k [] = none
  lookup k ((j, v) ∷ m) = if k == j then some v else lookup k m

  abbrev pub insert : ℕ → A → Rows A → Rows A
  insert k v [] = (k, v) ∷ []
  insert k v ((j, w) ∷ m) =
      if k == j then (k, v) ∷ m else if ltb k j then (k, v) ∷ (j, w) ∷ m else (j, w) ∷ insert k v m

  abbrev pub remove : ℕ → Rows A → Rows A
  remove k [] = []
  remove k ((j, w) ∷ m) = if k == j then m else (j, w) ∷ remove k m

  -- The keys rise along the list, from above `n`.
  abbrev pub Above : ℕ → Rows A → Type 0
  Above n [] = Unit {0}
  Above n ((j, w) ∷ m) = (n < j) × Above j m

  abbrev pub IsSorted : Rows A → Type 0
  IsSorted [] = Unit {0}
  IsSorted ((j, w) ∷ m) = Above j m

  pub lookup-Above : (n k : ℕ) (m : Rows A) → Above n m → k ≤ n → lookup k m ≡ none
  lookup-Above n k [] h le = refl
  lookup-Above n k ((j, w) ∷ m) h le = ground (arith, lookup-Above j k m h.1)

  pub Above-IsSorted : (n : ℕ) (m : Rows A) → Above n m → IsSorted m
  Above-IsSorted n [] h = tt
  Above-IsSorted n ((j, w) ∷ m) h = h.1

  pub lookup-insert :
      (k : ℕ) (v : A) (j : ℕ) (m : Rows A)
      → lookup j (insert k v m) ≡ (if k == j then some v else lookup j m)
  lookup-insert k v j [] = ground arith
  lookup-insert k v j ((i, w) ∷ m) = ground (arith, lookup-insert k v j m)

  pub lookup-remove :
      (k j : ℕ) (m : Rows A)
      → IsSorted m
      → lookup j (remove k m) ≡ (if k == j then none else lookup j m)
  lookup-remove k j [] h = ground arith
  lookup-remove k j ((i, w) ∷ m) h =
      ground (arith, lookup-remove k j m (Above-IsSorted i m h), lookup-Above i j m h)

  -- What the rows weigh together.
  abbrev pub sum : (A → ℤ) → Rows A → ℤ
  sum w [] = pos 0
  sum w ((j, v) ∷ m) = w v +ℤ sum w m

  pub sum-insert_new :
      (w : A → ℤ) (k : ℕ) (v : A) (m : Rows A)
      → lookup k m ≡ none
      → sum w (insert k v m) ≡ sum w m +ℤ w v
  sum-insert_new w k v [] h = omega int_laws
  sum-insert_new w k v ((j, u) ∷ m) h = grind (int_laws, sum-insert_new w k v m)

  pub sum-insert :
      (w : A → ℤ) (k : ℕ) (v old : A) (m : Rows A)
      → IsSorted m
      → lookup k m ≡ some old
      → sum w (insert k v m) +ℤ w old ≡ sum w m +ℤ w v
  sum-insert w k v old [] h e = cc
  sum-insert w k v old ((j, u) ∷ m) h e =
      grind (int_laws, sum-insert w k v old m (Above-IsSorted j m h), lookup-Above j k m h)

  pub sum-remove :
      (w : A → ℤ) (k : ℕ) (old : A) (m : Rows A)
      → lookup k m ≡ some old
      → sum w (remove k m) +ℤ w old ≡ sum w m
  sum-remove w k old [] e = cc
  sum-remove w k old ((j, u) ∷ m) e = grind (int_laws, sum-remove w k old m)

  lookup-tail :
      (k j : ℕ) (u v : A) (m : Rows A)
      → Above j m
      → lookup k m ≡ some v
      → lookup k ((j, u) ∷ m) ≡ some v
  lookup-tail k j u v m h e = ground (arith, e, lookup-Above j k m h)

  pub sum_nonneg :
      (w : A → ℤ) (m : Rows A)
      → IsSorted m
      → ((k : ℕ) (v : A) → lookup k m ≡ some v → pos 0 ≤ℤ w v)
      → pos 0 ≤ℤ sum w m
  sum_nonneg w [] h p = omega arith
  sum_nonneg w ((j, u) ∷ m) h p =
      let here = p j u (ground arith) in
      let rest =
        sum_nonneg w m (Above-IsSorted j m h) (λ k v e. p k v (lookup-tail k j u v m h e)) in
      omega (int_laws, here, rest)

  -- The two sorted-list facts that an instance of the tables needs.
  Above-insert : (n k : ℕ) (v : A) (m : Rows A) → n < k → Above n m → Above n (insert k v m)
  Above-insert n k v [] lt h = ground arith
  Above-insert n k v ((j, w) ∷ m) lt h = ground (arith, Above-insert j k v m)

  pub IsSorted-insert : (k : ℕ) (v : A) (m : Rows A) → IsSorted m → IsSorted (insert k v m)
  IsSorted-insert k v [] h = tt
  IsSorted-insert k v ((j, w) ∷ m) h = ground (arith, Above-insert j k v m)

  Above-weaken : (n k : ℕ) (m : Rows A) → n ≤ k → Above k m → Above n m
  Above-weaken n k [] le h = tt
  Above-weaken n k ((j, w) ∷ m) le h = ground arith

  Above-remove : (n k : ℕ) (m : Rows A) → Above n m → Above n (remove k m)
  Above-remove n k [] h = tt
  Above-remove n k ((j, w) ∷ m) h = ground (arith, Above-remove j k m h.1, Above-weaken n j m)

  pub IsSorted-remove : (k : ℕ) (m : Rows A) → IsSorted m → IsSorted (remove k m)
  IsSorted-remove k [] h = tt
  IsSorted-remove k ((j, w) ∷ m) h = ground (arith, Above-remove j k m h, Above-IsSorted j m h)
