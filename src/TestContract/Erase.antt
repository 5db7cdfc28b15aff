-- ===== src/TestContract/Erase.antt =====
-- flon.test: the loop that erases all rows ends.
use toolkit_contracts.Base.{
  List-cases, [], ap, arith, inl, inr, length, ok, some, suc, zero, ℕ, ◌<◌, ◌∙◌, ◌≡◌,
}
use toolkit_contracts.Chain.{Chain}
use toolkit_contracts.TestContract.State.{Plan}
use toolkit_contracts.TestContract.Actions.{erase_loop, erase_rows}

module _ (c : Chain) where
  erase_loop_ends :
      (n : ℕ) (t : c.Table Plan)
      → length (c.entries t) < n
      → (t' : c.Table Plan) × (erase_loop c n t ≡ some t') × (c.entries t' ≡ [])
  unfolding erase_loop
  erase_loop_ends zero t h = absurd (omega arith)
  erase_loop_ends (suc n) t h = elim (List-cases (c.entries t)) [
    | inl e ↦ (t, rw (e, erase_loop), e)
    | inr (row, rows, e) ↦
        let rest : c.entries (c.erase t row.0) ≡ rows =
          c.entries-erase t row.0 ∙ (rw e (ground arith)) in
        let shorter : length (c.entries (c.erase t row.0)) < n =
          rw rest (ground (arith, ap length e)) in
        rw (e, erase_loop) (erase_loop_ends n (c.erase t row.0) shorter)
  ]

  -- The loop that erases row by row always ends, and leaves the table empty.
  pub erase_rows_ends :
      (t : c.Table Plan) → (t' : c.Table Plan) × (erase_rows c t ≡ ok t') × (c.entries t' ≡ [])
  unfolding erase_rows
  erase_rows_ends t =
      let done = erase_loop_ends (suc (length (c.entries t))) t (omega arith) in
      (done.0, rw done.1, done.2)
