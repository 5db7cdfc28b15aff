-- ===== src/Vest/Books.antt =====
-- flon.vest: the books of a plan, and how changes of the tables move them.
use toolkit_contracts.Base.{
  +ℤ_zero, ==_iff, ==_refl, Bool-cases, Option, arith, false, if◌then◌else◌, inl, inr, int_laws,
  none, parts_of_eq, pos, some, true, ℕ, ℤ, ◌&&◌, ◌+ℤ◌, ◌-ℤ◌, ◌==◌, ◌||◌, ◌≡◌, ◌⊎◌,
}
use toolkit_contracts.Chain.{Asset, Chain, find-put, total, total-erase, total-put, total-put_new}
use toolkit_contracts.Vest.State.{Issue, IssueStatus, Plan, State, is_finished, is_ongoing}

-- What an issue holds back under one plan, while it runs.
abbrev pub locked_under : ℕ → Issue → ℤ
locked_under id issue =
    if issue.plan_id == id && is_ongoing issue.status then issue.locked.amount else pos 0

-- The books of one plan: what was issued has been unlocked, refunded, or is still locked. Under a
-- number that is no plan's nothing is locked.
abbrev pub Balanced : Option Plan → ℤ → Type 0
Balanced none locked = locked ≡ pos 0
Balanced (some p) locked =
    p.total_issued.amount ≡ p.total_unlocked.amount +ℤ p.total_refunded.amount +ℤ locked

-- What the actions keep true of an issue: while it runs, its tokens are locked or unlocked, and it
-- is never TERMINATED.
pub record IsSound (i : Issue) : Type 0 where
  pub parts : is_ongoing i.status ≡ true → i.issued.amount ≡ i.locked.amount +ℤ i.unlocked.amount
  pub used : is_ongoing i.status || is_finished i.status ≡ true

added_sums :
    (a a' u u' r r' l t t' : ℤ)
    → t' ≡ t +ℤ l
    → a ≡ u +ℤ r +ℤ t
    → a' +ℤ u +ℤ r ≡ a +ℤ u' +ℤ r' +ℤ l
    → a' ≡ u' +ℤ r' +ℤ t'
added_sums a a' u u' r r' l t t' h b e =
    omega (int_laws, parts_of_eq h, parts_of_eq b, parts_of_eq e)

pub shrink :
    (id : ℕ) (i : Issue) (q : Asset)
    → locked_under id (record i { locked = q })
        +ℤ locked_under id
            (record i { locked = record i.locked { amount = i.locked.amount -ℤ q.amount } })
      ≡ locked_under id i
shrink id i q = grind int_laws

-- Whether an unlock finishes the issue or not, what is locked falls by what the plan has unlocked.
pub unlock_sums :
    (plan : ℕ) (i : Issue) (n : ℤ) (p : Plan) (status : IssueStatus)
    → i.plan_id ≡ plan
    → is_ongoing i.status ≡ true
    → i.issued.amount ≡ i.locked.amount +ℤ i.unlocked.amount
    → is_ongoing status ≡ true ⊎ (n ≡ i.issued.amount) × (is_ongoing status ≡ false)
    → p.total_issued.amount
        +ℤ p.total_unlocked.amount
        +ℤ p.total_refunded.amount
        +ℤ locked_under plan i
      ≡ p.total_issued.amount
        +ℤ (p.total_unlocked.amount +ℤ (n -ℤ i.unlocked.amount))
        +ℤ p.total_refunded.amount
        +ℤ locked_under plan (record i {
          status = status;
          locked = record i.locked { amount = i.issued.amount -ℤ n };
        })
unlock_sums plan i n p status e o h (inl on) =
    rw (e, ==_refl plan, o, on) (omega (int_laws, parts_of_eq h))
unlock_sums plan i n p status e o h (inr (all, off)) =
    rw (e, ==_refl plan, o, off) (omega (int_laws, parts_of_eq h, parts_of_eq all))

pub settle_sums :
    (a a' u u' r r' l l' t t' : ℤ)
    → t' +ℤ l ≡ t +ℤ l'
    → a ≡ u +ℤ r +ℤ t
    → a' +ℤ u +ℤ r +ℤ l ≡ a +ℤ u' +ℤ r' +ℤ l'
    → a' ≡ u' +ℤ r' +ℤ t'
settle_sums a a' u u' r r' l l' t t' h b e =
    omega (int_laws, parts_of_eq h, parts_of_eq b, parts_of_eq e)

module _ (c : Chain) where
  abbrev pub Books : ℕ → State c → Type 0
  Books id s = Balanced (c.find s.plans id) (total c (locked_under id) s.issues)

  -- A change of a plan that keeps its totals, and one of an issue that keeps what it locks.
  pub put_plan-Books :
      (id k : ℕ) (p p' : Plan) (s : State c)
      → c.find s.plans k ≡ some p
      → p'.total_issued ≡ p.total_issued
      → p'.total_unlocked ≡ p.total_unlocked
      → p'.total_refunded ≡ p.total_refunded
      → Books id s
      → Balanced (c.find (c.put s.plans k p') id) (total c (locked_under id) s.issues)
  put_plan-Books id k p p' s f a d e b = grind (arith, find-put c s.plans k p' id)

  pub put_issue-total :
      (id k : ℕ) (i i' : Issue) (s : State c)
      → c.find s.issues k ≡ some i
      → locked_under id i' ≡ locked_under id i
      → total c (locked_under id) (c.put s.issues k i') ≡ total c (locked_under id) s.issues
  put_issue-total id k i i' s f e =
      grind (int_laws, total-put c s.issues (locked_under id) k i' i f)

  -- A change of an issue together with its plan keeps the books if the plan's totals and what the
  -- issue locks change by the same amount.
  pub settle-Books :
      (id k plan : ℕ) (p p' : Plan) (i i' : Issue) (s : State c)
      → c.find s.plans plan ≡ some p
      → c.find s.issues k ≡ some i
      → i.plan_id ≡ plan
      → i'.plan_id ≡ plan
      → p'.total_issued.amount
          +ℤ p.total_unlocked.amount
          +ℤ p.total_refunded.amount
          +ℤ locked_under plan i
        ≡ p.total_issued.amount
          +ℤ p'.total_unlocked.amount
          +ℤ p'.total_refunded.amount
          +ℤ locked_under plan i'
      → Books id s
      → Balanced
          (c.find (c.put s.plans plan p') id)
          (total c (locked_under id) (c.put s.issues k i'))
  settle-Books id k plan p p' i i' s fp fi e e' h b = elim (Bool-cases (plan == id)) [
    | inl same ↦
        let e₁ = (==_iff plan id).0 same in
        let f₁ = rw e₁ at fp in
        let b₁ = rw f₁ at b in
        let h₁ : p'.total_issued.amount
              +ℤ p.total_unlocked.amount
              +ℤ p.total_refunded.amount
              +ℤ locked_under id i
            ≡ p.total_issued.amount
              +ℤ p'.total_unlocked.amount
              +ℤ p'.total_refunded.amount
              +ℤ locked_under id i' =
          rw (← e₁) h in
        rw (find-put c s.plans plan p' id, same)
          (settle_sums _ _ _ _ _ _ _ _ _ _ (total-put c s.issues (locked_under id) k i' i fi) b₁ h₁)
    | inr other ↦
        rw
          (find-put c s.plans plan p' id, other, put_issue-total id k i i' s fi (rw (e, e', other)))
          b
  ]

  -- A new issue beside an old one, which shrinks or goes.
  module _ (id n k : ℕ) (t : c.Table Issue) (new i : Issue) (fn : c.find t n ≡ none)
      (fi : c.find t k ≡ some i) where
    pub find_beside : c.find (c.put t n new) k ≡ some i
    find_beside = ground (arith, find-put c t n new k)

    pub part_issue-total :
        (i' : Issue)
        → locked_under id new +ℤ locked_under id i' ≡ locked_under id i
        → total c (locked_under id) (c.put (c.put t n new) k i') ≡ total c (locked_under id) t
    part_issue-total i' e = omega (
      int_laws,
      parts_of_eq e,
      parts_of_eq (total-put_new c t (locked_under id) n new fn),
      parts_of_eq (total-put c (c.put t n new) (locked_under id) k i' i find_beside),
    )

    pub move_issue-total :
        locked_under id new ≡ locked_under id i
        → total c (locked_under id) (c.erase (c.put t n new) k) ≡ total c (locked_under id) t
    move_issue-total e = omega (
      int_laws,
      parts_of_eq e,
      parts_of_eq (total-put_new c t (locked_under id) n new fn),
      parts_of_eq (total-erase c (c.put t n new) (locked_under id) k i find_beside),
    )

  pub put_new_issue-Books :
      (id n plan : ℕ) (p p' : Plan) (i : Issue) (s : State c)
      → c.find s.plans plan ≡ some p
      → c.find s.issues n ≡ none
      → i.plan_id ≡ plan
      → p'.total_issued.amount +ℤ p.total_unlocked.amount +ℤ p.total_refunded.amount
        ≡ p.total_issued.amount
          +ℤ p'.total_unlocked.amount
          +ℤ p'.total_refunded.amount
          +ℤ locked_under plan i
      → Books id s
      → Balanced
          (c.find (c.put s.plans plan p') id)
          (total c (locked_under id) (c.put s.issues n i))
  put_new_issue-Books id n plan p p' i s fp fn e h b = elim (Bool-cases (plan == id)) [
    | inl same ↦
        let e₁ = (==_iff plan id).0 same in
        let f₁ = rw e₁ at fp in
        let b₁ = rw f₁ at b in
        let h₁ : p'.total_issued.amount +ℤ p.total_unlocked.amount +ℤ p.total_refunded.amount
            ≡ p.total_issued.amount
              +ℤ p'.total_unlocked.amount
              +ℤ p'.total_refunded.amount
              +ℤ locked_under id i =
          rw (← e₁) h in
        rw (find-put c s.plans plan p' id, same)
          (added_sums _ _ _ _ _ _ _ _ _ (total-put_new c s.issues (locked_under id) n i fn) b₁ h₁)
    | inr other ↦
        rw
          (
            find-put c s.plans plan p' id,
            other,
            total-put_new c s.issues (locked_under id) n i fn,
            e,
            other,
            +ℤ_zero (total c (locked_under id) s.issues),
          )
          b
  ]

  pub put_new_plan-Books :
      (id k : ℕ) (p : Plan) (s : State c)
      → c.find s.plans k ≡ none
      → p.total_issued.amount ≡ pos 0
      → p.total_unlocked.amount ≡ pos 0
      → p.total_refunded.amount ≡ pos 0
      → Books id s
      → Balanced (c.find (c.put s.plans k p) id) (total c (locked_under id) s.issues)
  put_new_plan-Books id k p s f x y z b = elim (Bool-cases (k == id)) [
    | inl same ↦
        let f₁ = rw ((==_iff k id).0 same) at f in
        let b₁ = rw f₁ at b in
        rw (find-put c s.plans k p id, same, x, y, z) (omega (int_laws, parts_of_eq b₁))
    | inr other ↦ rw (find-put c s.plans k p id, other) b
  ]

  pub erase_issue-Books :
      (id k : ℕ) (i : Issue) (s : State c)
      → c.find s.issues k ≡ some i
      → is_finished i.status ≡ true
      → Books id s
      → Books id (record s { issues = c.erase s.issues k })
  erase_issue-Books id k i s f e b =
      let none_locked : locked_under id i ≡ pos 0 = ground arith in
      let same : total c (locked_under id) (c.erase s.issues k)
          ≡ total c (locked_under id) s.issues =
        omega (
          int_laws,
          parts_of_eq none_locked,
          parts_of_eq (total-erase c s.issues (locked_under id) k i f),
        ) in
      rw same b
