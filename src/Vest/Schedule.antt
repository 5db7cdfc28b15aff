-- ===== src/Vest/Schedule.antt =====
-- flon.vest: how much an unlock releases.
use toolkit_contracts.Base.{
  Bool-cases, Option-cases, arith, err, if◌then◌else◌, inl, inr, leb, min, ok, pos, pos_part, refl,
  some, true, ℕ, ℤ, ℤ_antisym, ◌*◌, ◌+◌, ◌-ℤ◌, ◌/◌, ◌<◌, ◌^◌, ◌↔◌, ◌∷◌, ◌≡◌, ◌≤ℤ◌, ◌≤◌,
}
use toolkit_contracts.Chain.{Chain, Context, find-put, make_asset-eq-some, total}
use toolkit_contracts.Vest.State.{Issue, Plan, State, arithmetic, finished, is_finished}
use toolkit_contracts.Vest.Actions.{asset_eq, total_unlocked, unlock, unlocked_days, unlocked_times}
use toolkit_contracts.Arithmetic.{multiply_decimal64, multiply_decimal64-pos}

-- `n` times `k / t`, rounded to a tenth first and then to the nearest whole.
abbrev pub instalment : ℕ → ℕ → ℕ → ℕ
instalment n k t = (10 * n * k / t + 5) / 10

div-le : (a b t : ℕ) → 0 < t → a ≤ b * t → a / t ≤ b
div-le a b t h k = grind arith

instalment-le : (n k t : ℕ) → 0 < t → k ≤ t → instalment n k t ≤ n
instalment-le n k t h e =
    let part : 10 * n * k ≤ 10 * n * t = grind arith in
    omega (arith, div-le (10 * n * k) (10 * n) t h part)

multiply_instalment :
    (n k t : ℕ)
    → 0 < t
    → k < t
    → t < 2 ^ 32
    → n ≤ 922337203685477580
    → multiply_decimal64 (pos n) (pos k) (pos t) ≡ some (pos (instalment n k t))
multiply_instalment n k t h e w small =
    let part : 10 * n * k ≤ 10 * n * t = grind arith in
    let bound : 10 * n * k ≤ 9223372036854775800 * 4294967296 = grind arith in
    let fits : 10 * n * k / t ≤ 10 * n = div-le (10 * n * k) (10 * n) t h part in
    rw (multiply_decimal64-pos n k t h (omega arith)) (ground arith)

unlocked_times_lem :
    (days : ℕ) (p : Plan)
    → p.unlock_times < 2 ^ 32
    → unlocked_times days p ≡ 1 + min (days / p.unlock_interval_days) p.unlock_times
unfolding unlocked_times
unlocked_times_lem days p w = omega arith

-- For an issue of at most (2^63 - 1) / 10 units, no negative unlocked amount, and a plan of at
-- least one and fewer than 2^32 instalments, the total that is due is the whole issue once all
-- instalments have fallen due, and before that the rounded part of the instalments, which the
-- action refuses exactly if more than that has been unlocked already.
pub total_unlocked_lem :
    (days n u : ℕ) (p : Plan) (i : Issue)
    → i.issued.amount ≡ pos n
    → i.unlocked.amount ≡ pos u
    → 0 < p.unlock_times
    → p.unlock_times < 2 ^ 32
    → n ≤ 922337203685477580
    → let k = 1 + min (days / p.unlock_interval_days) p.unlock_times in
      let due = instalment n k p.unlock_times in
      total_unlocked days p i ≡ (
        if leb p.unlock_times k
        then ok (pos n)
        else if leb u due
        then ok (pos due)
        else err arithmetic)
unfolding total_unlocked
total_unlocked_lem days n u p i en eu h w small =
    let k = 1 + min (days / p.unlock_interval_days) p.unlock_times in
    let times : unlocked_times days p ≡ k = unlocked_times_lem days p w in
    rw (times, en, eu)
      (elim (Bool-cases (leb p.unlock_times k)) [
        | inl all ↦ rw all
        | inr some_left ↦
            rw (some_left, multiply_instalment n k p.unlock_times h (ground arith) w small)
              (ground (arith, instalment-le n k p.unlock_times))
      ])

-- A successful unlock of an issue, whose unlocked amount is in the symbol of the issued one, sends
-- the receiver of the issue, from the plan's token contract, exactly what has fallen due less what
-- was unlocked before, which is positive. The issue then has the whole due total unlocked and the
-- rest locked, and it is finished if and only if the due total is all that was issued.
pub unlock_pays :
    (c : Chain) (ctx : Context) (issuer plan k : ℕ) (i : Issue) (p : Plan) (total : ℤ)
    (s s' : State c)
    → c.find s.issues k ≡ some i
    → c.find s.plans plan ≡ some p
    → total_unlocked (pos_part (unlocked_days ctx.now i)) p i ≡ ok total
    → i.unlocked.symbol ≡ i.issued.symbol
    → unlock c ctx issuer plan k s ≡ ok s'
    → let paid = total -ℤ i.unlocked.amount in
      (pos 1 ≤ℤ paid)
      × (s'.sent
          ≡ record {
            bank = p.asset_contract;
            to = i.receiver;
            quantity = record { amount = paid; symbol = p.asset_symbol };
          }
            ∷ s.sent)
      × ((i' : Issue) × (c.find s'.issues k ≡ some i')
          × (i'.unlocked.amount ≡ total)
          × (i'.locked.amount ≡ i.issued.amount -ℤ total)
          × ((is_finished i'.status ≡ true) ↔ (total ≡ i.issued.amount)))
unfolding unlock
unlock_pays c ctx issuer plan k i p total s s' fi fp ft sy e =
    elim (Option-cases (c.make_asset (total -ℤ i.unlocked.amount) p.asset_symbol)) [
      | inl overflow ↦ absurd (ground arith)
      | inr (r, fr) ↦
          let u = record i.unlocked { amount = total } in
          let i' = record i {
            unlocked = u;
            locked = record i.locked { amount = i.issued.amount -ℤ total };
            status = if asset_eq u i.issued then finished else i.status;
            updated_at = ctx.now;
          } in
          let made = make_asset-eq-some c (total -ℤ i.unlocked.amount) p.asset_symbol r fr in
          (
            ground arith,
            ground (arith, made),
            (
              i',
              ground (arith, find-put c s.issues k i' k),
              refl,
              refl,
              ground (arith, ℤ_antisym total i.issued.amount),
            ),
          )
    ]
