-- ===== src/Split/Rates.antt =====
-- flon.split, `check_rate`: which lists of shares a plan may have.
use toolkit_contracts.Base.{
  >>=-eq-ok, List, [], arith, false, length, ok, refl, true, ℕ, ◌%◌, ◌*◌, ◌+◌, ◌<◌, ◌^◌, ◌↔◌, ◌∷◌,
  ◌≡◌, ◌≢◌, ◌≤◌,
}
use toolkit_contracts.Chain.{Context}
use toolkit_contracts.Split.State.{SplitUnit}
use toolkit_contracts.Split.Actions.{check_rate, rate_loop, seen}

abbrev pub IsFresh : ℕ → List ℕ → Type 0
IsFresh a [] = Unit {0}
IsFresh a (x ∷ xs) = (a ≢ x) × IsFresh a xs

-- Every receiver exists and is not in `s` nor earlier in the list, and every rate lies in 1..10000.
abbrev pub AreUnits : Context → List ℕ → List SplitUnit → Type 0
AreUnits ctx s [] = Unit {0}
AreUnits ctx s (u ∷ us) =
    (ctx.is_account u.token_receiver ≡ true)
    × (0 < u.token_split_amount)
    × (u.token_split_amount ≤ 10000)
    × IsFresh u.token_receiver s
    × AreUnits ctx (u.token_receiver ∷ s) us

abbrev pub rate_sum : List SplitUnit → ℕ
rate_sum [] = 0
rate_sum (u ∷ us) = u.token_split_amount + rate_sum us

seen-IsFresh : (a : ℕ) (s : List ℕ) → seen a s ≡ false → IsFresh a s
unfolding seen
seen-IsFresh a [] h = tt
seen-IsFresh a (x ∷ s) h = ground (arith, seen-IsFresh a s)

IsFresh-seen : (a : ℕ) (s : List ℕ) → IsFresh a s → seen a s ≡ false
unfolding seen
IsFresh-seen a [] h = refl
IsFresh-seen a (x ∷ s) h = ground (arith, IsFresh-seen a s h.1)

rate_loop-ok :
    (ctx : Context) (us : List SplitUnit) (n : ℕ) (s : List ℕ) (r : ℕ)
    → n + 10000 * length us < 2 ^ 64
    → rate_loop ctx n s us ≡ ok r
    → AreUnits ctx s us × (r ≡ n + rate_sum us)
unfolding rate_loop
rate_loop-ok ctx [] n s r h e = ground arith
rate_loop-ok ctx (u ∷ us) n s r h e = ground (
  arith,
  seen-IsFresh u.token_receiver s,
  rate_loop-ok ctx us ((n + u.token_split_amount) % 2 ^ 64) (u.token_receiver ∷ s) r,
)

ok-rate_loop :
    (ctx : Context) (us : List SplitUnit) (n : ℕ) (s : List ℕ)
    → n + 10000 * length us < 2 ^ 64
    → AreUnits ctx s us
    → rate_loop ctx n s us ≡ ok (n + rate_sum us)
unfolding rate_loop
ok-rate_loop ctx [] n s h v = ground arith
ok-rate_loop ctx (u ∷ us) n s h v = ground (
  arith,
  IsFresh-seen u.token_receiver s,
  ok-rate_loop ctx us ((n + u.token_split_amount) % 2 ^ 64) (u.token_receiver ∷ s),
)

-- For a list of fewer than 2^32 shares, `check_rate` passes exactly when every receiver is an
-- existing account that is named once, every rate is between 1 and 10000, and the rates add up to
-- 10000, so that the sum in `uint64_t` does not wrap around.
pub check_rate_lem :
    (ctx : Context) (confs : List SplitUnit)
    → length confs < 2 ^ 32
    → (check_rate ctx confs ≡ ok tt) ↔ (AreUnits ctx [] confs × (rate_sum confs ≡ 10000))
unfolding check_rate
check_rate_lem ctx confs h = (
  λ e.
      let (r, loop, final) = >>=-eq-ok (rate_loop ctx 0 [] confs) _ e in
      ground (arith, rate_loop-ok ctx confs 0 [] r),
  λ v. rw (ok-rate_loop ctx confs 0 [] (omega arith) v.0) (ground arith),
)
