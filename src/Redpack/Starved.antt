-- ===== src/Redpack/Starved.antt =====
-- flon.redpack: a random draw that leaves nothing for the last count.
use toolkit_contracts.Base.{
  List, Text, ap, arith, int_laws, ok, pos, some, sym, true, ℕ, ℤ, ◌%◌, ◌*◌, ◌+ℤ◌, ◌+◌, ◌-◌, ◌/◌,
  ◌<◌, ◌^◌, ◌∙◌, ◌≡◌, ◌≤◌,
}
use toolkit_contracts.Chain.{Asset, Chain, Context}
use toolkit_contracts.Arithmetic.{to_i64}
use toolkit_contracts.Redpack.State.{Redpack, State, random}
use toolkit_contracts.Redpack.Assign.{assign_redpack, min_unit_of, precision_of, rand, share_of}
use toolkit_contracts.Redpack.Actions.{claimredpack}
use toolkit_contracts.Redpack.Claims.{claimredpack_pays}
use toolkit_contracts.Redpack.Random.{min_unit_of-small, rand_small, unit_of, units}

last_unit : (k unit n : ℕ) → 0 < k → n % k ≡ k - 1 → (n % k + 1) * unit ≡ k * unit
last_unit k unit n h e = grind arith

whole_units : (k unit : ℕ) → 0 < unit → k * unit / unit ≡ k
whole_units k unit h = grind arith

rand-last :
    (seed k precision unit : ℕ)
    → 0 < k
    → 0 < units precision unit
    → k * units precision unit < 2 ^ 62
    → precision ≤ 18
    → unit ≤ 18
    → seed % k ≡ k - 1
    → rand seed (pos (k * units precision unit)) precision unit ≡ some (k * units precision unit)
rand-last seed k precision unit hk hu small h l e =
    let u = units precision unit in
    rw (rand_small seed (k * u) precision unit (omega (arith, small)) h l, whole_units k u hu)
      (ground (arith, last_unit k u seed hk e))

emptied : (a : ℤ) (q b : Asset) → a +ℤ q.amount ≡ b.amount → some b ≡ some q → a ≡ pos 0
emptied a q b e same = grind int_laws

module _ (c : Chain) where
  module _ (seed k : ℕ) (r : Redpack) where
    -- The seeds with which a packet of two counts gives everything to the first of them.
    pub record DrawsAll : Type 0 where
      pub two_left : r.remaining_count ≡ 2
      pub even_units : r.remaining_quant.amount ≡ pos (k * unit_of r)
      pub even : k * unit_of r % 2 ≡ 0
      pub some_units : 0 < k
      pub some_unit : 0 < unit_of r
      pub in_range : k * unit_of r < 2 ^ 62
      pub digits : precision_of r.remaining_quant.symbol ≤ 18
      pub valid : c.symbol_is_valid r.remaining_quant.symbol ≡ true
      pub last : seed % k ≡ k - 1

    draws_all : DrawsAll → assign_redpack c seed r ≡ some r.remaining_quant
    unfolding assign_redpack
    draws_all d =
        let m = k * unit_of r in
        let raw = r.remaining_quant.symbol in
        let half : m / 2 * 2 % 2 ^ 64 ≡ m = omega (arith, d.even, d.in_range) in
        let drawn =
          rand-last seed k (precision_of raw) (min_unit_of (precision_of raw)) d.some_units
            d.some_unit d.in_range d.digits (min_unit_of-small (precision_of raw) d.digits)
            d.last in
        let plain : to_i64 m ≡ pos m = ground (arith, d.in_range) in
        let made : c.make_asset (pos m) raw ≡ some (record { amount = pos m; symbol = raw }) =
          ground (arith, c.make_asset_lem (pos m) raw, d.valid, d.in_range) in
        let again : c.make_asset (to_i64 m) raw ≡ some (record { amount = pos m; symbol = raw }) =
          ap (λ n. c.make_asset n raw) plain ∙ made in
        rw (d.two_left, d.even_units) (rw half (rw made (rw drawn again)))

    all_drawn :
        r.assign_type ≡ random → DrawsAll → share_of c seed r.assign_type r ≡ some r.remaining_quant
    unfolding share_of assign_redpack
    all_drawn kind d = rw kind (draws_all d)

  -- A packet with nothing left cannot be claimed.
  empty-blocks :
      (ctx : Context) (seed : ℕ) (dids : List (ℕ × ℤ)) (claimer code : ℕ) (hash : Text)
      (s s' : State c) (r : Redpack)
      → c.find s.redpacks code ≡ some r
      → r.remaining_quant.amount ≡ pos 0
      → ¬ (claimredpack c ctx seed dids claimer code hash s ≡ ok s')
  unfolding claimredpack
  empty-blocks ctx seed dids claimer code hash s s' r fr z e = ground arith

  -- Let a random packet have two counts left, and an even amount of whole units that is positive
  -- and below 2^62, in a valid symbol with at most 18 digits. After a claim that succeeds with a seed that draws the last
  -- of the units, each claim of the packet fails, whatever its seed.
  pub claimredpack_starves :
      (ctx ctx' : Context) (seed seed' k : ℕ) (dids dids' : List (ℕ × ℤ))
      (claimer claimer' code : ℕ) (hash hash' : Text) (s s' : State c) (r : Redpack)
      → c.find s.redpacks code ≡ some r
      → r.assign_type ≡ random
      → DrawsAll seed k r
      → claimredpack c ctx seed dids claimer code hash s ≡ ok s'
      → (t : State c) → ¬ (claimredpack c ctx' seed' dids' claimer' code hash' s' ≡ ok t)
  claimredpack_starves ctx ctx' seed seed' k dids dids' claimer claimer' code hash hash' s s' r fr
        kind d e t =
      let (q, fq, (r', paid)) = claimredpack_pays c ctx seed dids claimer code hash s s' r e fr in
      empty-blocks ctx' seed' dids' claimer' code hash' s' t r' paid.0 (
        emptied r'.remaining_quant.amount q r.remaining_quant (ground (arith, paid))
          (sym (all_drawn seed k r kind d) ∙ fq))
