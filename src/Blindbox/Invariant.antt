-- ===== src/Blindbox/Invariant.antt =====
-- flon.blindbox: the invariant of the booths over every history.
use toolkit_contracts.Base.{Bool, ℕ, ◌+◌, ◌≤◌}
use toolkit_contracts.Chain.{Chain}
use toolkit_contracts.Blindbox.State.{State}
use toolkit_contracts.Blindbox.Run.{Inv, Kept}

module _ (c : Chain) (has_plan : ℕ → ℕ → ℕ → Bool) where
  -- The invariant, and a last number of a booth that is at most one more.
  abbrev pub GoesOn : State c → State c → Type 0
  GoesOn s s' = Inv c s' × s'.global.last_booth_id ≤ s.global.last_booth_id + 1
