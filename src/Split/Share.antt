-- ===== src/Split/Share.antt =====
-- flon.split: the size of one share.
use toolkit_contracts.Base.{arith, pos, ℕ, ◌*◌, ◌/◌, ◌<◌, ◌^◌, ◌≡◌, ◌≤◌}
use toolkit_contracts.Split.Actions.{share_amount}

-- For a payment of less than 2^62, the share that the loop computes is the rounded down part
-- `amount * rate / 10000` exactly when the product is below 2^64; above that the product in
-- `uint64_t` wraps around and the share falls short of the receiver's part.
pub share_amount_lem :
    (n rate : ℕ)
    → n < 2 ^ 62
    → (n * rate < 2 ^ 64 → share_amount (pos n) rate ≡ n * rate / 10000)
      × (2 ^ 64 ≤ n * rate → share_amount (pos n) rate < n * rate / 10000)
unfolding share_amount
share_amount_lem n rate h = (λ fits. ground arith, λ wraps. ground arith)
