-- ===== src/Cw3/Needed.antt =====
-- `votes_needed` of packages/cw3/src/proposal.rs against its meaning: a share of the weight,
-- rounded up, where a share that is short of a whole vote by less than 10^-9 counts as that vote.
use native.Mathlib.Nat.{mul-add}
use cw_plus.Base.{ℕ, ◌+◌, ◌-◌, ◌*◌, ◌/◌, ◌≤◌, ◌<◌, ◌≡◌, ◌↔◌, ap, some, arith, u64_max}
use cw_plus.Host.{Host, decimal_one}
use cw_plus.Cw3.{votes_needed}

-- The number of votes that makes up a share.
pub needed : ℕ → ℕ → ℕ
needed weight percentage = (weight * percentage / 1_000_000_000 + 999_999_999) / 1_000_000_000

needed-le : (w p : ℕ) → p ≤ decimal_one → needed w p ≤ w
unfolding needed
needed-le w p hp = grind arith

share-le : (w p : ℕ) → p ≤ decimal_one → w * p ≤ w * decimal_one
share-le w p hp = grind arith

scaled_share : (w p : ℕ) → 1_000_000_000 * w * p / decimal_one ≡ w * p / 1_000_000_000
scaled_share w p = omega arith

-- `votes_needed` does not panic on a `u64` and a share of at most one, and nothing is cut off.
pub votes_needed-needed :
    (h : Host) (w p : ℕ) → w ≤ u64_max → p ≤ decimal_one → votes_needed h w p ≡ some (needed w p)
unfolding votes_needed needed
votes_needed-needed h w p hw hp =
    ground (arith, h.mul_floor_lem (1_000_000_000 * w) p, share-le w p hp, scaled_share w p)

-- Rounded up: `k` votes make up a share of `w` exactly when they are less than 10^-9 short of it.
pub needed_iff : (w p k : ℕ) → (needed w p ≤ k) ↔ (w * p < k * decimal_one + 1_000_000_000)
unfolding needed
needed_iff w p k = (λ e. omega arith, λ e. omega arith)

-- Less weight needs fewer votes.
pub needed_mono : (v w p : ℕ) → v ≤ w → needed v p ≤ needed w p
unfolding needed
needed_mono v w p le = grind arith

split_share : (m p : ℕ) → p ≤ decimal_one → m * p + m * (decimal_one - p) ≡ m * decimal_one
split_share m p hp =
    let e : p + (decimal_one - p) ≡ decimal_one = omega arith in
    rw (← mul-add) (ap (λ (t : ℕ). m * t) e)

-- Two opposite shares of a weight cannot both be exceeded by votes within it.
pub needed_complement :
    (m p y n : ℕ) → p ≤ decimal_one → y + n ≤ m → needed m p ≤ y → n ≤ needed m (decimal_one - p)
unfolding needed
needed_complement m p y n hp le en = omega (arith, split_share m p hp)

-- On a `u64` weight and a share of at most one, `votes_needed` does not panic, and its result is
-- the least number of votes that is less than 10^-9 of a vote short of that share of the weight.
pub votes_needed_lem :
    (h : Host) (w p : ℕ)
    → w ≤ u64_max
    → p ≤ decimal_one
    → (n : ℕ) × (votes_needed h w p ≡ some n)
      × ((k : ℕ) → (n ≤ k) ↔ (w * p < k * decimal_one + 1_000_000_000))
votes_needed_lem h w p hw hp = (needed w p, votes_needed-needed h w p hw hp, needed_iff w p)
