-- ===== src/Cw4Stake/Scale.antt =====
-- calc_weight of contracts/cw4-stake against the division that it stands for.
use native.Mathlib.Nat.{div-add-mod', mod-lt}
use cw_plus.Base.{ℕ, ◌+◌, ◌*◌, ◌/◌, ◌%◌, ◌≤◌, ◌<◌, ◌≡◌, Option, none, some, ok, arith, u64_max}
use cw_plus.Cw4Stake.State.{Config}
use cw_plus.Cw4Stake.Handlers.{calc_weight}

-- The weight of a stake: none below the minimal bond; from there on it is how many times the tokens
-- per weight go into the stake, less the multiples of 2^64, which the `u64` loses.
pub record IsWhole (cfg : Config) (stake w : ℕ) : Type 0 where
  pub times : ℕ
  pub left : ℕ
  pub lost : ℕ
  pub divides : times * cfg.tokens_per_weight + left ≡ stake
  pub is_least : left < cfg.tokens_per_weight
  pub wraps : lost * 18_446_744_073_709_551_616 + w ≡ times
  pub is_u64 : w ≤ u64_max

abbrev pub IsWeightOf : Config → ℕ → Option ℕ → Type 0
IsWeightOf cfg stake none = stake < cfg.min_bond
IsWeightOf cfg stake (some w) = (cfg.min_bond ≤ stake) × IsWhole cfg stake w

pub calc_weight-IsWeightOf :
    (cfg : Config) (stake : ℕ) (o : Option ℕ)
    → calc_weight stake cfg ≡ ok o
    → IsWeightOf cfg stake o
unfolding calc_weight
calc_weight-IsWeightOf cfg stake none e = ground arith
calc_weight-IsWeightOf cfg stake (some w) e =
    let n : ℕ = cfg.tokens_per_weight in
    let q : ℕ = stake / n in
    let known : (cfg.min_bond ≤ stake) × (0 < n) × (w ≡ q % 18_446_744_073_709_551_616) =
      ground arith in
    (
      known.0,
      record {
        times = q;
        left = stake % n;
        lost = q / 18_446_744_073_709_551_616;
        divides = div-add-mod' stake n;
        is_least = mod-lt stake (known.1);
        wraps = omega (arith, known.2);
        is_u64 = omega (arith, known.2);
      },
    )

pub IsWeightOf-calc_weight :
    (cfg : Config) (stake : ℕ) (o : Option ℕ)
    → IsWeightOf cfg stake o
    → calc_weight stake cfg ≡ ok o
unfolding calc_weight
IsWeightOf-calc_weight cfg stake none low = ground arith
IsWeightOf-calc_weight cfg stake (some w) (high, is) =
    let same : stake / cfg.tokens_per_weight ≡ is.times = grind arith in
    let wrapped : is.times % 18_446_744_073_709_551_616 ≡ w = omega (arith, is.wraps, is.is_u64) in
    ground (arith, is.is_least)
