-- ===== src/Base/Dict/Sum.antt =====
-- The sum of a measure over the entries of a map, and how `save` and `remove` move it.

use cw_plus.Base.Dict.{Dict, lookup, insert, erase, IsMap, lookup-Above}
use Prim.Native.Nat.{ℕ, ◌+◌, ◌≤◌}
use mathlib.Core.Path.{◌≡◌}
use mathlib.Core.Option.{Option, none, some}
use mathlib.Core.List.{[], ◌∷◌}
use native.Mathlib.Omega.{arith}

module _ {ℓ} {V : Type ℓ} (f : V → ℕ) where
  unfoldable pub sum_by : Dict V → ℕ
  sum_by [] = 0
  sum_by ((k, v) ∷ m) = f v + sum_by m

  -- The measure of what is stored under a key, 0 if nothing is.
  abbrev pub measure : Option V → ℕ
  measure none = 0
  measure (some v) = f v

  -- A `save` replaces the measure of the old value by that of the new one.
  pub sum_by-insert :
      (k : ℕ) (v : V) (m : Dict V)
      → IsMap m
      → sum_by (insert k v m) + measure (lookup k m) ≡ sum_by m + f v
  unfolding sum_by insert lookup
  sum_by-insert k v [] h = omega arith
  sum_by-insert k v ((j, w) ∷ m) h = ground (arith, sum_by-insert k v m h.1, lookup-Above k j m h.0)

  pub sum_by-erase : (k : ℕ) (m : Dict V) → sum_by (erase k m) + measure (lookup k m) ≡ sum_by m
  unfolding sum_by erase lookup
  sum_by-erase k [] = omega arith
  sum_by-erase k ((j, w) ∷ m) = ground (arith, sum_by-erase k m)

  pub measure-le-sum_by : (k : ℕ) (m : Dict V) → measure (lookup k m) ≤ sum_by m
  unfolding sum_by lookup
  measure-le-sum_by k [] = omega arith
  measure-le-sum_by k ((j, w) ∷ m) = ground (arith, measure-le-sum_by k m)

  -- A `save` under a new key adds the measure of its value.
  pub sum_by-insert_new :
      (k : ℕ) (v : V) (m : Dict V)
      → IsMap m
      → lookup k m ≡ none
      → sum_by (insert k v m) ≡ sum_by m + f v
  sum_by-insert_new k v m h e = ground (arith, sum_by-insert k v m h)
