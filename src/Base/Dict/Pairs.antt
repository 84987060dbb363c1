-- ===== src/Base/Dict/Pairs.antt =====
-- Maps over pairs of keys.
use cw_plus.Base.Tests.{◌==◌, if◌then◌else◌, unwrap_or}
use cw_plus.Base.Dict.{
  Dict, lookup, insert, erase, IsMap, lookup-insert, lookup-erase, insert-IsMap, erase-IsMap,
}
use Prim.Native.Nat.{ℕ}
use mathlib.Core.Path.{◌≡◌}
use mathlib.Core.Logic.{◌≢◌}
use mathlib.Core.Bool.{◌&&◌}
use mathlib.Core.Option.{Option, none, some}
use mathlib.Core.List.{[]}
use native.Mathlib.Omega.{arith}

module _ {ℓ} {V : Type ℓ} where
  -- `prefix(k)`
  abbrev pub prefix : ℕ → Dict (Dict V) → Dict V
  prefix k m = unwrap_or (lookup k m) []

  unfoldable pub lookup_pair : ℕ → ℕ → Dict (Dict V) → Option V
  lookup_pair a b m = lookup b (prefix a m)

  unfoldable pub insert_pair : ℕ → ℕ → V → Dict (Dict V) → Dict (Dict V)
  insert_pair a b v m = insert a (insert b v (prefix a m)) m

  unfoldable pub erase_pair : ℕ → ℕ → Dict (Dict V) → Dict (Dict V)
  erase_pair a b m = insert a (erase b (prefix a m)) m

module _ {ℓ} {V : Type ℓ} where
  pub lookup_pair-insert_pair :
      (a b c d : ℕ) (v : V) (m : Dict (Dict V))
      → lookup_pair a b (insert_pair c d v m)
        ≡ (if (a == c) && (b == d) then some v else lookup_pair a b m)
  unfolding lookup_pair insert_pair
  lookup_pair-insert_pair a b c d v m =
      ground
        (arith, lookup-insert a c (insert d v (prefix c m)) m, lookup-insert b d v (prefix c m))

  pub lookup_pair-erase_pair :
      (a b c d : ℕ) (m : Dict (Dict V))
      → IsMap (prefix c m)
      → lookup_pair a b (erase_pair c d m)
        ≡ (if (a == c) && (b == d) then none else lookup_pair a b m)
  unfolding lookup_pair erase_pair
  lookup_pair-erase_pair a b c d m h =
      ground (arith, lookup-insert a c (erase d (prefix c m)) m, lookup-erase b d (prefix c m) h)

  -- Every prefix is a map.
  abbrev pub ArePrefixes : Dict (Dict V) → Type 0
  ArePrefixes m = (k : ℕ) → IsMap (prefix k m)

  pub insert_pair-ArePrefixes :
      (a b : ℕ) (v : V) (m : Dict (Dict V)) → ArePrefixes m → ArePrefixes (insert_pair a b v m)
  unfolding insert_pair
  insert_pair-ArePrefixes a b v m h k = ground (
    arith,
    h k,
    lookup-insert k a (insert b v (prefix a m)) m,
    insert-IsMap b v (prefix a m) (h a),
  )

  pub erase_pair-ArePrefixes :
      (a b : ℕ) (m : Dict (Dict V)) → ArePrefixes m → ArePrefixes (erase_pair a b m)
  unfolding erase_pair
  erase_pair-ArePrefixes a b m h k =
      ground
        (arith, h k, lookup-insert k a (erase b (prefix a m)) m, erase-IsMap b (prefix a m) (h a))

  -- A removal under another first key needs no order.
  pub lookup_pair-erase_pair_ne :
      (a b c d : ℕ) (m : Dict (Dict V))
      → a ≢ c
      → lookup_pair a b (erase_pair c d m) ≡ lookup_pair a b m
  unfolding lookup_pair erase_pair
  lookup_pair-erase_pair_ne a b c d m ne =
      ground (arith, lookup-insert a c (erase d (prefix c m)) m)

  pub prefix-insert_pair :
      (k a b : ℕ) (v : V) (m : Dict (Dict V))
      → prefix k (insert_pair a b v m) ≡ (if k == a then insert b v (prefix a m) else prefix k m)
  unfolding insert_pair
  prefix-insert_pair k a b v m = ground (arith, lookup-insert k a (insert b v (prefix a m)) m)
