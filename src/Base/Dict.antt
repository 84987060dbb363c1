-- ===== src/Base/Dict.antt =====
-- A `Map` of the contracts' storage: entries in ascending order of their keys, as a range of the
-- storage returns them. A map over pairs is a map of maps, one for each prefix.
pub mod Sum
pub mod Pairs
pub mod Absent
pub mod Page
use cw_plus.Base.Tests.{ltb, ◌==◌, if◌then◌else◌}
use Prim.Native.Nat.{ℕ, ◌≤◌, ◌<◌}
use mathlib.Core.Path.{◌≡◌, refl}
use mathlib.Core.Logic.{◌≢◌}
use mathlib.Core.Option.{Option, none, some}
use mathlib.Core.List.{List, [], ◌∷◌}
use native.Mathlib.Omega.{arith}

abbrev pub Dict {ℓ} : Type ℓ → Type ℓ
Dict V = List (ℕ × V)

module _ {ℓ} {V : Type ℓ} where
  -- `may_load`
  unfoldable pub lookup : ℕ → Dict V → Option V
  lookup k [] = none
  lookup k ((j, v) ∷ m) = if k == j then some v else lookup k m

  -- `save`
  unfoldable pub insert : ℕ → V → Dict V → Dict V
  insert k v [] = (k, v) ∷ []
  insert k v ((j, w) ∷ m) =
      if k == j then (k, v) ∷ m else if ltb k j then (k, v) ∷ (j, w) ∷ m else (j, w) ∷ insert k v m

  -- `remove`
  unfoldable pub erase : ℕ → Dict V → Dict V
  erase k [] = []
  erase k ((j, w) ∷ m) = if k == j then m else (j, w) ∷ erase k m

  -- Every key is above `k`.
  abbrev pub Above : ℕ → Dict V → Type 0
  Above k [] = Unit
  Above k ((j, _) ∷ m) = (k < j) × Above k m

  -- The keys ascend.
  abbrev pub IsMap : Dict V → Type 0
  IsMap [] = Unit
  IsMap ((j, _) ∷ m) = Above j m × IsMap m

module _ {ℓ} {V : Type ℓ} where
  pub lookup-insert :
      (j k : ℕ) (v : V) (m : Dict V)
      → lookup j (insert k v m) ≡ (if j == k then some v else lookup j m)
  unfolding lookup insert
  lookup-insert j k v [] = refl
  lookup-insert j k v ((i, w) ∷ m) = ground (arith, lookup-insert j k v m)

  -- Keys up to a bound below all keys are absent.
  pub lookup-Above : (k n : ℕ) (m : Dict V) → Above n m → k ≤ n → lookup k m ≡ none
  unfolding lookup
  lookup-Above k n [] h le = refl
  lookup-Above k n ((j, w) ∷ m) h le = ground (arith, lookup-Above k n m h.1 le)

  Above-mono : (k n : ℕ) (m : Dict V) → k ≤ n → Above n m → Above k m
  Above-mono k n [] le h = tt
  Above-mono k n ((j, w) ∷ m) le h = (omega arith, Above-mono k n m le h.1)

  insert-Above : (n k : ℕ) (v : V) (m : Dict V) → n < k → Above n m → Above n (insert k v m)
  unfolding insert
  insert-Above n k v [] lt h = (lt, tt)
  insert-Above n k v ((j, w) ∷ m) lt h = ground (arith, insert-Above n k v m lt h.1)

  pub insert-IsMap : (k : ℕ) (v : V) (m : Dict V) → IsMap m → IsMap (insert k v m)
  unfolding insert
  insert-IsMap k v [] h = (tt, tt)
  insert-IsMap k v ((j, w) ∷ m) h =
      ground (arith, insert-IsMap k v m h.1, insert-Above j k v m, Above-mono k j m)

  erase-Above : (n k : ℕ) (m : Dict V) → Above n m → Above n (erase k m)
  unfolding erase
  erase-Above n k [] h = tt
  erase-Above n k ((j, w) ∷ m) h = ground (arith, erase-Above n k m h.1)

  pub erase-IsMap : (k : ℕ) (m : Dict V) → IsMap m → IsMap (erase k m)
  unfolding erase
  erase-IsMap k [] h = tt
  erase-IsMap k ((j, w) ∷ m) h = ground (arith, erase-IsMap k m h.1, erase-Above j k m h.0)

  pub lookup-erase :
      (j k : ℕ) (m : Dict V)
      → IsMap m
      → lookup j (erase k m) ≡ (if j == k then none else lookup j m)
  unfolding lookup erase
  lookup-erase j k [] h = ground arith
  lookup-erase j k ((i, w) ∷ m) h = ground (arith, lookup-erase j k m h.1, lookup-Above j i m h.0)
