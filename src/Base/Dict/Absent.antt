-- ===== src/Base/Dict/Absent.antt =====
-- A list of things with keys, none of which a map holds yet: what a loop of `save`s starts from.
use cw_plus.Base.Sort.{Fresh}
use cw_plus.Base.Dict.{Dict, lookup, insert, lookup-insert}
use Prim.Native.Nat.{ℕ}
use mathlib.Core.Path.{◌≡◌, refl}
use mathlib.Core.Option.{none}
use mathlib.Core.List.{List, [], ◌∷◌}
use native.Mathlib.Omega.{arith}

module _ {ℓ κ} {A : Type ℓ} {V : Type κ} (key : A → ℕ) where
  abbrev pub Absent : List A → Dict V → Type κ
  Absent [] m = Unit
  Absent (x ∷ xs) m = (lookup (key x) m ≡ none) × Absent xs m

  pub insert-Absent :
      (k : ℕ) (v : V) (xs : List A) (m : Dict V)
      → Fresh key k xs
      → Absent xs m
      → Absent xs (insert k v m)
  insert-Absent k v [] m f y = tt
  insert-Absent k v (x ∷ xs) m f y =
      ground (arith, insert-Absent k v xs m f.1 y.1, lookup-insert (key x) k v m)

  -- An empty map holds nothing.
  pub Absent-nil : (xs : List A) (m : Dict V) → m ≡ [] → Absent xs m
  unfolding lookup
  Absent-nil [] m e = tt
  Absent-nil (x ∷ xs) m e = (rw e refl, Absent-nil xs m e)
