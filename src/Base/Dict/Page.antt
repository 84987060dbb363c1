-- ===== src/Base/Dict/Page.antt =====
-- `range(start, None, Ascending).take(limit)`: a page of the entries after an exclusive start.
use cw_plus.Base.Tests.{ltb, if◌then◌else◌, take}
use cw_plus.Base.Dict.{Dict, Above, IsMap}
use Prim.Native.Nat.{ℕ, zero, suc, ◌≤◌}
use mathlib.Core.Path.{◌≡◌, refl}
use mathlib.Core.Option.{Option, none, some}
use mathlib.Core.List.{[], ◌∷◌, ◌++◌, reverse}
use native.Mathlib.Omega.{arith}

module _ {ℓ} {V : Type ℓ} where
  -- the entries whose keys are above a bound
  unfoldable pub above : ℕ → Dict V → Dict V
  above k [] = []
  above k ((j, v) ∷ m) = if ltb k j then (j, v) ∷ above k m else above k m

  unfoldable pub range_from : Option ℕ → Dict V → Dict V
  range_from none m = m
  range_from (some k) m = above k m

  unfoldable pub page : Option ℕ → ℕ → Dict V → Dict V
  page start limit m = take limit (range_from start m)

  -- the entries whose keys are below an exclusive end
  unfoldable pub below : ℕ → Dict V → Dict V
  below k [] = []
  below k ((j, v) ∷ m) = if ltb j k then (j, v) ∷ below k m else below k m

  unfoldable pub range_before : Option ℕ → Dict V → Dict V
  range_before none m = m
  range_before (some k) m = below k m

  -- `range(None, end, Descending).take(limit)`
  unfoldable pub page_before : Option ℕ → ℕ → Dict V → Dict V
  page_before end limit m = take limit (reverse (range_before end m))

  abbrev pub last_from : ℕ → Dict V → ℕ
  last_from k [] = k
  last_from k ((j, _) ∷ m) = last_from j m

  -- The start of the page after a page: its last key.
  abbrev pub next_start : Option ℕ → Dict V → Option ℕ
  next_start start [] = start
  next_start start ((j, _) ∷ m) = some (last_from j m)

module _ {ℓ} {V : Type ℓ} where
  above-Above : (k j : ℕ) (m : Dict V) → Above j m → k ≤ j → above k m ≡ m
  unfolding above
  above-Above k j [] a le = refl
  above-Above k j ((i, v) ∷ m) a le = ground (arith, above-Above k j m a.1 le)

  above-head : (j : ℕ) (v : V) (m : Dict V) → Above j m → above j ((j, v) ∷ m) ≡ m
  unfolding above
  above-head j v m a = ground (arith, above-Above j j m a)

  Above-above : (k n : ℕ) (m : Dict V) → Above n m → Above n (above k m)
  unfolding above
  Above-above k n [] a = tt
  Above-above k n ((i, v) ∷ m) a = ground (arith, Above-above k n m a.1)

  above-IsMap : (k : ℕ) (m : Dict V) → IsMap m → IsMap (above k m)
  unfolding above
  above-IsMap k [] is = tt
  above-IsMap k ((i, v) ∷ m) is = ground (arith, above-IsMap k m is.1, Above-above k i m is.0)

  -- Above a larger bound, what is above a smaller one does not matter.
  above-above : (k j : ℕ) (m : Dict V) → k ≤ j → above j (above k m) ≡ above j m
  unfolding above
  above-above k j [] le = refl
  above-above k j ((i, v) ∷ m) le = ground (arith, above-above k j m le)

  last_from-take : (n j : ℕ) (m : Dict V) → Above j m → IsMap m → j ≤ last_from j (take n m)
  last_from-take zero j m a is = omega arith
  last_from-take (suc n) j [] a is = omega arith
  last_from-take (suc n) j ((i, v) ∷ m) a is = ground (arith, last_from-take n i m is.0 is.1)

  -- A page and the entries after its last key are the list.
  take-above :
      (n j : ℕ) (m : Dict V)
      → Above j m
      → IsMap m
      → take n m ++ above (last_from j (take n m)) m ≡ m
  unfolding above
  take-above zero j m a is = above-Above j j m a (omega arith)
  take-above (suc n) j [] a is = refl
  take-above (suc n) j ((i, v) ∷ m) a is =
      ground (arith, take-above n i m is.0 is.1, last_from-take n i m is.0 is.1)

  whole-page :
      (n : ℕ) (m : Dict V) → IsMap m → take n m ++ range_from (next_start none (take n m)) m ≡ m
  unfolding range_from above
  whole-page zero m is = refl
  whole-page (suc n) [] is = refl
  whole-page (suc n) ((i, v) ∷ m) is =
      ground (arith, take-above n i m is.0 is.1, last_from-take n i m is.0 is.1)

  above-Above_self : (k : ℕ) (m : Dict V) → IsMap m → Above k (above k m)
  unfolding above
  above-Above_self k [] is = tt
  above-Above_self k ((i, v) ∷ m) is =
      ground (arith, above-Above_self k m is.1, above-Above k i m is.0)

  page-Above :
      (n k : ℕ) (m : Dict V)
      → Above k m
      → IsMap m
      → take n m ++ range_from (next_start (some k) (take n m)) m ≡ m
  unfolding range_from above
  page-Above zero k m a is = above-Above k k m a (omega arith)
  page-Above (suc n) k [] a is = refl
  page-Above (suc n) k ((i, v) ∷ m) a is =
      ground (arith, take-above n i m is.0 is.1, last_from-take n i m is.0 is.1)

  next_start-some :
      (n k : ℕ) (m : Dict V)
      → Above k m
      → IsMap m
      → (l : ℕ) × (next_start (some k) (take n m) ≡ some l) × (k ≤ l)
  next_start-some zero k m a is = (k, refl, omega arith)
  next_start-some (suc n) k [] a is = (k, refl, omega arith)
  next_start-some (suc n) k ((i, v) ∷ m) a is =
      (last_from i (take n m), refl, omega (arith, last_from-take n i m is.0 is.1, a.0))

  -- A page, and the entries from its last key on, are the entries from its start.
  pub page-range_from :
      (start : Option ℕ) (n : ℕ) (m : Dict V)
      → IsMap m
      → page start n m ++ range_from (next_start start (page start n m)) m ≡ range_from start m
  unfolding page range_from
  page-range_from none n m is = whole-page n m is
  page-range_from (some k) n m is =
      let rest = above k m in
      let (l, reached, le) =
        next_start-some n k rest (above-Above_self k m is) (above-IsMap k m is) in
      let whole : take n rest ++ range_from (next_start (some k) (take n rest)) rest ≡ rest =
        page-Above n k rest (above-Above_self k m is) (above-IsMap k m is) in
      ground (arith, above-above k l m le)
