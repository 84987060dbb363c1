-- ===== src/Base/Sort.antt =====
-- `sort` of a `Vec` by a key, and what it tells about repeated keys.
use cw_plus.Base.Tests.{leb, ◌==◌, if◌then◌else◌, length}
use Prim.Native.Nat.{ℕ, suc, ◌≤◌}
use mathlib.Core.Path.{◌≡◌, refl}
use mathlib.Core.Logic.{◌≢◌, ◌↔◌}
use mathlib.Core.Bool.{Bool, false, ◌||◌}
use mathlib.Core.List.{List, [], ◌∷◌}
use native.Mathlib.Omega.{arith}

module _ {ℓ} {A : Type ℓ} (key : A → ℕ) where
  unfoldable pub insert_sorted : A → List A → List A
  insert_sorted a [] = a ∷ []
  insert_sorted a (x ∷ xs) = if leb (key a) (key x) then a ∷ x ∷ xs else x ∷ insert_sorted a xs

  -- a stable sort, as `sort_by` is
  unfoldable pub sort_by : List A → List A
  unfolding insert_sorted
  sort_by [] = []
  sort_by (x ∷ xs) = insert_sorted x (sort_by xs)

  -- Whether two neighbours have one key.
  unfoldable pub has_equal_neighbours : List A → Bool
  has_equal_neighbours [] = false
  has_equal_neighbours (x ∷ []) = false
  has_equal_neighbours (x ∷ y ∷ ys) = key x == key y || has_equal_neighbours (y ∷ ys)

  -- No element has the key `k`.
  abbrev pub Fresh : ℕ → List A → Type 0
  Fresh k [] = Unit
  Fresh k (x ∷ xs) = (k ≢ key x) × Fresh k xs

  -- No key is repeated.
  abbrev pub AreDistinct : List A → Type 0
  AreDistinct [] = Unit
  AreDistinct (x ∷ xs) = Fresh (key x) xs × AreDistinct xs

module _ {ℓ} {A : Type ℓ} (key : A → ℕ) where
  -- The keys ascend, and are at least `n`.
  abbrev From : ℕ → List A → Type 0
  From n [] = Unit
  From n (x ∷ xs) = (n ≤ key x) × From (key x) xs

  insert_sorted-From :
      (n : ℕ) (a : A) (xs : List A) → n ≤ key a → From n xs → From n (insert_sorted key a xs)
  unfolding insert_sorted
  insert_sorted-From n a [] le h = (le, tt)
  insert_sorted-From n a (x ∷ xs) le h = ground (arith, insert_sorted-From (key x) a xs)

  sort_by-From : (xs : List A) → From 0 (sort_by key xs)
  unfolding sort_by
  sort_by-From [] = tt
  sort_by-From (x ∷ xs) = insert_sorted-From 0 x (sort_by key xs) (omega arith) (sort_by-From xs)

  insert_sorted-Fresh :
      (k : ℕ) (a : A) (xs : List A)
      → Fresh key k (insert_sorted key a xs) ↔ ((k ≢ key a) × Fresh key k xs)
  unfolding insert_sorted
  insert_sorted-Fresh k a [] = (λ h. h, λ h. h)
  insert_sorted-Fresh k a (x ∷ xs) = ground (arith, insert_sorted-Fresh k a xs)

  pub sort_by-Fresh : (k : ℕ) (xs : List A) → Fresh key k (sort_by key xs) ↔ Fresh key k xs
  unfolding sort_by
  sort_by-Fresh k [] = (λ h. h, λ h. h)
  sort_by-Fresh k (x ∷ xs) =
      ground (arith, insert_sorted-Fresh k x (sort_by key xs), sort_by-Fresh k xs)

  insert_sorted-AreDistinct :
      (a : A) (xs : List A)
      → AreDistinct key (insert_sorted key a xs) ↔ (Fresh key (key a) xs × AreDistinct key xs)
  unfolding insert_sorted
  insert_sorted-AreDistinct a [] = (λ h. h, λ h. h)
  insert_sorted-AreDistinct a (x ∷ xs) =
      ground (arith, insert_sorted-AreDistinct a xs, insert_sorted-Fresh (key x) a xs)

  pub sort_by-AreDistinct : (xs : List A) → AreDistinct key (sort_by key xs) ↔ AreDistinct key xs
  unfolding sort_by
  sort_by-AreDistinct [] = (λ h. h, λ h. h)
  sort_by-AreDistinct (x ∷ xs) = ground (
    arith,
    insert_sorted-AreDistinct x (sort_by key xs),
    sort_by-AreDistinct xs,
    sort_by-Fresh (key x) xs,
  )

  From-Fresh : (n k : ℕ) (xs : List A) → From n xs → suc k ≤ n → Fresh key k xs
  From-Fresh n k [] h le = tt
  From-Fresh n k (x ∷ xs) h le = (omega arith, From-Fresh (key x) k xs h.1 (omega arith))

  neighbours-AreDistinct :
      (n : ℕ) (xs : List A) → From n xs → (has_equal_neighbours key xs ≡ false) ↔ AreDistinct key xs
  unfolding has_equal_neighbours
  neighbours-AreDistinct n [] h = (λ _. tt, λ _. refl)
  neighbours-AreDistinct n (x ∷ []) h = (λ _. (tt, tt), λ _. refl)
  neighbours-AreDistinct n (x ∷ y ∷ ys) h =
      ground
        (arith, neighbours-AreDistinct (key x) (y ∷ ys) h.1, From-Fresh (key y) (key x) (y ∷ ys))

  -- Sorted neighbours differ exactly when no key is repeated.
  pub sorted_neighbours_lem :
      (xs : List A) → (has_equal_neighbours key (sort_by key xs) ≡ false) ↔ AreDistinct key xs
  sorted_neighbours_lem xs =
      ground
        (arith, neighbours-AreDistinct 0 (sort_by key xs) (sort_by-From xs), sort_by-AreDistinct xs)

-- `dedup`
unfoldable pub dedup : List ℕ → List ℕ
dedup [] = []
dedup (x ∷ []) = x ∷ []
dedup (x ∷ y ∷ ys) = let rest = dedup (y ∷ ys) in if x == y then rest else x ∷ rest

length-dedup-le : (xs : List ℕ) → length (dedup xs) ≤ length xs
unfolding dedup
length-dedup-le [] = omega arith
length-dedup-le (x ∷ []) = omega arith
length-dedup-le (x ∷ y ∷ ys) = ground (arith, length-dedup-le (y ∷ ys))

-- `dedup` leaves the length as it is exactly when no two neighbours are equal.
pub length-dedup :
    (xs : List ℕ) → (length (dedup xs) ≡ length xs) ↔ (has_equal_neighbours (λ x. x) xs ≡ false)
unfolding dedup has_equal_neighbours
length-dedup [] = (λ _. refl, λ _. refl)
length-dedup (x ∷ []) = (λ _. refl, λ _. refl)
length-dedup (x ∷ y ∷ ys) = ground (arith, length-dedup (y ∷ ys), length-dedup-le (y ∷ ys))

length-insert_sorted :
    (a : ℕ) (xs : List ℕ) → length (insert_sorted (λ x. x) a xs) ≡ suc (length xs)
unfolding insert_sorted
length-insert_sorted a [] = refl
length-insert_sorted a (x ∷ xs) = ground (arith, length-insert_sorted a xs)

pub length-sort_by : (xs : List ℕ) → length (sort_by (λ x. x) xs) ≡ length xs
unfolding sort_by
length-sort_by [] = refl
length-sort_by (x ∷ xs) =
    ground (arith, length-insert_sorted x (sort_by (λ x. x) xs), length-sort_by xs)
