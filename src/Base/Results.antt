-- ===== src/Base/Results.antt =====
-- Fallible code. A handler of a contract returns `ok`, an error of its `Result`, or it panics (an
-- arithmetic overflow); the chain drops the writes of a call that does not return `ok`.
use mathlib.Core.Path.{◌≡◌, refl}
use mathlib.Core.Logic.{◌⊎◌, inl, inr}
use mathlib.Core.Bool.{Bool, true, false}
use mathlib.Core.Option.{Option, none, some}

pub data Result {ℓ κ} (E : Type κ) (A : Type ℓ) : Type (ℓ ⊔ κ) where
  panic : Result E A
  err : E → Result E A
  ok : A → Result E A

infixl 5 ◌>>=◌ ◌>>◌
abbrev pub ◌>>=◌ {ℓ κ μ} :
    {E : Type μ} {A : Type ℓ} {B : Type κ} → Result E A → (A → Result E B) → Result E B
panic >>= next = panic
err e >>= next = err e
ok a >>= next = next a

abbrev pub ◌>>◌ {ℓ μ} : {E : Type μ} {B : Type ℓ} → Result E (Unit {0}) → Result E B → Result E B
m >> k = m >>= λ _. k

module _ {ℓ μ} {E : Type μ} {A : Type ℓ} where
  -- `opt.ok_or(e)?`
  abbrev pub ok_or : Option A → E → Result E A
  ok_or none e = err e
  ok_or (some a) e = ok a

  -- the operator `?` with a conversion of the error
  abbrev pub map_err {κ} : {D : Type κ} → (D → E) → Result D A → Result E A
  map_err f (ok a) = ok a
  map_err f (err d) = err (f d)
  map_err f panic = panic

  -- a panic where there is no value
  abbrev pub or_panic : Option A → Result E A
  or_panic none = panic
  or_panic (some a) = ok a

-- `if !cond { return Err(e) }`
abbrev pub ensure {μ} : {E : Type μ} → Bool → E → Result E (Unit {0})
ensure true e = ok tt
ensure false e = err e

-- To split on a computed result and keep the equation.
pub Result-cases {ℓ μ} :
    {E : Type μ} {A : Type ℓ} (r : Result E A)
    → ((a : A) × (r ≡ ok a)) ⊎ (((e : E) × (r ≡ err e)) ⊎ (r ≡ panic))
Result-cases (ok a) = inl (a, refl)
Result-cases (err e) = inr (inl (e, refl))
Result-cases panic = inr (inr refl)
