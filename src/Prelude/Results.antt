-- ===== src/Prelude/Results.antt =====
-- `Result<T, E>` with its `?`, and the `?` of `Option`.
use mathlib.Core.Path.{◌≡◌, refl}
use mathlib.Core.Logic.{◌⊎◌, inl, inr}
use mathlib.Core.Option.{Option, none, some}

pub data Result {ℓ κ} (E : Type ℓ) (A : Type κ) : Type (ℓ ⊔ κ) where
  ok : A → Result E A
  err : E → Result E A

module _ {ε α β} {E : Type ε} {A : Type α} {B : Type β} where
  -- `Result::and_then`
  abbrev pub and_then : (A → Result E B) → Result E A → Result E B
  and_then next (ok a) = next a
  and_then next (err e) = err e

  infixl 10 ◌>>=◌
  abbrev pub ◌>>=◌ : Result E A → (A → Result E B) → Result E B
  r >>= next = and_then next r

module _ {ε β} {E : Type ε} {B : Type β} where
  infixl 10 ◌>>◌
  abbrev pub ◌>>◌ : Result E (Unit {0}) → Result E B → Result E B
  r >> next = and_then (λ u. next) r

-- `ok_or_else`
abbrev pub ok_or {ℓ κ} : {E : Type ℓ} {A : Type κ} → Option A → E → Result E A
ok_or none e = err e
ok_or (some a) e = ok a

-- To split on a computed result and keep the equation.
pub Result-cases {ε α} :
    {E : Type ε} {A : Type α} (r : Result E A) → ((a : A) × (r ≡ ok a)) ⊎ ((e : E) × (r ≡ err e))
Result-cases (ok a) = inl (a, refl)
Result-cases (err e) = inr (e, refl)
