-- ===== src/Prelude/Stateful.antt =====
-- Operations that change a state and may fail, as `do` blocks with `?`. A failure keeps the changes
-- that were made before it.
use helixdb.Prelude.Results.{Result, ok, err}

abbrev pub Op {ℓ κ μ} : Type ℓ → Type κ → Type μ → Type (ℓ ⊔ κ ⊔ μ)
Op S E A = S → S × Result E A

module _ {ℓ κ μ} {S : Type ℓ} {E : Type κ} {A : Type μ} where
  abbrev pub pure : A → Op S E A
  pure a s = (s, ok a)

  abbrev pub fail : E → Op S E A
  fail e s = (s, err e)

  -- a result that does not touch the state
  abbrev pub lift : Result E A → Op S E A
  lift r s = (s, r)

  -- `?` on a value that is read off the state
  abbrev pub reads : (S → Result E A) → Op S E A
  reads f s = (s, f s)

module _ {ℓ κ μ ν} {S : Type ℓ} {E : Type κ} {A : Type μ} {B : Type ν} where
  abbrev pub continue : (A → Op S E B) → S × Result E A → S × Result E B
  continue f (s, ok a) = f a s
  continue f (s, err e) = (s, err e)

  infixl 10 ◌>>=◌
  abbrev pub ◌>>=◌ : Op S E A → (A → Op S E B) → Op S E B
  (m >>= f) s = continue f (m s)

module _ {ℓ κ ν} {S : Type ℓ} {E : Type κ} {B : Type ν} where
  infixl 10 ◌>>◌
  abbrev pub ◌>>◌ : Op S E (Unit {0}) → Op S E B → Op S E B
  (m >> k) s = continue (λ u. k) (m s)

abbrev pub modify {ℓ κ} : {S : Type ℓ} {E : Type κ} → (S → S) → Op S E (Unit {0})
modify f s = (f s, ok tt)
