-- ===== src/Prelude/Branches.antt =====
-- A predicate of both branches of a conditional holds of the conditional, also where an operation
-- gives a state together with an answer.
use mathlib.Core.Path.{◌≡◌, refl}
use mathlib.Core.Bool.{Bool, true, false}
use helixdb.Prelude.Tests.{if◌then◌else◌}

module _ {ℓ κ} {A : Type ℓ} (P : A → Type κ) where
  pub if_both : (b : Bool) {x y : A} → P x → P y → P (if b then x else y)
  if_both true h k = h
  if_both false h k = k

  pub if_cases :
      (b : Bool) {x y : A} → (b ≡ true → P x) → (b ≡ false → P y) → P (if b then x else y)
  if_cases true h k = h refl
  if_cases false h k = k refl

  -- `P` holds of the state.
  pub record OnFirst {μ} {R : Type μ} (p : A × R) : Type κ where
    pub state : P p.0

  pub OnFirst-if :
      {R : Type 0} (b : Bool) {p q : A × R} → OnFirst p → OnFirst q → OnFirst (if b then p else q)
  OnFirst-if true h k = h
  OnFirst-if false h k = k
