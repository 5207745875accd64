-- ===== src/BTreeMap.antt =====
-- `std::collections::BTreeMap`: its entries in the order of their keys, which is the order that
-- iteration shows. The crate's maps have byte strings or `u64` numbers as keys.
pub mod Laws
pub mod Sorted
use Prim.Native.Nat.Ordering.{lt, eq, gt}
use helixdb.Prelude.{Bool, false, true, Option, none, some, List, [], ◌∷◌}
use helixdb.Prelude.Order.{Ord}

abbrev pub BTreeMap {ℓ κ} : Type ℓ → Type κ → Type (ℓ ⊔ κ)
BTreeMap K V = List (K × V)

abbrev pub is_some {ℓ} : {A : Type ℓ} → Option A → Bool
is_some none = false
is_some (some a) = true

module _ {ℓ κ} {K : Type ℓ} {V : Type κ} ⦃o : Ord K⦄ where
  unfoldable pub get : BTreeMap K V → K → Option V
  get [] k = none
  get ((j, w) ∷ m) k =
      let rest = get m k in elim (o.cmp k j) [ eq ↦ some w | lt ↦ rest | gt ↦ rest ]

  unfoldable pub insert : BTreeMap K V → K → V → BTreeMap K V
  insert [] k v = (k, v) ∷ []
  insert ((j, w) ∷ m) k v =
      let rest = insert m k v in
      elim (o.cmp k j) [ lt ↦ (k, v) ∷ (j, w) ∷ m | eq ↦ (k, v) ∷ m | gt ↦ (j, w) ∷ rest ]

  unfoldable pub remove : BTreeMap K V → K → BTreeMap K V
  remove [] k = []
  remove ((j, w) ∷ m) k =
      let rest = remove m k in
      elim (o.cmp k j) [ eq ↦ rest | lt ↦ (j, w) ∷ rest | gt ↦ (j, w) ∷ rest ]

  abbrev pub contains_key : BTreeMap K V → K → Bool
  contains_key m k = is_some (get m k)

  -- `extend`, and `collect` from an iterator: one insertion after the other
  unfoldable pub extend : BTreeMap K V → List (K × V) → BTreeMap K V
  extend m [] = m
  extend m ((k, v) ∷ l) = extend (insert m k v) l
