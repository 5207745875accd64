-- ===== src/BTreeMap/Laws.antt =====
-- What `get` returns after each operation, with no condition on the map.
use helixdb.Prelude.{
  ◌≡◌, ◌⊎◌, inl, inr, Bool-cases, true, false, refl, Option, none, some, List, [], ◌∷◌,
  if◌then◌else◌, arith,
}
use helixdb.Prelude.Order.{Ord, eqb, eqb_refl}
use helixdb.BTreeMap.{BTreeMap, get, insert, remove, extend}

module _ {ℓ κ} {K : Type ℓ} {V : Type κ} ⦃o : Ord K⦄ where
  pub get_empty : (j : K) → get {V = V} [] j ≡ none
  unfolding get
  get_empty j = refl

  pub get-cons :
      (m : BTreeMap K V) (k j : K) (v : V)
      → get ((k, v) ∷ m) j ≡ (if eqb j k then some v else get m j)
  unfolding get
  get-cons m k j v = ground arith

  pub get-insert :
      (m : BTreeMap K V) (k j : K) (v : V)
      → get (insert m k v) j ≡ (if eqb j k then some v else get m j)
  unfolding get insert
  get-insert [] k j v = ground arith
  get-insert ((i, w) ∷ m) k j v =
      ground (arith, get-insert m k j v, o.eq_of_cmp k i, o.eq_of_cmp j k, o.cmp_refl k)

  pub get-insert_self : (m : BTreeMap K V) (k : K) (v : V) → get (insert m k v) k ≡ some v
  get-insert_self m k v = rw (get-insert m k k v, eqb_refl k)

  pub get-remove :
      (m : BTreeMap K V) (k j : K) → get (remove m k) j ≡ (if eqb j k then none else get m j)
  unfolding get remove
  get-remove [] k j = ground arith
  get-remove ((i, w) ∷ m) k j =
      ground (arith, get-remove m k j, o.eq_of_cmp k i, o.eq_of_cmp j k, o.cmp_refl k)

  -- the last entry of the key in the list, or else what was there
  abbrev pub last_of : List (K × V) → K → Option V → Option V
  last_of [] j old = old
  last_of ((k, v) ∷ l) j old = last_of l j (if eqb j k then some v else old)

  pub get-extend :
      (m : BTreeMap K V) (l : List (K × V)) (j : K) → get (extend m l) j ≡ last_of l j (get m j)
  unfolding extend
  get-extend m [] j = refl
  get-extend m ((k, v) ∷ l) j = rw (get-extend (insert m k v) l j, get-insert m k j v)

  pub ruleset get_laws = (get-insert, get-remove, get-extend)

  -- An entry of the map after an insertion is the one inserted or an old one.
  pub get-insert_cases :
      (m : BTreeMap K V) (k j : K) (v w : V)
      → get (insert m k v) j ≡ some w
      → ((eqb j k ≡ true) × (v ≡ w)) ⊎ ((eqb j k ≡ false) × (get m j ≡ some w))
  get-insert_cases m k j v w h = elim (Bool-cases (eqb j k)) [
    | inl e ↦ inl (e, ground (arith, e, h, get-insert m k j v))
    | inr e ↦ inr (e, ground (arith, e, h, get-insert m k j v))
  ]
