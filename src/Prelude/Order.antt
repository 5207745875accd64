-- ===== src/Prelude/Order.antt =====
-- The trait bound `K: Ord` with its laws, for `u64` keys and for byte strings.
use Prim.Native.Nat.{ℕ, compare, Ordering}
use Prim.Native.Nat.Ordering.{lt, eq, gt}
use mathlib.Core.Path.{◌≡◌, refl}
use mathlib.Core.Bool.{Bool, true, false}
use mathlib.Core.List.{List, [], ◌∷◌}
use native.Mathlib.Omega.{arith}

-- The method, transitivity, the two orders of the arguments, and when they are equal.
pub record Ord {ℓ} (K : Type ℓ) : Type ℓ where
  pub cmp : K → K → Ordering
  pub lt_trans : (x y z : K) → cmp x y ≡ lt → cmp y z ≡ lt → cmp x z ≡ lt
  pub gt_of_lt : (x y : K) → cmp x y ≡ lt → cmp y x ≡ gt
  pub lt_of_gt : (x y : K) → cmp x y ≡ gt → cmp y x ≡ lt
  pub cmp_refl : (x : K) → cmp x x ≡ eq
  pub eq_of_cmp : (x y : K) → cmp x y ≡ eq → x ≡ y

pub compare_trans : (x y z : ℕ) → compare x y ≡ lt → compare y z ≡ lt → compare x z ≡ lt
compare_trans x y z h k = ground arith

pub gt_of_compare : (x y : ℕ) → compare x y ≡ lt → compare y x ≡ gt
gt_of_compare x y h = ground arith

pub lt_of_compare : (x y : ℕ) → compare x y ≡ gt → compare y x ≡ lt
lt_of_compare x y h = ground arith

pub compare_refl : (x : ℕ) → compare x x ≡ eq
compare_refl x = ground arith

pub eq_of_compare : (x y : ℕ) → compare x y ≡ eq → x ≡ y
eq_of_compare x y h = ground arith

instance abbrev pub nat_ord : Ord ℕ
nat_ord = record {
  cmp = compare;
  lt_trans = compare_trans;
  gt_of_lt = gt_of_compare;
  lt_of_gt = lt_of_compare;
  cmp_refl = compare_refl;
  eq_of_cmp = eq_of_compare;
}

-- `<[u8] as Ord>::cmp` compares byte by byte; a proper prefix comes first.
unfoldable pub bytes_cmp : List ℕ → List ℕ → Ordering
bytes_cmp [] [] = eq
bytes_cmp [] (y ∷ ys) = lt
bytes_cmp (x ∷ xs) [] = gt
bytes_cmp (x ∷ xs) (y ∷ ys) =
    let rest = bytes_cmp xs ys in elim (compare x y) [ lt ↦ lt | eq ↦ rest | gt ↦ gt ]

pub bytes_cmp_refl : (a : List ℕ) → bytes_cmp a a ≡ eq
unfolding bytes_cmp
bytes_cmp_refl [] = refl
bytes_cmp_refl (x ∷ xs) = ground (arith, bytes_cmp_refl xs)

pub eq_of_bytes_cmp : (a b : List ℕ) → bytes_cmp a b ≡ eq → a ≡ b
unfolding bytes_cmp
eq_of_bytes_cmp [] [] h = refl
eq_of_bytes_cmp [] (y ∷ ys) h = cc
eq_of_bytes_cmp (x ∷ xs) [] h = cc
eq_of_bytes_cmp (x ∷ xs) (y ∷ ys) h = ground (arith, eq_of_bytes_cmp xs ys)

pub lt_of_bytes_cmp : (a b : List ℕ) → bytes_cmp a b ≡ gt → bytes_cmp b a ≡ lt
unfolding bytes_cmp
lt_of_bytes_cmp [] [] h = cc
lt_of_bytes_cmp [] (y ∷ ys) h = cc
lt_of_bytes_cmp (x ∷ xs) [] h = refl
lt_of_bytes_cmp (x ∷ xs) (y ∷ ys) h = ground (arith, lt_of_bytes_cmp xs ys)

pub gt_of_bytes_cmp : (a b : List ℕ) → bytes_cmp a b ≡ lt → bytes_cmp b a ≡ gt
unfolding bytes_cmp
gt_of_bytes_cmp [] [] h = cc
gt_of_bytes_cmp [] (y ∷ ys) h = refl
gt_of_bytes_cmp (x ∷ xs) [] h = cc
gt_of_bytes_cmp (x ∷ xs) (y ∷ ys) h = ground (arith, gt_of_bytes_cmp xs ys)

pub bytes_cmp_trans :
    (a b c : List ℕ) → bytes_cmp a b ≡ lt → bytes_cmp b c ≡ lt → bytes_cmp a c ≡ lt
unfolding bytes_cmp
bytes_cmp_trans [] [] c h k = cc
bytes_cmp_trans [] (y ∷ ys) [] h k = cc
bytes_cmp_trans [] (y ∷ ys) (z ∷ zs) h k = refl
bytes_cmp_trans (x ∷ xs) [] c h k = cc
bytes_cmp_trans (x ∷ xs) (y ∷ ys) [] h k = cc
bytes_cmp_trans (x ∷ xs) (y ∷ ys) (z ∷ zs) h k = ground (arith, bytes_cmp_trans xs ys zs)

instance abbrev pub bytes_ord : Ord (List ℕ)
bytes_ord = record {
  cmp = bytes_cmp;
  lt_trans = bytes_cmp_trans;
  gt_of_lt = gt_of_bytes_cmp;
  lt_of_gt = lt_of_bytes_cmp;
  cmp_refl = bytes_cmp_refl;
  eq_of_cmp = eq_of_bytes_cmp;
}

module _ {ℓ} {K : Type ℓ} ⦃o : Ord K⦄ where
  -- `a == b`
  abbrev pub eqb : K → K → Bool
  eqb a b = elim (o.cmp a b) [ eq ↦ true | _ ↦ false ]

  -- `a < b`
  abbrev pub less : K → K → Bool
  less a b = elim (o.cmp a b) [ lt ↦ true | _ ↦ false ]

  pub eqb_refl : (a : K) → eqb a a ≡ true
  eqb_refl a = ground (arith, o.cmp_refl a)

  pub eq_of_eqb : (a b : K) → eqb a b ≡ true → a ≡ b
  eq_of_eqb a b h = ground (arith, o.eq_of_cmp a b)

  -- `a <= b` is that `b < a` does not hold.
  pub less_of_le_less : (a b c : K) → less b a ≡ false → less b c ≡ true → less a c ≡ true
  less_of_le_less a b c h k =
      ground
        (arith, o.eq_of_cmp a b, o.eq_of_cmp b a, o.gt_of_lt a b, o.lt_of_gt b a, o.lt_trans a b c)

  pub le_trans : (a b c : K) → less b a ≡ false → less c b ≡ false → less c a ≡ false
  le_trans a b c h k = ground (arith, less_of_le_less b c a k)

  pub le_of_less : (a b : K) → less a b ≡ true → less b a ≡ false
  le_of_less a b h = ground (arith, o.gt_of_lt a b)

  pub less_irrefl : (a : K) → less a a ≡ false
  less_irrefl a = ground (arith, o.cmp_refl a)
