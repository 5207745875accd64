-- ===== src/Sharding/Exclusive.antt =====
-- The map of the authority in sharding.rs: which insertions leave its ranges apart.
use helixdb.Prelude.{ℕ, subst, ◌≡◌, inl, inr, true, false, some, arith}
use helixdb.Prelude.Bytes.{Bytes}
use helixdb.Prelude.Order.{nat_ord, bytes_ord, eqb}
use helixdb.BTreeMap
use helixdb.BTreeMap.{BTreeMap}
use helixdb.BTreeMap.Laws.{get-insert_cases}
use helixdb.Sharding.Range.{RangeDescriptor, contains}
use helixdb.Sharding.Apart.{Disjoint}

-- The descriptors at two ids have no key in common.
pub record Exclusive (m : BTreeMap ℕ RangeDescriptor) : Type 0 where
  pub apart :
      (i j : ℕ) (d e : RangeDescriptor)
      → eqb i j ≡ false
      → BTreeMap.get m i ≡ some d
      → BTreeMap.get m j ≡ some e
      → Disjoint d e

-- A descriptor that may be inserted at the id.
pub record FitsAt (k : ℕ) (v : RangeDescriptor) (m : BTreeMap ℕ RangeDescriptor) : Type 0 where
  pub fits :
      (i : ℕ) (d : RangeDescriptor) → eqb i k ≡ false → BTreeMap.get m i ≡ some d → Disjoint d v

pub Disjoint-sym : (d e : RangeDescriptor) → Disjoint d e → Disjoint e d
Disjoint-sym d e h = record { outside = λ key inside. ground (arith, h.outside key) }

-- Each key of the one is in the other.
pub record Within (part d : RangeDescriptor) : Type 0 where
  pub within : (key : Bytes) → contains part key ≡ true → contains d key ≡ true

nat_far : (i j k : ℕ) → eqb i j ≡ false → eqb i k ≡ true → eqb j k ≡ true → ⊥
nat_far i j k far a b = ground (arith)

pub Exclusive-insert :
    (m : BTreeMap ℕ RangeDescriptor) (k : ℕ) (v : RangeDescriptor)
    → Exclusive m
    → FitsAt k v m
    → Exclusive (BTreeMap.insert m k v)
Exclusive-insert m k v h f = record {
  apart = λ i j d e far p q. elim (get-insert_cases m k i v d p) [
    | inl (a, old) ↦ elim (get-insert_cases m k j v e q) [
      | inl (b, other) ↦ absurd (nat_far i j k far a b)
      | inr (b, other) ↦ subst (λ x. Disjoint x e) old (Disjoint-sym e v (f.fits j e b other))
    ]
    | inr (a, old) ↦ elim (get-insert_cases m k j v e q) [
      | inl (b, other) ↦ subst (λ x. Disjoint d x) other (f.fits i d a old)
      | inr (b, other) ↦ h.apart i j d e far old other
    ]
  ];
}

pub Disjoint-Within : (e d part : RangeDescriptor) → Disjoint e d → Within part d → Disjoint e part
Disjoint-Within e d part h w = record {
  outside = λ key inside. ground (arith, w.within key, h.outside key inside);
}

-- What fits beside a range fits beside a part of it.
pub FitsAt-part :
    (m : BTreeMap ℕ RangeDescriptor) (k : ℕ) (d part : RangeDescriptor)
    → Within part d
    → Exclusive m
    → BTreeMap.get m k ≡ some d
    → FitsAt k part m
FitsAt-part m k d part w h p = record {
  fits = λ i e far q. Disjoint-Within e d part (h.apart i k e d far q p) w;
}
