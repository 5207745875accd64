-- ===== src/Sharding/Halves.antt =====
-- The two descriptors that a split of sharding.rs leaves, and the map of the authority behind it.
use helixdb.Prelude.{ap, ℕ, subst, ◌≡◌, inl, inr, Option-cases, true, Option, some, List, ok, arith}
use helixdb.Prelude.Bytes.{Bytes}
use helixdb.Prelude.Order.{nat_ord, bytes_ord, less, less_of_le_less, le_trans, le_of_less}
use helixdb.BTreeMap
use helixdb.BTreeMap.{BTreeMap}
use helixdb.BTreeMap.Laws.{get-insert_cases}
use helixdb.Sharding.Range.{RangeDescriptor, contains}
use helixdb.Sharding.Apart.{Disjoint}
use helixdb.Sharding.Exclusive.{Exclusive, Exclusive-insert, FitsAt-part, Within, Disjoint-Within}
use helixdb.Sharding.Split.{check_boundary, left_of, right_of}

-- The range that the map has at the id now has the bounds of the descriptor; the epoch and the hint
-- of the leader may be others.
pub record HasBounds (m : BTreeMap ℕ RangeDescriptor) (id : ℕ) (d : RangeDescriptor) : Type 0 where
  pub now : RangeDescriptor
  pub is_now : BTreeMap.get m id ≡ some now
  pub same_start : d.start ≡ now.start
  pub same_end : d.end ≡ now.end

Within-trans : (a b c : RangeDescriptor) → Within a b → Within b c → Within a c
Within-trans a b c h k = record { within = λ key inside. k.within key (h.within key inside) }

HasBounds-Within :
    (m : BTreeMap ℕ RangeDescriptor) (id : ℕ) (d : RangeDescriptor)
    → (p : HasBounds m id d) → Within d p.now
unfolding contains
HasBounds-Within m id d p = record {
  within = λ key inside. ground (arith, inside, p.same_end, ap (λ x. less key x) p.same_start);
}

-- What `check_boundary` lets through.
pub record Inside (boundary : Bytes) (d : RangeDescriptor) : Type 0 where
  pub above : less d.start boundary ≡ true
  pub below : (end : Bytes) → d.end ≡ some end → less boundary end ≡ true

pub check_boundary-Inside :
    (d : RangeDescriptor) (boundary : Bytes) (l : List (Bytes × Bytes))
    → check_boundary d boundary l ≡ ok tt
    → Inside boundary d
unfolding check_boundary
check_boundary-Inside d boundary l h = record {
  above = ground (arith, h);
  below = λ end q. ground (arith, h, q);
}

module _ (d : RangeDescriptor) (boundary : Bytes) (within : Inside boundary d) where
  left_of-Within : (id : ℕ) (leader : Option ℕ) → Within (left_of d id boundary leader) d
  unfolding contains left_of
  left_of-Within id leader = record {
    within = λ key inside. elim (Option-cases d.end) [
      | inl q ↦ ground (arith, q, inside)
      | inr (end, q) ↦ ground (
        arith,
        q,
        inside,
        le_of_less key boundary,
        less_of_le_less key boundary end,
        within.below end q,
      )
    ];
  }

  right_of-Within : (id : ℕ) (leader : Option ℕ) → Within (right_of d id boundary leader) d
  unfolding contains right_of
  right_of-Within id leader = record {
    within = λ key inside.
        ground
          (arith, inside, le_trans d.start boundary key (le_of_less d.start boundary within.above));
  }

  left_of-right_of :
      (i j : ℕ) (a b : Option ℕ) → Disjoint (left_of d i boundary a) (right_of d j boundary b)
  unfolding contains left_of right_of
  left_of-right_of i j a b = record { outside = λ key inside. ground (arith, inside) }

  -- Both halves take the place of the range that the map has now, with the bounds of the descriptor.
  pub halves-Exclusive :
      (m : BTreeMap ℕ RangeDescriptor) (i j : ℕ) (a b : Option ℕ)
      → Exclusive m
      → HasBounds m i d
      → Exclusive (
          BTreeMap.insert
            (BTreeMap.insert m i (left_of d i boundary a))
            j
            (right_of d j boundary b))
  halves-Exclusive m i j a b h p =
      let left = left_of d i boundary a in
      let right = right_of d j boundary b in
      let whole = HasBounds-Within m i d p in
      Exclusive-insert (BTreeMap.insert m i left) j right
        (Exclusive-insert m i left h (
          FitsAt-part m i p.now left (Within-trans left d p.now (left_of-Within i a) whole) h
            p.is_now))
        (record {
          fits = λ n e far q. elim (get-insert_cases m i n left e q) [
            | inl (same, old) ↦ subst (λ x. Disjoint x right) old (left_of-right_of i j a b)
            | inr (other, old) ↦
                Disjoint-Within e p.now right (h.apart n i e p.now other old p.is_now)
                  (Within-trans right d p.now (right_of-Within j b) whole)
          ];
        })
