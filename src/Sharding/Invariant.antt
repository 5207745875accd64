-- ===== src/Sharding/Invariant.antt =====
-- The ranges of the authority in sharding.rs stay apart under the operations of `ShardedCluster`.
use helixdb.Prelude.{
  ℕ, ◌≡◌, ◌∙◌, refl, ap, sym, subst, inl, inr, Option-cases, Result-cases, some, List, ok, arith,
}
use helixdb.Prelude.Bytes.{Bytes}
use helixdb.Prelude.Order.{nat_ord, bytes_ord}
use helixdb.Prelude.Stateful.{lift, reads, continue}
use helixdb.Prelude.Triples.{
  Triple, continue_leads, bind_Triple, then_Triple, check_Triple, reads_bind_Triple, reads-Triple,
}
use helixdb.BTreeMap
use helixdb.BTreeMap.{BTreeMap}
use helixdb.Errors.{DbResult}
use helixdb.Sharding.Range.{RangeDescriptor}
use helixdb.Sharding.Group.{RaftCluster}
use helixdb.Sharding.Exclusive.{Exclusive}
use helixdb.Sharding.Halves.{Inside, check_boundary-Inside, halves-Exclusive, HasBounds}
use helixdb.Sharding.Cluster.{
  ShardedCluster, Turn, on_group, descriptor, range_group, current_leader, items_from,
}
use helixdb.Sharding.Split.{
  check_boundary, next_split_range_id, fill_group, delete_items, install,
  split_range_at_locked_descriptor, group_entries, begin_split_range_at, finish_split_range_at,
  split_range_at, split_hot_range,
}

module _ {C : Type 0} (g : RaftCluster C) where
  -- The map of the authority is this one.
  pub record Has (m : BTreeMap ℕ RangeDescriptor) (s : ShardedCluster C) : Type 0 where
    pub same : s.authoritative ≡ m

  -- The map of the authority has no two ranges with a key in common.
  pub record IsApart (s : ShardedCluster C) : Type 0 where
    pub exclusive : Exclusive s.authoritative

  pub on_group-authoritative :
      {A : Type 0} (s : ShardedCluster C) (id : ℕ) (method : C → C × DbResult A)
      → (on_group g id method s).0.authoritative ≡ s.authoritative
  unfolding on_group
  on_group-authoritative s id method = elim (Option-cases (BTreeMap.get s.groups id)) [
    | inl e ↦ ground (arith, e)
    | inr (c, e) ↦ ground (arith, e)
  ]

  pub on_group-Has :
      {A : Type 0} (m : BTreeMap ℕ RangeDescriptor) (id : ℕ) (method : C → C × DbResult A)
      → Triple (Has m) (Has m) (on_group g id method)
  on_group-Has m id method = record {
    leads = λ s h. record { same = on_group-authoritative s id method ∙ h.same };
  }

  fill_group-Has :
      (m : BTreeMap ℕ RangeDescriptor) (id : ℕ) (l : List (Bytes × Bytes))
      → Triple (Has m) (Has m) (fill_group g id l)
  unfolding fill_group
  fill_group-Has m id l = record { leads = λ s h. record { same = ground (arith, h.same) } }

  next_split_range_id-Has :
      (m : BTreeMap ℕ RangeDescriptor) → Triple (Has m) (Has m) (next_split_range_id g)
  unfolding next_split_range_id
  next_split_range_id-Has m = record { leads = λ s h. record { same = h.same } }

  -- The authority has the range of the descriptor, at the boundary's both sides.
  module _ (m : BTreeMap ℕ RangeDescriptor) (h : Exclusive m) where
    Has-IsApart : (s : ShardedCluster C) → Has m s → IsApart s
    Has-IsApart s p = record { exclusive = subst Exclusive (sym p.same) h }

    install-IsApart :
        (d : RangeDescriptor) (range_id new_id : ℕ) (boundary : Bytes) (c : C)
        → Inside boundary d
        → HasBounds m range_id d
        → Triple (Has m) IsApart (install g d range_id new_id boundary c)
    unfolding install
    install-IsApart d range_id new_id boundary c i p = record {
      leads = λ s q. record {
        exclusive =
            halves-Exclusive d boundary i s.authoritative range_id new_id
              (current_leader g s range_id) (g.leader_id c) (Has-IsApart s q).exclusive
              (subst (λ x. HasBounds x range_id d) (sym q.same) p);
      };
    }

    split_locked-IsApart :
        (range_id : ℕ) (boundary : Bytes) (d : RangeDescriptor) (l : List (Bytes × Bytes))
        → HasBounds m range_id d
        → Triple (Has m) IsApart (split_range_at_locked_descriptor g range_id boundary d l)
    unfolding split_range_at_locked_descriptor
    split_locked-IsApart range_id boundary d l p =
        check_Triple (check_boundary d boundary l) _ Has-IsApart (λ e.
          bind_Triple (next_split_range_id g) _ Has-IsApart (next_split_range_id-Has m) (λ new_id.
            bind_Triple (fill_group g new_id (items_from boundary l)) _ Has-IsApart
              (fill_group-Has m new_id (items_from boundary l))
              (λ c.
                then_Triple (on_group g range_id (delete_items g (items_from boundary l))) _
                  Has-IsApart (on_group-Has m range_id (delete_items g (items_from boundary l)))
                  (install-IsApart d range_id new_id boundary c
                    (check_boundary-Inside d boundary l e) p))))

    descriptor-Has :
        (s : ShardedCluster C) (range_id : ℕ) (d : RangeDescriptor)
        → Has m s
        → descriptor g s range_id ≡ ok d
        → BTreeMap.get m range_id ≡ some d
    unfolding descriptor
    descriptor-Has s range_id d p e = elim (Option-cases (BTreeMap.get s.authoritative range_id)) [
      | inl q ↦ ground (arith, q, e)
      | inr (d', q) ↦ ground (arith, q, e, ap (λ x. BTreeMap.get x range_id) p.same)
    ]

    finish_split_range_at-Has :
        (range_id : ℕ) (boundary : Bytes) (d : RangeDescriptor)
        → HasBounds m range_id d
        → Triple (Has m) IsApart (finish_split_range_at g range_id boundary d)
    unfolding finish_split_range_at
    finish_split_range_at-Has range_id boundary d p =
        bind_Triple (reads (λ s. group_entries g s range_id)) _ Has-IsApart (reads-Triple (Has m) _)
          (λ l. split_locked-IsApart range_id boundary d l p)

    same_HasBounds :
        (range_id : ℕ) (d : RangeDescriptor)
        → BTreeMap.get m range_id ≡ some d
        → HasBounds m range_id d
    same_HasBounds range_id d e = record { now = d; is_now = e; same_start = refl; same_end = refl }

    split_range_at-Has :
        (range_id : ℕ) (boundary : Bytes)
        → Triple (Has m) IsApart (split_range_at g range_id boundary)
    unfolding split_range_at begin_split_range_at
    split_range_at-Has range_id boundary =
        let rest = finish_split_range_at g range_id boundary in
        record {
          leads = λ s p. elim (Result-cases (range_group g s range_id)) [
            | inr (why, e) ↦ subst IsApart (sym (ground (arith, e))) (Has-IsApart s p)
            | inl (c, e) ↦
                subst
                  (λ r.
                    IsApart
                      (continue rest
                        (continue (λ (c : C). reads (λ s. descriptor g s range_id)) (s, r))).0)
                  (sym e)
                  (continue_leads IsApart rest (s, descriptor g s range_id) (Has-IsApart s p)
                    (λ d q.
                      (finish_split_range_at-Has range_id boundary d
                          (same_HasBounds range_id d (descriptor-Has s range_id d p q))).leads
                        s p))
          ];
        }

    split_hot_range-Has : (range_id : ℕ) → Triple (Has m) IsApart (split_hot_range g range_id)
    unfolding split_hot_range
    split_hot_range-Has range_id =
        bind_Triple (reads (λ s. range_group g s range_id)) _ Has-IsApart (reads-Triple (Has m) _)
          (λ c.
            reads_bind_Triple (λ s. descriptor g s range_id) _ Has-IsApart
              (λ s d p e.
                bind_Triple (reads (λ s. group_entries g s range_id)) _ Has-IsApart
                  (reads-Triple (Has m) _)
                  (λ l. bind_Triple (lift _) _ Has-IsApart (reads-Triple (Has m) _) (λ boundary.
                    split_locked-IsApart range_id boundary d l
                      (same_HasBounds range_id d (descriptor-Has s range_id d p e))))))

  from_Has :
      {A : Type 0} (t : Turn g A)
      → ((m : BTreeMap ℕ RangeDescriptor) → Exclusive m → Triple (Has m) IsApart t)
      → Triple IsApart IsApart t
  from_Has t h = record {
    leads = λ s p. (h s.authoritative p.exclusive).leads s (record { same = refl });
  }

  pub finish_split_range_at-IsApart :
      (range_id : ℕ) (boundary : Bytes) (d : RangeDescriptor) (s : ShardedCluster C)
      → HasBounds s.authoritative range_id d
      → IsApart s
      → IsApart (finish_split_range_at g range_id boundary d s).0
  finish_split_range_at-IsApart range_id boundary d s p h =
      (finish_split_range_at-Has s.authoritative h.exclusive range_id boundary d p).leads s
        (record { same = refl })

  pub split_range_at-IsApart :
      (range_id : ℕ) (boundary : Bytes)
      → Triple IsApart IsApart (split_range_at g range_id boundary)
  split_range_at-IsApart range_id boundary =
      from_Has (split_range_at g range_id boundary)
        (λ m h. split_range_at-Has m h range_id boundary)

  pub split_hot_range-IsApart : (range_id : ℕ) → Triple IsApart IsApart (split_hot_range g range_id)
  split_hot_range-IsApart range_id =
      from_Has (split_hot_range g range_id) (λ m h. split_hot_range-Has m h range_id)
