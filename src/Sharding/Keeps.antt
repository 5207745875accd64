-- ===== src/Sharding/Keeps.antt =====
-- The parts of the methods of `ShardedCluster`: the ranges of the authority stay apart.
use helixdb.Prelude.{
  ℕ, ◌+◌, sym, subst, inl, inr, Option-cases, length, if◌then◌else◌, ok, arith, ltb, leb,
}
use helixdb.Prelude.Bytes.{Bytes}
use helixdb.Prelude.Order.{nat_ord, bytes_ord}
use helixdb.Prelude.Stateful.{pure, lift, reads, ◌>>=◌, ◌>>◌, modify}
use helixdb.Prelude.Triples.{Triple, continue_leads, bind_Triple, then_Triple, reads-Triple}
use helixdb.Prelude.Branches.{if_both}
use helixdb.BTreeMap
use helixdb.BTreeMap.{BTreeMap}
use helixdb.Errors.{DbResult}
use helixdb.Sharding.Range.{RangeDescriptor, contains, ShardResult, from_db}
use helixdb.Sharding.Group.{RaftCluster}
use helixdb.Sharding.Exclusive.{Exclusive, Exclusive-insert, FitsAt-part, Within}
use helixdb.Sharding.Invariant.{IsApart, split_hot_range-IsApart, on_group-authoritative}
use helixdb.Sharding.Cluster.{
  ShardedCluster, Turn, on_group, range_group, current_leader, cache, route_to, update_descriptor,
  bump_descriptor_after_membership_change,
}
use helixdb.Sharding.Split.{split_hot_range, maybe_auto_split_range, group_entries}
use helixdb.Sharding.Route.{
  validate_route, remember, route_put_with_descriptor, route_delete_with_descriptor,
  route_get_with_descriptor,
}

module _ {C : Type 0} (g : RaftCluster C) where
  abbrev pub Keeps : {A : Type 0} → Turn g A → Type 0
  Keeps t = Triple (IsApart g) (IsApart g) t

  pub on_group-Keeps :
      {A : Type 0} (id : ℕ) (method : C → C × DbResult A) → Keeps (on_group g id method)
  on_group-Keeps id method = record {
    leads = λ s h. record {
      exclusive = subst Exclusive (sym (on_group-authoritative g s id method)) h.exclusive;
    };
  }

  -- The range with a new epoch and a new hint, and its old bounds.
  abbrev pub bumped : ShardedCluster C → ℕ → RangeDescriptor → RangeDescriptor
  bumped s id d = record d { epoch = d.epoch + 1; leader_hint = current_leader g s id }

  pub bumped-Within :
      (s : ShardedCluster C) (id : ℕ) (d : RangeDescriptor) → Within (bumped s id d) d
  unfolding contains
  bumped-Within s id d = record { within = λ key inside. inside }

  pub update_descriptor-Keeps : (id : ℕ) → Keeps (update_descriptor g id (λ d. d))
  unfolding update_descriptor
  update_descriptor-Keeps id = record {
    leads = λ s h. elim (Option-cases (BTreeMap.get s.authoritative id)) [
      | inl e ↦ record { exclusive = subst Exclusive (sym (ground (arith, e))) h.exclusive }
      | inr (d, e) ↦ record {
        exclusive =
            subst Exclusive {x = BTreeMap.insert s.authoritative id (bumped s id d)}
              (sym (ground (arith, e)))
              (Exclusive-insert s.authoritative id (bumped s id d) h.exclusive (
                FitsAt-part s.authoritative id d (bumped s id d) (bumped-Within s id d) h.exclusive
                  e));
      }
    ];
  }

  pub route_to-Keeps : (key : Bytes) (d : RangeDescriptor) → Keeps (route_to g key d)
  unfolding route_to cache
  route_to-Keeps key d = record {
    leads = λ s h. record { exclusive = subst Exclusive (sym (ground arith)) h.exclusive };
  }

  module _ {A B : Type 0} where
    pub bind_Keeps :
        (t : Turn g A) (f : A → Turn g B) → Keeps t → ((a : A) → Keeps (f a)) → Keeps (t >>= f)
    bind_Keeps t f h k = bind_Triple t f (λ s p. p) h k

    -- A value that is read off the state, and what is done with it.
    pub read_Keeps :
        (r : ShardedCluster C → ShardResult A) (f : A → Turn g B)
        → ((a : A) → Keeps (f a))
        → Keeps (reads r >>= f)
    read_Keeps r f k = bind_Keeps (reads r) f (reads-Triple (IsApart g) r) k

  module _ {B : Type 0} where
    pub then_Keeps : (t : Turn g (Unit {0})) (f : Turn g B) → Keeps t → Keeps f → Keeps (t >> f)
    then_Keeps t f h k = then_Triple t f (λ s p. p) h k

  pub cached_Keeps :
      (m : ShardedCluster C → BTreeMap ℕ RangeDescriptor)
      → Keeps (modify (λ s. record s { cached = m s }))
  cached_Keeps m = record { leads = λ s h. record { exclusive = h.exclusive } }

  pub remember-Keeps : (d : RangeDescriptor) → Keeps (modify (remember g d))
  unfolding remember cache
  remember-Keeps d = record { leads = λ s h. record { exclusive = h.exclusive } }

  pub bump_membership-Keeps : (id : ℕ) → Keeps (bump_descriptor_after_membership_change g id)
  unfolding bump_descriptor_after_membership_change
  bump_membership-Keeps id =
      bind_Keeps (update_descriptor g id (λ d. d)) _ (update_descriptor-Keeps id) (λ d.
        then_Keeps (modify (λ s. record s { cached = BTreeMap.insert s.cached id d })) (pure d)
          (cached_Keeps (λ s. BTreeMap.insert s.cached id d))
          (reads-Triple (IsApart g) (λ s. ok d)))

  pub maybe_auto_split_range-Keeps : (id : ℕ) → Keeps (maybe_auto_split_range g id)
  unfolding maybe_auto_split_range
  maybe_auto_split_range-Keeps id = record {
    leads = λ s h.
        if_both (λ (p : ShardedCluster C × ShardResult (Unit {0})). IsApart g p.0)
          (ltb 0 s.split_threshold_entries)
          (continue_leads (IsApart g)
            (λ l.
              if leb (length l) s.split_threshold_entries
              then pure tt
              else split_hot_range g id >>= λ pair. pure tt)
            (s, group_entries g s id) h
            (λ l e.
              if_both (λ (t : Turn g (Unit {0})). IsApart g (t s).0)
                (leb (length l) s.split_threshold_entries) h
                ((bind_Keeps (split_hot_range g id) (λ pair. pure tt) (split_hot_range-IsApart g id)
                    (λ pair. reads-Triple (IsApart g) (λ t. ok tt))).leads
                  s h)))
          h;
  }

  pub route_put_with_descriptor-Keeps :
      (key value : Bytes) (d : RangeDescriptor) → Keeps (route_put_with_descriptor g key value d)
  unfolding route_put_with_descriptor
  route_put_with_descriptor-Keeps key value d =
      read_Keeps (λ s. range_group g s d.range_id) _
        (λ c. then_Keeps (reads (λ s. validate_route g s key d)) _ (reads-Triple (IsApart g) _) (
          bind_Keeps (on_group g d.range_id (λ c. g.put c key value)) _
            (on_group-Keeps d.range_id (λ c. g.put c key value))
            (λ index. then_Keeps (modify (remember g d)) _ (remember-Keeps d) (
              then_Keeps (maybe_auto_split_range g d.range_id) (pure index)
                (maybe_auto_split_range-Keeps d.range_id)
                (reads-Triple (IsApart g) (λ s. ok index))))))

  pub route_delete_with_descriptor-Keeps :
      (key : Bytes) (d : RangeDescriptor) → Keeps (route_delete_with_descriptor g key d)
  unfolding route_delete_with_descriptor
  route_delete_with_descriptor-Keeps key d =
      read_Keeps (λ s. range_group g s d.range_id) _
        (λ c. then_Keeps (reads (λ s. validate_route g s key d)) _ (reads-Triple (IsApart g) _) (
          bind_Keeps (on_group g d.range_id (λ c. g.delete c key)) _
            (on_group-Keeps d.range_id (λ c. g.delete c key))
            (λ index.
              then_Keeps (modify (remember g d)) (pure index) (remember-Keeps d)
                (reads-Triple (IsApart g) (λ s. ok index)))))

  pub route_get_with_descriptor-Keeps :
      (key : Bytes) (d : RangeDescriptor) → Keeps (route_get_with_descriptor g key d)
  unfolding route_get_with_descriptor
  route_get_with_descriptor-Keeps key d =
      read_Keeps (λ s. range_group g s d.range_id) _
        (λ c. then_Keeps (reads (λ s. validate_route g s key d)) _ (reads-Triple (IsApart g) _) (
          bind_Keeps (lift (from_db (g.get c key))) _ (reads-Triple (IsApart g) _) (λ value.
            then_Keeps (modify (remember g d)) (pure value) (remember-Keeps d)
              (reads-Triple (IsApart g) (λ s. ok value)))))
