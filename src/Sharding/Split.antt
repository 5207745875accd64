-- ===== src/Sharding/Split.antt =====
-- Splitting a range of `ShardedCluster`: `split_range_at_locked_descriptor` and its callers.
use helixdb.Prelude.{
  ℕ, ◌+◌, ◌/◌, false, not, ◌||◌, Option, none, some, List, [], ◌∷◌, length, get_elem?, ltb, leb,
  if◌then◌else◌, ok, err, ok_or,
}
use helixdb.Prelude.Bytes.{Bytes}
use helixdb.Prelude.Order.{nat_ord, bytes_ord, less}
use helixdb.Prelude.Stateful.{pure, lift, reads, continue, ◌>>=◌, ◌>>◌}
use helixdb.BTreeMap
use helixdb.BTreeMap.{BTreeMap}
use helixdb.Errors.{DbResult}
use helixdb.MemTable.{saturating_add}
use helixdb.Sharding.Range.{RangeDescriptor, invalid_descriptor, internal, ShardResult, from_db}
use helixdb.Sharding.Group.{RaftCluster}
use helixdb.Sharding.Cluster.{
  ShardedCluster, Turn, on_group, descriptor, range_group, current_leader, items_below, items_from,
  is_empty,
}

-- The tests of the boundary and of the two parts of the entries.
unfoldable pub check_boundary :
    RangeDescriptor → Bytes → List (Bytes × Bytes) → ShardResult (Unit {0})
check_boundary d boundary l =
    if not (less d.start boundary)
    then err (invalid_descriptor "split boundary must be inside the range")
    else if (elim d.end [ none ↦ false | some end ↦ not (less boundary end) ])
    then err (invalid_descriptor "split boundary must be before range end")
    else if is_empty (items_below boundary l) || is_empty (items_from boundary l)
    then err (invalid_descriptor "split boundary must divide the keys")
    else ok tt

unfoldable pub left_of : RangeDescriptor → ℕ → Bytes → Option ℕ → RangeDescriptor
left_of d range_id boundary leader = record {
  range_id = range_id;
  start = d.start;
  end = some boundary;
  epoch = d.epoch + 1;
  raft_group_id = d.raft_group_id;
  leader_hint = leader;
}

unfoldable pub right_of : RangeDescriptor → ℕ → Bytes → Option ℕ → RangeDescriptor
right_of d new_id boundary leader = record {
  range_id = new_id;
  start = boundary;
  end = d.end;
  epoch = d.epoch + 1;
  raft_group_id = new_id;
  leader_hint = leader;
}

-- `entries.keys().nth(entries.len() / 2)`
abbrev pub middle_key : List (Bytes × Bytes) → Option Bytes
middle_key l = elim (get_elem? l (length l / 2)) [ none ↦ none | some p ↦ some p.0 ]

module _ {C : Type 0} (g : RaftCluster C) where
  -- The loop of puts into the new group.
  unfoldable pub put_items : List (Bytes × Bytes) → C → C × DbResult (Unit {0})
  put_items [] c = (c, ok tt)
  put_items ((key, value) ∷ l) c =
      let rest = put_items l (g.put c key value).0 in
      elim (g.put c key value).1 [ err e ↦ ((g.put c key value).0, err e) | ok i ↦ rest ]

  -- The loop of deletions from the old one.
  unfoldable pub delete_items : List (Bytes × Bytes) → C → C × DbResult (Unit {0})
  delete_items [] c = (c, ok tt)
  delete_items ((key, value) ∷ l) c =
      let rest = delete_items l (g.delete c key).0 in
      elim (g.delete c key).1 [ err e ↦ ((g.delete c key).0, err e) | ok i ↦ rest ]

  unfoldable pub next_split_range_id : Turn g ℕ
  next_split_range_id s =
      (record s { next_range_id = saturating_add s.next_range_id 1 }, ok s.next_range_id)

  -- A new group that holds the items.
  unfoldable pub fill_group : ℕ → List (Bytes × Bytes) → Turn g C
  fill_group new_id l s = elim (g.bootstrap new_id s.nodes_per_group) [
    | err e ↦ (s, from_db (err e))
    | ok c ↦ elim (put_items l c).1 [
      | err e ↦ (s, from_db (err e))
      | ok u ↦ (s, ok (put_items l c).0)
    ]
  ]

  -- Both descriptors and the new group enter the maps.
  unfoldable pub install :
      RangeDescriptor → ℕ → ℕ → Bytes → C → Turn g (RangeDescriptor × RangeDescriptor)
  install d range_id new_id boundary c s =
      let left = left_of d range_id boundary (current_leader g s range_id) in
      let right = right_of d new_id boundary (g.leader_id c) in
      (
        record s {
          authoritative =
              BTreeMap.insert (BTreeMap.insert s.authoritative range_id left) new_id right;
          groups = BTreeMap.insert s.groups new_id c;
          cached = BTreeMap.insert (BTreeMap.insert s.cached range_id left) new_id right;
        },
        ok (left, right),
      )

  unfoldable pub split_range_at_locked_descriptor :
      ℕ
      → Bytes
      → RangeDescriptor
      → BTreeMap Bytes Bytes
      → Turn g (RangeDescriptor × RangeDescriptor)
  split_range_at_locked_descriptor range_id boundary d l = do
    lift (check_boundary d boundary l)
    new_id ← next_split_range_id
    c ← fill_group new_id (items_from boundary l)
    on_group g range_id (delete_items (items_from boundary l))
    install d range_id new_id boundary c

  -- `group.cluster.all_entries()` of the range's group
  unfoldable pub group_entries : ShardedCluster C → ℕ → ShardResult (BTreeMap Bytes Bytes)
  group_entries s range_id = elim (range_group g s range_id) [
    | err e ↦ err e
    | ok c ↦ from_db (g.all_entries c)
  ]

  -- `split_range_at` until it takes the lock of the range. Other methods may run before the rest.
  unfoldable pub begin_split_range_at : ℕ → Turn g RangeDescriptor
  begin_split_range_at range_id = do
    c ← reads (λ s. range_group g s range_id)
    reads (λ s. descriptor g s range_id)

  -- The rest, under the lock, with the descriptor that was read before.
  unfoldable pub finish_split_range_at :
      ℕ → Bytes → RangeDescriptor → Turn g (RangeDescriptor × RangeDescriptor)
  finish_split_range_at range_id boundary d = do
    l ← reads (λ s. group_entries s range_id)
    split_range_at_locked_descriptor range_id boundary d l

  -- Both parts, with nothing between them.
  unfoldable pub split_range_at : ℕ → Bytes → Turn g (RangeDescriptor × RangeDescriptor)
  split_range_at range_id boundary =
      begin_split_range_at range_id >>= finish_split_range_at range_id boundary

  -- Here the lock is taken first.
  unfoldable pub split_hot_range : ℕ → Turn g (RangeDescriptor × RangeDescriptor)
  split_hot_range range_id = do
    c ← reads (λ s. range_group g s range_id)
    d ← reads (λ s. descriptor g s range_id)
    l ← reads (λ s. group_entries s range_id)
    boundary ← lift (
        if ltb (length l) 2
        then err (invalid_descriptor "range needs at least two keys before splitting")
        else ok_or (middle_key l) (internal "failed to choose split boundary"))
    split_range_at_locked_descriptor range_id boundary d l

  unfoldable pub maybe_auto_split_range : ℕ → Turn g (Unit {0})
  maybe_auto_split_range range_id s =
      if ltb 0 s.split_threshold_entries
      then continue
          (λ l.
            if leb (length l) s.split_threshold_entries
            then pure tt
            else split_hot_range range_id >>= λ pair. pure tt)
          (s, group_entries s range_id)
      else (s, ok tt)
