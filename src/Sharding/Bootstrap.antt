-- ===== src/Sharding/Bootstrap.antt =====
-- `bootstrap_with_ranges_and_split_threshold` of sharding.rs.
use helixdb.Prelude.{ℕ, max, List, [], ◌∷◌, ◌==◌, if◌then◌else◌, ok, err}
use helixdb.Prelude.Order.{nat_ord}
use helixdb.BTreeMap
use helixdb.MemTable.{saturating_add}
use helixdb.Sharding.Range.{
  RangeDescriptor, invalid_descriptor, ShardResult, internal_db, validate_non_overlapping,
  sort_by_start,
}
use helixdb.Sharding.Group.{RaftCluster}
use helixdb.Sharding.Cluster.{ShardedCluster, is_empty}

module _ {C : Type 0} (g : RaftCluster C) where
  -- One turn of the loop: the group of the descriptor exists, and its leader is the hint.
  unfoldable pub enter : RangeDescriptor → C → ShardedCluster C → ShardedCluster C
  enter d c s = record s {
    authoritative =
        BTreeMap.insert s.authoritative d.range_id (record d { leader_hint = g.leader_id c });
    groups = BTreeMap.insert s.groups d.range_id c;
    next_range_id = max s.next_range_id d.range_id;
  }

  unfoldable pub enter_all :
      List RangeDescriptor → ShardedCluster C → ShardResult (ShardedCluster C)
  enter_all [] s = ok s
  enter_all (d ∷ ds) s = elim (g.bootstrap d.range_id s.nodes_per_group) [
    | err e ↦ err (internal_db e)
    | ok c ↦ enter_all ds (enter d c s)
  ]

  unfoldable pub no_ranges : ℕ → ℕ → ShardedCluster C
  no_ranges nodes_per_group split_threshold_entries = record {
    nodes_per_group = nodes_per_group;
    split_threshold_entries = split_threshold_entries;
    groups = [];
    authoritative = [];
    cached = [];
    next_range_id = 0;
  }

  unfoldable pub bootstrap_with_ranges :
      List RangeDescriptor → ℕ → ℕ → ShardResult (ShardedCluster C)
  bootstrap_with_ranges descriptors nodes_per_group split_threshold_entries =
      if nodes_per_group == 0
      then err (invalid_descriptor "nodes_per_group must be greater than zero")
      else if split_threshold_entries == 0
      then err (invalid_descriptor "split_threshold_entries must be greater than zero")
      else if is_empty descriptors
      then err (invalid_descriptor "at least one range descriptor is required")
      else elim (validate_non_overlapping (sort_by_start descriptors)) [
        | err why ↦ err why
        | ok u ↦
            elim (enter_all (sort_by_start descriptors)
              (no_ranges nodes_per_group split_threshold_entries)) [
                | err why ↦ err why
                | ok s ↦ ok (record s { next_range_id = saturating_add s.next_range_id 1 })
              ]
      ]
