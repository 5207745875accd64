-- ===== src/Sharding/InMemory.antt =====
-- Groups that keep their entries in memory, and a cluster of two ranges.
use helixdb.Prelude.{ℕ, ◌+◌, Option, none, some, List, [], ◌∷◌, ok}
use helixdb.Prelude.Bytes.{Bytes}
use helixdb.Prelude.Order.{nat_ord, bytes_ord}
use helixdb.BTreeMap
use helixdb.BTreeMap.{BTreeMap}
use helixdb.Sharding.Range.{RangeDescriptor}
use helixdb.Sharding.Group.{RaftCluster}
use helixdb.Sharding.Cluster.{ShardedCluster}

-- A group in memory: its entries, and its leader.
pub record Group : Type 0 where
  pub entries : BTreeMap Bytes Bytes
  pub leader : Option ℕ

abbrev pub in_memory : RaftCluster Group
in_memory = record {
  bootstrap = λ id n. ok (record { entries = []; leader = some 1 });
  put = λ c key value. (record c { entries = BTreeMap.insert c.entries key value }, ok 1);
  delete = λ c key. (record c { entries = BTreeMap.remove c.entries key }, ok 1);
  get = λ c key. ok (BTreeMap.get c.entries key);
  all_entries = λ c. ok c.entries;
  leader_id = λ c. c.leader;
  kill_node = λ c node. (record c { leader = some (node + 1) }, ok tt);
  restart_node = λ c node. (c, ok tt);
  add_node = λ c node. (c, ok tt);
  remove_node = λ c node. (c, ok tt);
}

abbrev pub range_of : ℕ → Bytes → Option Bytes → RangeDescriptor
range_of id start end = record {
  range_id = id;
  start = start;
  end = end;
  epoch = 1;
  raft_group_id = id;
  leader_hint = none;
}

abbrev pub two_ranges : List RangeDescriptor
two_ranges = range_of 2 (100 ∷ []) none ∷ range_of 1 [] (some (100 ∷ [])) ∷ []

-- Two ranges below and from `[100]`, in the order of their starts.
abbrev pub booted : ShardedCluster Group
booted = record {
  nodes_per_group = 3;
  split_threshold_entries = 4;
  groups =
      (1, record { entries = []; leader = some 1 })
      ∷ (2, record { entries = []; leader = some 1 })
      ∷ [];
  authoritative =
      (1, record (range_of 1 [] (some (100 ∷ []))) { leader_hint = some 1 })
      ∷ (2, record (range_of 2 (100 ∷ []) none) { leader_hint = some 1 })
      ∷ [];
  cached = [];
  next_range_id = 3;
}
