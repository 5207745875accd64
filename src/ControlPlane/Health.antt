-- ===== src/ControlPlane/Health.antt =====
-- `sweep_health` and `rebalance` of control_plane.rs.
pub mod Leaders
use helixdb.Prelude.{
  ℕ, ◌+◌, ◌-◌, Bool, true, false, not, Option, none, some, List, [], ◌∷◌, ltb, leb, ◌==◌,
  if◌then◌else◌, Result, ok, err,
}
use helixdb.Prelude.Order.{nat_ord}
use helixdb.Prelude.Stateful.{Op, pure, reads, continue, ◌>>=◌, ◌>>◌, modify}
use helixdb.BTreeMap
use helixdb.BTreeMap.{BTreeMap}
use helixdb.Sharding.Range.{RangeDescriptor}
use helixdb.Sharding.Group.{RaftCluster}
use helixdb.Sharding.Cluster.{differs, is_empty}
use helixdb.ControlPlane.Records.{
  NodeStatus, healthy, suspect, dead, same_status, NodeRecord, RangePlacement, PlaneResult,
}
use helixdb.ControlPlane.Plane.{ControlPlane, Step, persist_nodes, persist_placements}

-- The status at the age of the last heartbeat.
unfoldable pub next_status : ℕ → ℕ → ℕ → NodeStatus
next_status suspect_after dead_after age =
    if leb dead_after age then dead else if leb suspect_after age then suspect else healthy

unfoldable pub swept : ℕ → ℕ → ℕ → NodeRecord → NodeRecord
swept now suspect_after dead_after r = record r {
  status = next_status suspect_after dead_after (now - r.last_heartbeat_ms);
}

unfoldable pub sweep : ℕ → ℕ → ℕ → BTreeMap ℕ NodeRecord → BTreeMap ℕ NodeRecord
sweep now suspect_after dead_after [] = []
sweep now suspect_after dead_after ((id, r) ∷ nodes) =
    (id, swept now suspect_after dead_after r) ∷ sweep now suspect_after dead_after nodes

unfoldable pub count_updated : ℕ → ℕ → ℕ → BTreeMap ℕ NodeRecord → ℕ
count_updated now suspect_after dead_after [] = 0
count_updated now suspect_after dead_after ((id, r) ∷ nodes) =
    let rest = count_updated now suspect_after dead_after nodes in
    if same_status r.status (swept now suspect_after dead_after r).status then rest else rest + 1

unfoldable pub healthy_nodes : BTreeMap ℕ NodeRecord → List ℕ
healthy_nodes [] = []
healthy_nodes ((id, r) ∷ nodes) =
    let rest = healthy_nodes nodes in
    if same_status r.status healthy then r.node_id ∷ rest else rest

unfoldable pub is_healthy : BTreeMap ℕ NodeRecord → ℕ → Bool
is_healthy nodes id = elim (BTreeMap.get nodes id) [
  | none ↦ false
  | some r ↦ same_status r.status healthy
]

unfoldable pub find_healthy : BTreeMap ℕ NodeRecord → List ℕ → Option ℕ
find_healthy nodes [] = none
find_healthy nodes (n ∷ ns) =
    let rest = find_healthy nodes ns in if is_healthy nodes n then some n else rest

abbrev pub or_else : Option ℕ → Option ℕ → Option ℕ
or_else none b = b
or_else (some a) b = some a

abbrev pub first : List ℕ → Option ℕ
first [] = none
first (n ∷ ns) = some n

-- The leader if it is healthy, or else a healthy replica, or else any healthy node.
unfoldable pub preferred : BTreeMap ℕ NodeRecord → RangePlacement → Option ℕ
preferred nodes p =
    or_else
      (elim p.descriptor.leader_hint [
        | none ↦ none
        | some n ↦ if is_healthy nodes n then some n else none
      ])
      (or_else (find_healthy nodes p.replicas) (first (healthy_nodes nodes)))

-- The placement behind one turn of the loop, whether it is to be persisted, and whether it was moved.
unfoldable pub rebalanced : BTreeMap ℕ NodeRecord → RangePlacement → RangePlacement × Bool × Bool
rebalanced nodes p =
    if differs p.descriptor.leader_hint (preferred nodes p)
    then (
      record p {
        descriptor = record p.descriptor {
          leader_hint = preferred nodes p;
          epoch = p.descriptor.epoch + 1;
        };
      },
      true,
      true,
    )
    else if is_empty p.replicas
    then (record p { replicas = healthy_nodes nodes }, true, false)
    else (p, false, false)

unfoldable pub rebalance_ranges :
    BTreeMap ℕ NodeRecord → BTreeMap ℕ RangePlacement → BTreeMap ℕ RangePlacement
rebalance_ranges nodes [] = []
rebalance_ranges nodes ((id, p) ∷ ranges) =
    (id, (rebalanced nodes p).0) ∷ rebalance_ranges nodes ranges

unfoldable pub pending_updates :
    BTreeMap ℕ NodeRecord → BTreeMap ℕ RangePlacement → List RangePlacement
pending_updates nodes [] = []
pending_updates nodes ((id, p) ∷ ranges) =
    let rest = pending_updates nodes ranges in
    if (rebalanced nodes p).1 then (rebalanced nodes p).0 ∷ rest else rest

unfoldable pub count_moved : BTreeMap ℕ NodeRecord → BTreeMap ℕ RangePlacement → ℕ
count_moved nodes [] = 0
count_moved nodes ((id, p) ∷ ranges) =
    let rest = count_moved nodes ranges in if (rebalanced nodes p).2 then rest + 1 else rest

module _ {C : Type 0} (g : RaftCluster C) where
  unfoldable pub sweep_health : ℕ → Step g ℕ
  sweep_health now s =
      let nodes = sweep now s.suspect_timeout s.heartbeat_timeout s.nodes in
      continue (λ u. pure (count_updated now s.suspect_timeout s.heartbeat_timeout s.nodes))
        (persist_nodes g nodes (record s { nodes = nodes }))

  -- The loop over the ranges, and what it has changed persisted.
  unfoldable pub rebalance_all : Step g ℕ
  rebalance_all s =
      continue (λ u. pure (count_moved s.nodes s.ranges))
        (persist_placements g (pending_updates s.nodes s.ranges)
          (record s { ranges = rebalance_ranges s.nodes s.ranges }))

  unfoldable pub rebalance : ℕ → Step g ℕ
  rebalance now = do
    updated ← sweep_health now
    ids ← reads (λ s. ok (healthy_nodes s.nodes))
    if is_empty ids then pure 0 else rebalance_all
