-- ===== src/ControlPlane/Plane.antt =====
-- `ControlPlane` of control_plane.rs: nodes, ranges and replicas. `now` is the clock's reading.
use helixdb.Prelude.{
  ℕ, Bool, true, false, not, Option, none, some, List, [], ◌∷◌, ◌++◌, length, ltb, leb, ◌==◌,
  if◌then◌else◌, ok, err, ok_or,
}
use helixdb.Prelude.Bytes.{Bytes, le_bytes}
use helixdb.Prelude.Order.{nat_ord, bytes_ord}
use helixdb.Prelude.Stateful.{Op, pure, lift, reads, ◌>>=◌, ◌>>◌, modify}
use helixdb.BTreeMap
use helixdb.BTreeMap.{BTreeMap, contains_key}
use helixdb.Errors.{DbResult}
use helixdb.Sharding.Range.{RangeDescriptor}
use helixdb.Sharding.Group.{RaftCluster}
use helixdb.Sharding.Cluster.{ShardedCluster, Turn, add_group_node, remove_group_node}
use helixdb.ControlPlane.Text.{padded}
use helixdb.ControlPlane.Records.{
  healthy, NodeRecord, RangePlacement, ControlPlaneError, db, route, unknown_node, unknown_range,
  invalid_record, PlaneResult, encode_node_record, encode_range_placement,
}

pub record ControlPlane (C : Type 0) : Type 0 where
  pub metadata : C
  pub data_cluster : ShardedCluster C
  pub nodes : BTreeMap ℕ NodeRecord
  pub ranges : BTreeMap ℕ RangePlacement
  pub next_timestamp : ℕ
  pub heartbeat_timeout : ℕ
  pub suspect_timeout : ℕ

-- `map_err(ControlPlaneError::from)` on the errors of the groups
abbrev pub of_db {ℓ} : {A : Type ℓ} → DbResult A → PlaneResult A
of_db (ok a) = ok a
of_db (err e) = err (db e)

unfoldable pub node_key : ℕ → Bytes
node_key id = (110 ∷ 111 ∷ 100 ∷ 101 ∷ 47 ∷ []) ++ padded id

unfoldable pub range_key : ℕ → Bytes
range_key id = (114 ∷ 97 ∷ 110 ∷ 103 ∷ 101 ∷ 47 ∷ []) ++ padded id

-- `TIMESTAMP_KEY`, the text `timestamp/current`
abbrev pub timestamp_key : Bytes
timestamp_key =
    116 ∷ 105 ∷ 109 ∷ 101 ∷ 115 ∷ 116 ∷ 97 ∷ 109 ∷ 112 ∷ 47 ∷ 99 ∷ 117 ∷ 114 ∷ 114 ∷ 101 ∷ 110 ∷ 116
    ∷ []

unfoldable pub mem : ℕ → List ℕ → Bool
mem n [] = false
mem n (m ∷ ms) = let rest = mem n ms in if m == n then true else rest

-- `retain(|replica| *replica != node_id)`
unfoldable pub without : ℕ → List ℕ → List ℕ
without n [] = []
without n (m ∷ ms) = let rest = without n ms in if m == n then rest else m ∷ rest

-- `sort_unstable` on numbers
unfoldable pub insert_sorted : ℕ → List ℕ → List ℕ
insert_sorted n [] = n ∷ []
insert_sorted n (m ∷ ms) = let rest = insert_sorted n ms in if ltb m n then m ∷ rest else n ∷ m ∷ ms

unfoldable pub sort_unstable : List ℕ → List ℕ
sort_unstable [] = []
sort_unstable (n ∷ ns) = insert_sorted n (sort_unstable ns)

-- The first replica that is not registered.
unfoldable pub first_unknown : BTreeMap ℕ NodeRecord → List ℕ → Option ℕ
first_unknown nodes [] = none
first_unknown nodes (n ∷ ns) =
    let rest = first_unknown nodes ns in if contains_key nodes n then rest else some n

-- `NodeRecord::new`
abbrev pub new_node : ℕ → ℕ → ℕ → NodeRecord
new_node now node_id capacity_units = record {
  node_id = node_id;
  capacity_units = capacity_units;
  last_heartbeat_ms = now;
  status = healthy;
}

abbrev pub set_placement : {C : Type 0} → RangePlacement → ℕ → ControlPlane C → ControlPlane C
set_placement p range_id s = record s { ranges = BTreeMap.insert s.ranges range_id p }

unfoldable pub check_removal : RangePlacement → ℕ → PlaneResult (Unit {0})
check_removal p node_id =
    if not (mem node_id p.replicas)
    then err (unknown_node node_id)
    else if leb (length p.replicas) 1
    then err (invalid_record "range must keep at least one replica")
    else ok tt

module _ {C : Type 0} (g : RaftCluster C) where
  abbrev pub Step : Type 0 → Type 0
  Step A = Op (ControlPlane C) ControlPlaneError A

  unfoldable pub persist : Bytes → Bytes → Step (Unit {0})
  persist key value s = (
    record s { metadata = (g.put s.metadata key value).0 },
    elim (g.put s.metadata key value).1 [ err e ↦ err (db e) | ok i ↦ ok tt ],
  )

  unfoldable pub persist_node : NodeRecord → Step (Unit {0})
  persist_node r = persist (node_key r.node_id) (encode_node_record r)

  unfoldable pub persist_range : RangePlacement → Step (Unit {0})
  persist_range p = persist (range_key p.descriptor.range_id) (encode_range_placement p)

  unfoldable pub persist_timestamp : ℕ → Step (Unit {0})
  persist_timestamp timestamp = persist timestamp_key (le_bytes 8 timestamp)

  unfoldable pub persist_nodes : BTreeMap ℕ NodeRecord → Step (Unit {0})
  persist_nodes [] = pure tt
  persist_nodes ((id, r) ∷ nodes) = persist_node r >> persist_nodes nodes

  unfoldable pub persist_placements : List RangePlacement → Step (Unit {0})
  persist_placements [] = pure tt
  persist_placements (p ∷ ps) = persist_range p >> persist_placements ps

  unfoldable pub register_node : ℕ → ℕ → ℕ → Step NodeRecord
  register_node now node_id capacity_units = do
    modify (λ s. record s {
      nodes = BTreeMap.insert s.nodes node_id (new_node now node_id capacity_units);
    })
    persist_node (new_node now node_id capacity_units)
    pure (new_node now node_id capacity_units)

  -- `get_mut` on the registry, and the changed record persisted.
  unfoldable pub update_node : ℕ → (NodeRecord → NodeRecord) → Step NodeRecord
  update_node node_id change = do
    r ← reads (λ s. ok_or (BTreeMap.get s.nodes node_id) (unknown_node node_id))
    modify (λ s. record s { nodes = BTreeMap.insert s.nodes node_id (change r) })
    persist_node (change r)
    pure (change r)

  unfoldable pub heartbeat : ℕ → ℕ → Step NodeRecord
  heartbeat now node_id =
      update_node node_id (λ r. record r { last_heartbeat_ms = now; status = healthy })

  unfoldable pub set_last_heartbeat_for_test : ℕ → ℕ → Step NodeRecord
  set_last_heartbeat_for_test node_id last =
      update_node node_id (λ r. record r { last_heartbeat_ms = last })

  unfoldable pub ensure_registered_node : ControlPlane C → ℕ → PlaneResult (Unit {0})
  ensure_registered_node s node_id =
      if contains_key s.nodes node_id then ok tt else err (unknown_node node_id)

  unfoldable pub register_range : RangeDescriptor → List ℕ → Step RangePlacement
  register_range d replicas = do
    reads (λ s. elim (first_unknown s.nodes replicas) [
      | none ↦ ok tt
      | some n ↦ err (unknown_node n)
    ])
    modify (set_placement (record { descriptor = d; replicas = replicas }) d.range_id)
    persist_range (record { descriptor = d; replicas = replicas })
    pure (record { descriptor = d; replicas = replicas })

  unfoldable pub placement_of : ControlPlane C → ℕ → PlaneResult RangePlacement
  placement_of s range_id = ok_or (BTreeMap.get s.ranges range_id) (unknown_range range_id)

  -- A method of the data cluster.
  unfoldable pub on_data : {A : Type 0} → Turn g A → Step A
  on_data method s = (
    record s { data_cluster = (method s.data_cluster).0 },
    elim (method s.data_cluster).1 [ err e ↦ err (route e) | ok a ↦ ok a ],
  )

  -- The members are written into the registry first, then the group changes, and its new descriptor
  -- is written and persisted.
  unfoldable pub change_members : ℕ → RangePlacement → Turn g RangeDescriptor → Step RangePlacement
  change_members range_id p method = do
    modify (set_placement p range_id)
    d ← on_data method
    modify (set_placement (record p { descriptor = d }) range_id)
    persist_range (record p { descriptor = d })
    pure (record p { descriptor = d })

  unfoldable pub add_replica : ℕ → ℕ → Step RangePlacement
  add_replica range_id node_id = do
    reads (λ s. ensure_registered_node s node_id)
    p ← reads (λ s. placement_of s range_id)
    change_members range_id
        (if mem node_id p.replicas
          then p
          else record p { replicas = sort_unstable (p.replicas ++ node_id ∷ []) })
        (add_group_node g range_id node_id)

  unfoldable pub remove_replica : ℕ → ℕ → Step RangePlacement
  remove_replica range_id node_id = do
    p ← reads (λ s. placement_of s range_id)
    lift (check_removal p node_id)
    change_members range_id (record p { replicas = without node_id p.replicas })
        (remove_group_node g range_id node_id)
