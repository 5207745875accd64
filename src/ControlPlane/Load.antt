-- ===== src/ControlPlane/Load.antt =====
-- `load_from_metadata` and `bootstrap_with_config` of control_plane.rs.
use helixdb.Prelude.{ℕ, none, some, List, [], ◌∷◌, if◌then◌else◌, ok, err}
use helixdb.Prelude.Bytes.{Bytes}
use helixdb.Prelude.Order.{nat_ord, bytes_ord, eqb}
use helixdb.Prelude.Stateful.{continue}
use helixdb.BTreeMap
use helixdb.BTreeMap.{BTreeMap}
use helixdb.Errors.{DbResult}
use helixdb.Sharding.Range.{RangeDescriptor}
use helixdb.Sharding.Group.{RaftCluster}
use helixdb.Sharding.Cluster.{is_empty}
use helixdb.Sharding.Bootstrap.{bootstrap_with_ranges}
use helixdb.ControlPlane.Text.{strip_prefix, is_utf8, parse_u64}
use helixdb.ControlPlane.Records.{
  NodeRecord, RangePlacement, db, route, invalid_record, PlaneResult, decode_node_record,
  decode_range_placement, decode_timestamp,
}
use helixdb.ControlPlane.Plane.{ControlPlane, Step, timestamp_key, persist_placements}

-- The three maps that the loop builds.
pub record Loaded : Type 0 where
  pub nodes : BTreeMap ℕ NodeRecord
  pub ranges : BTreeMap ℕ RangePlacement
  pub next_timestamp : ℕ

abbrev pub nothing : Loaded
nothing = record { nodes = []; ranges = []; next_timestamp = 0 }

-- One entry of the metadata, by the prefix of its key.
unfoldable pub load_entry : Loaded → Bytes → Bytes → PlaneResult Loaded
load_entry l key value =
    if is_utf8 key
    then elim (strip_prefix (110 ∷ 111 ∷ 100 ∷ 101 ∷ 47 ∷ []) key) [
      | some id_text ↦ elim (parse_u64 id_text) [
        | none ↦ err (invalid_record "invalid node key")
        | some id ↦ elim (decode_node_record value) [
          | err e ↦ err e
          | ok r ↦ ok (record l { nodes = BTreeMap.insert l.nodes id r })
        ]
      ]
      | none ↦ elim (strip_prefix (114 ∷ 97 ∷ 110 ∷ 103 ∷ 101 ∷ 47 ∷ []) key) [
        | some id_text ↦ elim (parse_u64 id_text) [
          | none ↦ err (invalid_record "invalid range key")
          | some id ↦ elim (decode_range_placement value) [
            | err e ↦ err e
            | ok p ↦ ok (record l { ranges = BTreeMap.insert l.ranges id p })
          ]
        ]
        | none ↦
            if eqb key timestamp_key
            then elim (decode_timestamp value) [
              | err e ↦ err e
              | ok n ↦ ok (record l { next_timestamp = n })
            ]
            else ok l
      ]
    ]
    else err (invalid_record "metadata key is not utf8")

unfoldable pub load_entries : Loaded → List (Bytes × Bytes) → PlaneResult Loaded
load_entries l [] = ok l
load_entries l ((key, value) ∷ entries) = elim (load_entry l key value) [
  | err e ↦ err e
  | ok next ↦ load_entries next entries
]

module _ {C : Type 0} (g : RaftCluster C) where
  -- Also `refresh_from_metadata`. An error leaves the maps as they are.
  unfoldable pub load_from_metadata : Step g (Unit {0})
  load_from_metadata s = elim (g.all_entries s.metadata) [
    | err e ↦ (s, err (db e))
    | ok entries ↦ elim (load_entries nothing entries) [
      | err e ↦ (s, err e)
      | ok l ↦ (
        record s { nodes = l.nodes; ranges = l.ranges; next_timestamp = l.next_timestamp },
        ok tt,
      )
    ]
  ]

  abbrev placements : List RangeDescriptor → List RangePlacement
  placements [] = []
  placements (d ∷ ds) = record { descriptor = d; replicas = [] } ∷ placements ds

  unfoldable pub insert_placements :
      List RangePlacement → BTreeMap ℕ RangePlacement → BTreeMap ℕ RangePlacement
  insert_placements [] m = m
  insert_placements (p ∷ ps) m = insert_placements ps (BTreeMap.insert m p.descriptor.range_id p)

  abbrev values_of : BTreeMap ℕ RangePlacement → List RangePlacement
  values_of [] = []
  values_of ((id, p) ∷ m) = p ∷ values_of m

  -- Behind the load: ranges that the metadata does not have yet.
  unfoldable pub seed_ranges : List RangeDescriptor → Step g (Unit {0})
  seed_ranges descriptors s =
      if is_empty s.ranges
      then persist_placements g (values_of (insert_placements (placements descriptors) s.ranges))
          (record s { ranges = insert_placements (placements descriptors) s.ranges })
      else (s, ok tt)

  -- The group of the metadata has a directory of its own, so its bootstrap is apart.
  unfoldable pub bootstrap_with_config :
      (ℕ → DbResult C) → ℕ → ℕ → List RangeDescriptor → ℕ → ℕ → PlaneResult (ControlPlane C)
  bootstrap_with_config boot_metadata metadata_nodes data_nodes descriptors heartbeat_timeout
        suspect_timeout =
      elim (boot_metadata metadata_nodes) [
        | err e ↦ err (db e)
        | ok metadata ↦ elim (bootstrap_with_ranges g descriptors data_nodes 32) [
          | err e ↦ err (route e)
          | ok data_cluster ↦
              let s : ControlPlane C = record {
                metadata = metadata;
                data_cluster = data_cluster;
                nodes = [];
                ranges = [];
                next_timestamp = 0;
                heartbeat_timeout = heartbeat_timeout;
                suspect_timeout = suspect_timeout;
              } in
              let loaded = continue (λ u. seed_ranges descriptors) (load_from_metadata s) in
              elim loaded.1 [ err e ↦ err e | ok u ↦ ok loaded.0 ]
        ]
      ]
