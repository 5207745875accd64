-- ===== src/ControlPlane/Tests.antt =====
-- The oracle, the registry and the records of the control plane on concrete inputs.
use helixdb.Prelude.{ℕ, ◌≡◌, refl, some, [], ◌∷◌, ok, arith, All}
use helixdb.BTreeMap.{BTreeMap}
use helixdb.Sharding.InMemory.{Group, in_memory, range_of, booted}
use helixdb.ControlPlane.Records.{
  healthy, dead, NodeRecord, RangePlacement, encode_node_record, decode_node_record,
  encode_range_placement, decode_range_placement,
}
use helixdb.ControlPlane.Records.RoundTrip.{
  decode_node_record-encode_node_record, decode_range_placement-encode_range_placement,
}
use helixdb.ControlPlane.Plane.{ControlPlane}
use helixdb.ControlPlane.Health.{rebalance_ranges}
use helixdb.ControlPlane.Health.Leaders.{IsLed, rebalance_ranges-IsLed}
use helixdb.BTreeMap
use helixdb.ControlPlane.Oracle.Increasing.{Above, batches, batches-Above}

abbrev first_node : NodeRecord
first_node = record {
  node_id = 1;
  capacity_units = 100;
  last_heartbeat_ms = 1700000000000;
  status = dead;
}

abbrev second_node : NodeRecord
second_node = record {
  node_id = 2;
  capacity_units = 100;
  last_heartbeat_ms = 1700000009000;
  status = healthy;
}

abbrev registry : BTreeMap ℕ NodeRecord
registry = (1, first_node) ∷ (2, second_node) ∷ []

-- Led by the dead node, with the other one as a replica.
abbrev placement : RangePlacement
placement = record {
  descriptor = record (range_of 7 (0 ∷ 255 ∷ []) (some (171 ∷ []))) { leader_hint = some 1 };
  replicas = 1 ∷ 2 ∷ [];
}

abbrev plane : ControlPlane Group
plane = record {
  metadata = record { entries = []; leader = some 1 };
  data_cluster = booted;
  nodes = registry;
  ranges = (7, placement) ∷ [];
  next_timestamp = 40;
  heartbeat_timeout = 10000;
  suspect_timeout = 5000;
}

batches-Above_example : Above 40 (batches in_memory (5 ∷ 0 ∷ 2 ∷ []) plane)
batches-Above_example = batches-Above in_memory (5 ∷ 0 ∷ 2 ∷ []) plane

rebalance_ranges-IsLed_example :
    All (λ e. IsLed registry e.1) (rebalance_ranges registry ((7, placement) ∷ []))
unfolding BTreeMap.get
rebalance_ranges-IsLed_example =
    rebalance_ranges-IsLed registry ((7, placement) ∷ []) 2 ((refl, tt), (tt, tt))
      (refl, (refl, tt)) (record { node = second_node; registered = refl; status = refl })

decode_node_record-encode_node_record_example :
    decode_node_record (encode_node_record first_node) ≡ ok first_node
decode_node_record-encode_node_record_example =
    decode_node_record-encode_node_record first_node
      (record { id_fits = omega arith; capacity_fits = omega arith; heartbeat_fits = omega arith })

decode_range_placement-encode_range_placement_example :
    decode_range_placement (encode_range_placement placement) ≡ ok placement
decode_range_placement-encode_range_placement_example =
    decode_range_placement-encode_range_placement placement (record {
      id_fits = omega arith;
      start_fits = (omega arith, (omega arith, tt));
      end_fits = (omega arith, tt);
      epoch_fits = omega arith;
      group_fits = omega arith;
      leader_fits = omega arith;
      replicas_fit = (omega arith, (omega arith, tt));
    })
