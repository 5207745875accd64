-- ===== src/ControlPlane/Records/RoundTrip.antt =====
-- The records of control_plane.rs: what is encoded is decoded again.
use helixdb.Prelude.{◌^◌, ◌<◌, ◌≡◌, refl, [], ◌∷◌, length, arith, All, ok}
use helixdb.Prelude.Order.{bytes_ord}
use helixdb.ControlPlane.Text.{to_string, hex_encode}
use helixdb.ControlPlane.Text.Decimal.{parse_u64-to_string}
use helixdb.ControlPlane.Text.Hex.{hex_decode-hex_encode}
use helixdb.ControlPlane.Records.{
  NodeRecord, RangePlacement, status_code, node_parts, encode_node_record, decode_node_parts,
  decode_node_record, end_text, leader_text, replicas_text, range_parts, encode_range_placement,
  decode_range_parts, decode_range_placement,
}
use helixdb.ControlPlane.Records.Fields.{
  Reads, plain_Reads, to_string-IsPlain, status_code-IsPlain, parse_status-status_code,
  decode_replicas-replicas_text, replicas_text-IsPlain, hex_encode-IsPlain, EndFits, LeaderFits,
  decode_end-end_text, end_text-IsPlain, decode_leader-leader_text, leader_text-IsPlain,
}

-- Numbers that fit `u64`.
pub record NodeFits (r : NodeRecord) : Type 0 where
  pub id_fits : r.node_id < 2 ^ 64
  pub capacity_fits : r.capacity_units < 2 ^ 64
  pub heartbeat_fits : r.last_heartbeat_ms < 2 ^ 64

-- If the numbers of a node's record are `u64` numbers, decoding its text gives it back.
pub decode_node_record-encode_node_record :
    (r : NodeRecord) → NodeFits r → decode_node_record (encode_node_record r) ≡ ok r
unfolding decode_node_record encode_node_record decode_node_parts node_parts
decode_node_record-encode_node_record r h =
    let reads =
      plain_Reads (to_string r.node_id)
        (status_code r.status ∷ to_string r.capacity_units ∷ to_string r.last_heartbeat_ms ∷ [])
        (to_string-IsPlain r.node_id)
        (
          status_code-IsPlain r.status,
          (to_string-IsPlain r.capacity_units, (to_string-IsPlain r.last_heartbeat_ms, tt)),
        ) in
    ground (
      arith,
      reads.utf8,
      reads.is_split,
      parse_u64-to_string r.node_id h.id_fits,
      parse_status-status_code r.status,
      parse_u64-to_string r.capacity_units h.capacity_fits,
      parse_u64-to_string r.last_heartbeat_ms h.heartbeat_fits,
    )

-- Bytes below 256 and numbers that fit `u64`.
pub record PlacementFits (p : RangePlacement) : Type 0 where
  pub id_fits : p.descriptor.range_id < 2 ^ 64
  pub start_fits : All (λ b. b < 256) p.descriptor.start
  pub end_fits : EndFits p.descriptor.end
  pub epoch_fits : p.descriptor.epoch < 2 ^ 64
  pub group_fits : p.descriptor.raft_group_id < 2 ^ 64
  pub leader_fits : LeaderFits p.descriptor.leader_hint
  pub replicas_fit : All (λ n. n < 2 ^ 64) p.replicas

range_parts-Reads : (p : RangePlacement) → PlacementFits p → Reads (range_parts p)
unfolding range_parts
range_parts-Reads p h =
    plain_Reads (to_string p.descriptor.range_id)
      (hex_encode p.descriptor.start
        ∷ end_text p.descriptor.end
        ∷ to_string p.descriptor.epoch
        ∷ to_string p.descriptor.raft_group_id
        ∷ leader_text p.descriptor.leader_hint
        ∷ replicas_text p.replicas
        ∷ [])
      (to_string-IsPlain p.descriptor.range_id)
      (
        hex_encode-IsPlain p.descriptor.start h.start_fits,
        (
          end_text-IsPlain p.descriptor.end h.end_fits,
          (
            to_string-IsPlain p.descriptor.epoch,
            (
              to_string-IsPlain p.descriptor.raft_group_id,
              (
                leader_text-IsPlain p.descriptor.leader_hint,
                (replicas_text-IsPlain p.replicas, tt),
              ),
            ),
          ),
        ),
      )

decode_range_parts-range_parts :
    (p : RangePlacement) → PlacementFits p → decode_range_parts (range_parts p) ≡ ok p
unfolding decode_range_parts range_parts
decode_range_parts-range_parts p h = ground (
  arith,
  parse_u64-to_string p.descriptor.range_id h.id_fits,
  hex_decode-hex_encode p.descriptor.start h.start_fits,
  decode_end-end_text p.descriptor.end h.end_fits,
  parse_u64-to_string p.descriptor.epoch h.epoch_fits,
  parse_u64-to_string p.descriptor.raft_group_id h.group_fits,
  decode_leader-leader_text p.descriptor.leader_hint h.leader_fits,
  decode_replicas-replicas_text p.replicas h.replicas_fit,
)

length-range_parts : (p : RangePlacement) → length (range_parts p) ≡ 7
unfolding range_parts
length-range_parts p = refl

-- If the bytes of a placement are below 256 and its numbers are `u64` numbers, decoding its text
-- gives it back, without an end, a leader or replicas, too.
pub decode_range_placement-encode_range_placement :
    (p : RangePlacement)
    → PlacementFits p
    → decode_range_placement (encode_range_placement p) ≡ ok p
unfolding decode_range_placement encode_range_placement
decode_range_placement-encode_range_placement p h =
    let reads = range_parts-Reads p h in
    ground
      (arith, reads.utf8, reads.is_split, decode_range_parts-range_parts p h, length-range_parts p)
