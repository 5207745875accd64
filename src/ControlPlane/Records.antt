-- ===== src/ControlPlane/Records.antt =====
-- The records of control_plane.rs and their text.
pub mod Fields
pub mod RoundTrip
use helixdb.Prelude.{
  ℕ, ◌+◌, ◌^◌, Bool, true, false, ◌||◌, Option, none, some, List, [], ◌∷◌, ◌++◌, length, map, ◌==◌,
  if◌then◌else◌, Result, ok, err, String, ok_or, get_elem?, ◌>>=◌,
}
use helixdb.Prelude.Bytes.{Bytes, le_bytes, from_le_bytes}
use helixdb.Prelude.Order.{bytes_ord, eqb}
use helixdb.Errors.{DbError}
use helixdb.Sharding.Range.{RangeDescriptor, RangeRoutingError}
use helixdb.ControlPlane.Text.{to_string, parse_u64, split, join, is_utf8, hex_encode, hex_decode}

pub data NodeStatus : Type 0 where
  healthy : NodeStatus
  suspect : NodeStatus
  dead : NodeStatus

abbrev pub same_status : NodeStatus → NodeStatus → Bool
same_status healthy healthy = true
same_status suspect suspect = true
same_status dead dead = true
same_status a b = false

pub record NodeRecord : Type 0 where
  pub node_id : ℕ
  pub capacity_units : ℕ
  pub last_heartbeat_ms : ℕ
  pub status : NodeStatus

pub record RangePlacement : Type 0 where
  pub descriptor : RangeDescriptor
  pub replicas : List ℕ

pub data ControlPlaneError : Type 0 where
  db : DbError → ControlPlaneError
  route : RangeRoutingError → ControlPlaneError
  unknown_node : ℕ → ControlPlaneError
  unknown_range : ℕ → ControlPlaneError
  invalid_record : String → ControlPlaneError

abbrev pub PlaneResult {ℓ} : Type ℓ → Type ℓ
PlaneResult A = Result ControlPlaneError A

-- `?` where the error is a text
abbrev pub named {ℓ} : {A : Type ℓ} → Result String A → PlaneResult A
named (ok a) = ok a
named (err m) = err (invalid_record m)

-- `parse::<u64>()` with the message of its failure
abbrev pub parse_or : Bytes → String → PlaneResult ℕ
parse_or text message = ok_or (parse_u64 text) (invalid_record message)

unfoldable pub status_code : NodeStatus → Bytes
status_code healthy = 104 ∷ 101 ∷ 97 ∷ 108 ∷ 116 ∷ 104 ∷ 121 ∷ []
status_code suspect = 115 ∷ 117 ∷ 115 ∷ 112 ∷ 101 ∷ 99 ∷ 116 ∷ []
status_code dead = 100 ∷ 101 ∷ 97 ∷ 100 ∷ []

unfoldable pub parse_status : Bytes → PlaneResult NodeStatus
unfolding status_code
parse_status text =
    if eqb text (status_code healthy)
    then ok healthy
    else if eqb text (status_code suspect)
    then ok suspect
    else if eqb text (status_code dead)
    then ok dead
    else err (invalid_record "invalid node status")

unfoldable pub node_parts : NodeRecord → List Bytes
node_parts r =
    to_string r.node_id
    ∷ status_code r.status
    ∷ to_string r.capacity_units
    ∷ to_string r.last_heartbeat_ms
    ∷ []

unfoldable pub encode_node_record : NodeRecord → Bytes
encode_node_record r = join 124 (node_parts r)

-- `parts.get(i)` with the message of its absence
abbrev pub part : List Bytes → ℕ → String → PlaneResult Bytes
part parts i message = ok_or (get_elem? parts i) (invalid_record message)

-- Behind the split: the first four parts, what follows them is ignored.
unfoldable pub decode_node_parts : List Bytes → PlaneResult NodeRecord
decode_node_parts parts = do
  id ← part parts 0 "missing node id"
  node_id ← parse_or id "invalid node id"
  code ← part parts 1 "missing node status"
  status ← parse_status code
  capacity ← part parts 2 "missing node capacity"
  capacity_units ← parse_or capacity "invalid node capacity"
  heartbeat ← part parts 3 "missing node heartbeat"
  last_heartbeat_ms ← parse_or heartbeat "invalid heartbeat"
  ok (record {
    node_id = node_id;
    capacity_units = capacity_units;
    last_heartbeat_ms = last_heartbeat_ms;
    status = status;
  })

unfoldable pub decode_node_record : Bytes → PlaneResult NodeRecord
decode_node_record bytes =
    if is_utf8 bytes
    then decode_node_parts (split 124 bytes)
    else err (invalid_record "node record is not utf8")

-- `-` stands for what is absent.
unfoldable pub end_text : Option Bytes → Bytes
end_text none = 45 ∷ []
end_text (some end) = hex_encode end

unfoldable pub leader_text : Option ℕ → Bytes
leader_text none = 45 ∷ []
leader_text (some n) = to_string n

unfoldable pub replicas_text : List ℕ → Bytes
replicas_text replicas = join 44 (map to_string replicas)

unfoldable pub range_parts : RangePlacement → List Bytes
range_parts p =
    to_string p.descriptor.range_id
    ∷ hex_encode p.descriptor.start
    ∷ end_text p.descriptor.end
    ∷ to_string p.descriptor.epoch
    ∷ to_string p.descriptor.raft_group_id
    ∷ leader_text p.descriptor.leader_hint
    ∷ replicas_text p.replicas
    ∷ []

unfoldable pub encode_range_placement : RangePlacement → Bytes
encode_range_placement p = join 124 (range_parts p)

unfoldable pub decode_end : Bytes → PlaneResult (Option Bytes)
decode_end raw =
    if eqb raw (45 ∷ []) then ok none else do end ← named (hex_decode raw); ok (some end)

unfoldable pub decode_leader : Bytes → PlaneResult (Option ℕ)
decode_leader raw =
    if eqb raw (45 ∷ []) then ok none else do n ← parse_or raw "invalid leader hint"; ok (some n)

unfoldable pub parse_replicas : List Bytes → PlaneResult (List ℕ)
parse_replicas [] = ok []
parse_replicas (text ∷ texts) = do
  n ← parse_or text "invalid replica node id"
  ns ← parse_replicas texts
  ok (n ∷ ns)

unfoldable pub decode_replicas : Bytes → PlaneResult (List ℕ)
decode_replicas [] = ok []
decode_replicas (c ∷ cs) = parse_replicas (split 44 (c ∷ cs))

-- A record of eight parts has one more before the replicas.
unfoldable pub decode_range_parts : List Bytes → PlaneResult RangePlacement
decode_range_parts parts = do
  id ← part parts 0 "missing range id"
  range_id ← parse_or id "invalid range id"
  start_text ← part parts 1 "missing range start"
  start ← named (hex_decode start_text)
  end_raw ← part parts 2 "missing range end"
  end ← decode_end end_raw
  epoch_text ← part parts 3 "missing range epoch"
  epoch ← parse_or epoch_text "invalid range epoch"
  group ← part parts 4 "missing raft group id"
  raft_group_id ← parse_or group "invalid raft group id"
  leader_raw ← part parts 5 "missing leader hint"
  leader_hint ← decode_leader leader_raw
  replicas_raw ← part parts (if length parts == 8 then 7 else 6) "missing replicas"
  replicas ← decode_replicas replicas_raw
  ok (record {
    descriptor = record {
      range_id = range_id;
      start = start;
      end = end;
      epoch = epoch;
      raft_group_id = raft_group_id;
      leader_hint = leader_hint;
    };
    replicas = replicas;
  })

unfoldable pub decode_range_placement : Bytes → PlaneResult RangePlacement
decode_range_placement bytes =
    if is_utf8 bytes
    then if length (split 124 bytes) == 7 || length (split 124 bytes) == 8
      then decode_range_parts (split 124 bytes)
      else err (invalid_record "range record has unexpected field count")
    else err (invalid_record "range record is not utf8")

unfoldable pub decode_timestamp : Bytes → PlaneResult ℕ
decode_timestamp bytes =
    if length bytes == 8
    then ok (from_le_bytes bytes)
    else err (invalid_record "timestamp record must be exactly 8 bytes")
