-- ===== src/Raft/Node.antt =====
-- `NodeState` of raft.rs with its methods. The configuration is the one number that they read; the
-- deadlines and the directory of the node are left out. Indices and terms are `u64`: the code panics
-- or wraps past 2 ^ 64, which no log reaches.
use helixdb.Prelude.{
  ℕ, zero, suc, ◌+◌, ◌-◌, ◌/◌, Bool, true, false, Option, none, some, List, [], ◌∷◌, length, drop,
  ltb, leb, ◌==◌, if◌then◌else◌,
}
use helixdb.Prelude.Bytes.{Bytes}
use helixdb.Prelude.Order.{nat_ord, bytes_ord}
use helixdb.BTreeMap
use helixdb.BTreeMap.{BTreeMap}

pub data RaftRole : Type 0 where
  follower candidate leader : RaftRole

pub data Command : Type 0 where
  put : Bytes → Bytes → Command
  delete : Bytes → Command

pub record LogEntry : Type 0 where
  pub index : ℕ
  pub term : ℕ
  pub command : Command

-- `dummy_entry`: the first entry of every log, which the reads skip
abbrev pub dummy_entry : LogEntry
dummy_entry = record { index = 0; term = 0; command = delete [] }

-- What `persist` and `persist_snapshot` have written last.
pub record Disk : Type 0 where
  pub current_term : ℕ
  pub voted_for : Option ℕ
  pub commit_index : ℕ
  pub log : List LogEntry
  pub snapshot_index : ℕ
  pub snapshot_term : ℕ
  pub key_values : BTreeMap Bytes Bytes

pub record NodeState : Type 0 where
  pub id : ℕ
  pub snapshot_threshold_entries : ℕ
  pub peers : List ℕ
  pub current_term : ℕ
  pub voted_for : Option ℕ
  pub role : RaftRole
  pub leader_id : Option ℕ
  pub log : List LogEntry
  pub commit_index : ℕ
  pub last_applied : ℕ
  pub snapshot_index : ℕ
  pub snapshot_term : ℕ
  pub kv : BTreeMap Bytes Bytes
  pub next_index : BTreeMap ℕ ℕ
  pub match_index : BTreeMap ℕ ℕ
  pub disk : Disk

abbrev pub is_leader : RaftRole → Bool
is_leader leader = true
is_leader candidate = false
is_leader follower = false

abbrev pub is_candidate : RaftRole → Bool
is_candidate leader = false
is_candidate candidate = true
is_candidate follower = false

abbrev pub is_follower : RaftRole → Bool
is_follower leader = false
is_follower candidate = false
is_follower follower = true

unfoldable pub majority : NodeState → ℕ
majority s = (length s.peers + 1) / 2 + 1

-- The last entry of a log behind its first one, the dummy.
abbrev pub last_behind : List LogEntry → Option LogEntry
last_behind [] = none
last_behind (d ∷ []) = none
last_behind (d ∷ e ∷ []) = some e
last_behind (d ∷ e ∷ f ∷ es) = last_behind (e ∷ f ∷ es)

unfoldable pub last_log_index : NodeState → ℕ
last_log_index s = elim (last_behind s.log) [ none ↦ s.snapshot_index | some e ↦ e.index ]

unfoldable pub last_log_term : NodeState → ℕ
last_log_term s = elim (last_behind s.log) [ none ↦ s.snapshot_term | some e ↦ e.term ]

-- `iter().find(|entry| entry.index == index)`
unfoldable pub find_index : List LogEntry → ℕ → Option LogEntry
find_index [] i = none
find_index (e ∷ es) i = let rest = find_index es i in if e.index == i then some e else rest

unfoldable pub entry_at : NodeState → ℕ → Option LogEntry
entry_at s i = if leb i s.snapshot_index then none else find_index (drop 1 s.log) i

abbrev pub term_of : Option LogEntry → ℕ → ℕ
term_of none default = default
term_of (some e) default = e.term

unfoldable pub step_down : NodeState → ℕ → Option ℕ → NodeState
step_down s term leader_id =
    let fresh = ltb s.current_term term in
    record s {
      current_term = if fresh then term else s.current_term;
      voted_for = if fresh then none else s.voted_for;
      role = follower;
      leader_id = leader_id;
      next_index = [];
      match_index = [];
    }

unfoldable pub become_candidate : NodeState → NodeState
become_candidate s = record s {
  role = candidate;
  current_term = s.current_term + 1;
  voted_for = some s.id;
  leader_id = none;
  next_index = [];
  match_index = [];
}

-- `insert(peer, value)` for every peer, into an empty map
abbrev pub for_peers : List ℕ → ℕ → BTreeMap ℕ ℕ → BTreeMap ℕ ℕ
for_peers [] v m = m
for_peers (p ∷ ps) v m = for_peers ps v (BTreeMap.insert m p v)

unfoldable pub become_leader : NodeState → NodeState
become_leader s = record s {
  role = leader;
  leader_id = some s.id;
  next_index = for_peers s.peers (last_log_index s + 1) [];
  match_index = for_peers s.peers 0 [];
}

unfoldable pub apply_entry : BTreeMap Bytes Bytes → Command → BTreeMap Bytes Bytes
apply_entry kv (put key value) = BTreeMap.insert kv key value
apply_entry kv (delete key) = BTreeMap.remove kv key

-- The loop, with the rounds that `commit_index` leaves: each raises `last_applied` by one or ends it.
unfoldable pub apply_rounds : ℕ → NodeState → NodeState
apply_rounds zero s = s
apply_rounds (suc left) s = elim (entry_at s (s.last_applied + 1)) [
  | none ↦ s
  | some e ↦
      apply_rounds left
        (record s { kv = apply_entry s.kv e.command; last_applied = s.last_applied + 1 })
]

unfoldable pub apply_committed_entries : NodeState → NodeState
apply_committed_entries s = apply_rounds (s.commit_index - s.last_applied) s

unfoldable pub persist : NodeState → NodeState
persist s = record s {
  disk = record s.disk {
    current_term = s.current_term;
    voted_for = s.voted_for;
    commit_index = s.commit_index;
    log = s.log;
  };
}

unfoldable pub persist_snapshot : NodeState → NodeState
persist_snapshot s = record s {
  disk = record s.disk {
    snapshot_index = s.snapshot_index;
    snapshot_term = s.snapshot_term;
    key_values = s.kv;
  };
}

-- `filter(|entry| entry.index > snapshot_index)`
unfoldable pub entries_above : ℕ → List LogEntry → List LogEntry
entries_above bound [] = []
entries_above bound (e ∷ es) =
    let rest = entries_above bound es in if ltb bound e.index then e ∷ rest else rest

unfoldable pub compact_log_entries : List LogEntry → ℕ → List LogEntry
compact_log_entries log snapshot_index = dummy_entry ∷ entries_above snapshot_index (drop 1 log)
