-- ===== src/Raft/Election.antt =====
-- What a node does on its own and with the answers of its peers, each as the change of state under
-- one hold of the node's lock: the parts of `start_election_round`, `handle_propose` and
-- `replicate_peer_with_retry` of raft.rs, and `NodeState::open` after a restart. Other handlers may
-- run between the parts.
use helixdb.Prelude.{
  ℕ, ◌+◌, ◌-◌, min, max, Bool, true, false, not, ◌||◌, Option, none, some, List, [], ◌∷◌, ◌++◌, ltb,
  leb, ◌==◌, if◌then◌else◌,
}
use helixdb.Prelude.Bytes.{Bytes}
use helixdb.Prelude.Order.{nat_ord}
use helixdb.BTreeMap
use helixdb.BTreeMap.{BTreeMap}
use helixdb.Raft.Node.{
  NodeState, LogEntry, Command, follower, is_leader, is_candidate, majority, last_log_index,
  entry_at, term_of, step_down, become_candidate, become_leader, apply_committed_entries, persist,
  Disk, dummy_entry,
}
use helixdb.Raft.Snapshot.{maybe_snapshot}

-- The first part of `start_election_round`; a leader does nothing.
unfoldable pub start_election : NodeState → NodeState
start_election s = if is_leader s.role then s else persist (become_candidate s)

-- An answer of a peer with a higher term than the one that the node asked in.
unfoldable pub higher_term : NodeState → ℕ → NodeState
higher_term s term = persist (step_down s term none)

-- The end of `start_election_round`, with the votes and the majority counted when it began.
unfoldable pub win_election : NodeState → ℕ → ℕ → ℕ → NodeState
win_election s term votes needed =
    if ltb votes needed || not (s.current_term == term) || not (is_candidate s.role)
    then s
    else persist (become_leader s)

-- The first part of `handle_propose`: a leader appends the entry, whose index it gives.
unfoldable pub begin_propose : NodeState → Command → NodeState × Option ℕ
begin_propose s command =
    if not (is_leader s.role)
    then (s, none)
    else let index = last_log_index s + 1 in
      (
        persist (record s {
          log = s.log ++ record { index = index; term = s.current_term; command = command } ∷ [];
        }),
        some index,
      )

pub record ProposeResponse : Type 0 where
  pub term : ℕ
  pub success : Bool
  pub index : Option ℕ

-- Its end, before the heartbeats, with the number of nodes that have the entry.
unfoldable pub finish_propose : NodeState → ℕ → ℕ → ℕ → NodeState × ProposeResponse
finish_propose s term index replicated =
    if not (is_leader s.role) || not (s.current_term == term)
    then (s, record { term = s.current_term; success = false; index = none })
    else if leb (majority s) replicated
    then (
      persist (maybe_snapshot (apply_committed_entries (record s { commit_index = index }))),
      record { term = term; success = true; index = some index },
    )
    else (s, record { term = term; success = false; index = some index })

abbrev pub unwrap_or : Option ℕ → ℕ → ℕ
unwrap_or none default = default
unwrap_or (some n) default = n

pub data ReplicationAction : Type 0 where
  append : ℕ → ℕ → List LogEntry → ℕ → ReplicationAction
  send_snapshot : BTreeMap Bytes Bytes → ℕ → ℕ → ℕ → ReplicationAction

-- `filter(|entry| entry.index >= next_index)`
unfoldable pub entries_from : ℕ → List LogEntry → List LogEntry
entries_from bound [] = []
entries_from bound (e ∷ es) =
    let rest = entries_from bound es in if leb bound e.index then e ∷ rest else rest

-- What a round of `replicate_peer_with_retry` sends to the peer; `none` ends it.
unfoldable pub replication_action : NodeState → ℕ → ℕ → Option ReplicationAction
replication_action s peer term =
    if not (is_leader s.role) || not (s.current_term == term)
    then none
    else let next = unwrap_or (BTreeMap.get s.next_index peer) (last_log_index s + 1) in
      if leb next s.snapshot_index
      then some (send_snapshot s.kv s.snapshot_index s.snapshot_term s.commit_index)
      else let prev = next - 1 in
        let prev_term =
          if prev == s.snapshot_index
          then s.snapshot_term
          else if prev == 0
          then 0
          else term_of (entry_at s prev) 0 in
        some (append prev prev_term (entries_from next s.log) s.commit_index)

-- The answer to `append` was a success.
unfoldable pub append_succeeded : NodeState → ℕ → ℕ → NodeState
append_succeeded s peer match_index = record s {
  next_index = BTreeMap.insert s.next_index peer (match_index + 1);
  match_index = BTreeMap.insert s.match_index peer match_index;
}

-- The answer to `append` was a failure, or there was none.
unfoldable pub append_failed : NodeState → ℕ → NodeState
append_failed s peer =
    let current_next = unwrap_or (BTreeMap.get s.next_index peer) 1 in
    record s {
      next_index =
          BTreeMap.insert s.next_index peer (max (current_next - 1) (max (s.snapshot_index + 1) 1));
    }

-- The answer to `send_snapshot` was a success.
unfoldable pub snapshot_succeeded : NodeState → ℕ → ℕ → ℕ → NodeState
snapshot_succeeded s peer last_index leader_commit = record s {
  next_index = BTreeMap.insert s.next_index peer (last_index + 1);
  match_index = BTreeMap.insert s.match_index peer last_index;
  commit_index = if ltb s.commit_index leader_commit then leader_commit else s.commit_index;
}

-- `load_disk_state` of a directory that has none of the three files.
abbrev pub empty_disk : Disk
empty_disk = record {
  current_term = 0;
  voted_for = none;
  commit_index = 0;
  log = dummy_entry ∷ [];
  snapshot_index = 0;
  snapshot_term = 0;
  key_values = [];
}

-- `NodeState::open` on what the node has on disk; `old` gives what a restart does not change.
unfoldable pub open_node : NodeState → NodeState
open_node old =
    let d = old.disk in
    let s0 = record old {
      current_term = d.current_term;
      voted_for = d.voted_for;
      role = follower;
      leader_id = none;
      log = d.log;
      commit_index = max d.commit_index d.snapshot_index;
      last_applied = d.snapshot_index;
      snapshot_index = d.snapshot_index;
      snapshot_term = d.snapshot_term;
      kv = d.key_values;
      next_index = [];
      match_index = [];
    } in
    apply_committed_entries (record s0 { commit_index = min s0.commit_index (last_log_index s0) })
