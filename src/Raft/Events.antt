-- ===== src/Raft/Events.antt =====
-- The turns of a node, in the order in which they get its lock: `run_node` of raft.rs, where each
-- message is one event, and the parts of the node's own work, between which others may run. A
-- restart opens the node again from what it has on disk.
use helixdb.Prelude.{ℕ, List, [], ◌∷◌}
use helixdb.Prelude.Bytes.{Bytes}
use helixdb.Raft.Node.{NodeState, LogEntry, Command}
use helixdb.Raft.Vote.{handle_request_vote}
use helixdb.Raft.Append.{handle_append_entries}
use helixdb.Raft.Snapshot.{handle_install_snapshot}
use helixdb.Raft.Election.{
  start_election, higher_term, win_election, begin_propose, finish_propose, append_succeeded,
  append_failed, snapshot_succeeded, open_node,
}

pub data Event : Type 0 where
  request_vote : ℕ → ℕ → ℕ → ℕ → Event
  append_entries : ℕ → ℕ → ℕ → ℕ → List LogEntry → ℕ → Event
  install_snapshot : ℕ → ℕ → ℕ → ℕ → List (Bytes × Bytes) → Event
  election_timeout : Event
  saw_term : ℕ → Event
  votes_counted : ℕ → ℕ → ℕ → Event
  propose : Command → Event
  replicated : ℕ → ℕ → ℕ → Event
  append_answered : ℕ → ℕ → Event
  append_refused : ℕ → Event
  snapshot_answered : ℕ → ℕ → ℕ → Event
  restart : Event

unfoldable pub step : NodeState → Event → NodeState
step s (request_vote term candidate_id last_index last_term) =
    (handle_request_vote s term candidate_id last_index last_term).0
step s (append_entries term leader_id prev_index prev_term entries leader_commit) =
    (handle_append_entries s term leader_id prev_index prev_term entries leader_commit).0
step s (install_snapshot term leader_id last_index last_term snapshot) =
    (handle_install_snapshot s term leader_id last_index last_term snapshot).0
step s election_timeout = start_election s
step s (saw_term term) = higher_term s term
step s (votes_counted term votes needed) = win_election s term votes needed
step s (propose command) = (begin_propose s command).0
step s (replicated term index count) = (finish_propose s term index count).0
step s (append_answered peer match_index) = append_succeeded s peer match_index
step s (append_refused peer) = append_failed s peer
step s (snapshot_answered peer last_index leader_commit) =
    snapshot_succeeded s peer last_index leader_commit
step s restart = open_node s

unfoldable pub run : NodeState → List Event → NodeState
run s [] = s
run s (e ∷ es) = run (step s e) es
