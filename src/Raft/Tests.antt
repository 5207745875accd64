-- ===== src/Raft/Tests.antt =====
-- A follower of three nodes that votes for node 2, takes an entry from it and is restarted.
use helixdb.Prelude.{ℕ, ◌≡◌, refl, true, none, List, [], ◌∷◌}
use helixdb.Prelude.Order.{bytes_cmp}
use helixdb.BTreeMap.{insert}
use helixdb.Raft.Node.{
  NodeState, LogEntry, follower, put, dummy_entry, last_log_index, last_log_term, find_index,
  entry_at, step_down, become_candidate, apply_entry, apply_rounds, apply_committed_entries,
  persist,
}
use helixdb.Raft.Vote.{can_vote, up_to_date, decide_vote, handle_request_vote}
use helixdb.Raft.Snapshot.{maybe_snapshot, needs_step_down, follow}
use helixdb.Raft.Append.{
  check_prev, place_entry, place_entries, advance_commit, finish_append, after_entries,
  handle_append_entries,
}
use helixdb.Raft.Election.{empty_disk, start_election, open_node}
use helixdb.Raft.Events.{Event, append_entries, request_vote, restart, step, run}
use helixdb.Prelude.{inl, inr, false, arith}
use helixdb.Raft.Node.{majority}
use helixdb.Raft.Events.{election_timeout}
use helixdb.Raft.Quorum.{History, Votes, grants, stands, election_safety}
use helixdb.Raft.Voting.{one_vote, candidate_votes_self}

abbrev pub node : NodeState
node = record {
  id = 1;
  snapshot_threshold_entries = 64;
  peers = 2 ∷ 3 ∷ [];
  current_term = 0;
  voted_for = none;
  role = follower;
  leader_id = none;
  log = dummy_entry ∷ [];
  commit_index = 0;
  last_applied = 0;
  snapshot_index = 0;
  snapshot_term = 0;
  kv = [];
  next_index = [];
  match_index = [];
  disk = empty_disk;
}

abbrev pub entry : LogEntry
entry = record { index = 1; term = 5; command = put (7 ∷ []) (8 ∷ []) }

abbrev rival : ℕ
rival = 2

abbrev pub turns : List Event
turns = append_entries 5 2 0 0 (entry ∷ []) 1 ∷ request_vote 5 3 9 9 ∷ restart ∷ []

first_grant : (handle_request_vote node 5 2 0 0).1.vote_granted ≡ true
unfolding handle_request_vote decide_vote step_down can_vote up_to_date last_log_index last_log_term
    persist
first_grant = refl

second_grant :
    (handle_request_vote (run (handle_request_vote node 5 2 0 0).0 turns) 5 2 1 5).1.vote_granted
    ≡ true
unfolding run step handle_request_vote decide_vote step_down can_vote up_to_date last_log_index
    last_log_term persist handle_append_entries follow needs_step_down check_prev place_entries
    place_entry after_entries finish_append advance_commit maybe_snapshot apply_committed_entries
    apply_rounds apply_entry entry_at find_index insert bytes_cmp open_node
second_grant = refl

one_vote_example : rival ≡ rival
one_vote_example = one_vote node 5 2 2 0 1 0 5 turns first_grant second_grant

own_grant :
    (handle_request_vote (run (start_election node) (restart ∷ [])) 1 1 0 0).1.vote_granted ≡ true
unfolding run step start_election become_candidate handle_request_vote decide_vote can_vote
    up_to_date last_log_index last_log_term persist apply_committed_entries apply_rounds open_node
own_grant = refl

candidate_votes_self_example : node.id ≡ node.id
candidate_votes_self_example = candidate_votes_self node 1 0 0 (restart ∷ []) refl own_grant

-- The node 1 stands for the term 1, is restarted and stands again, for the term 2; node 2 votes for
-- it in the term 2.
abbrev second_node : NodeState
second_node = record node { id = 2; peers = 1 ∷ 3 ∷ [] }

abbrev third_node : NodeState
third_node = record node { id = 3; peers = 1 ∷ 2 ∷ [] }

abbrev cluster : List History
cluster =
    (node, election_timeout ∷ restart ∷ election_timeout ∷ [])
    ∷ (second_node, request_vote 2 1 0 0 ∷ [])
    ∷ (third_node, [])
    ∷ []

own-Votes : Votes node 2 1 (election_timeout ∷ restart ∷ election_timeout ∷ [])
unfolding step start_election become_candidate persist open_node apply_committed_entries
    apply_rounds last_log_index
own-Votes = inr (inr (inl (stands refl refl refl refl)))

other-Votes : Votes second_node 2 1 (request_vote 2 1 0 0 ∷ [])
unfolding handle_request_vote decide_vote step_down can_vote up_to_date last_log_index last_log_term
    persist
other-Votes = inl (grants 0 0 refl refl)

election_safety_example : node.id ≡ node.id
unfolding majority
election_safety_example =
    election_safety cluster 2 node.id node.id node node (true ∷ true ∷ false ∷ [])
      (true ∷ true ∷ false ∷ []) refl refl
      ((λ h. own-Votes), ((λ h. other-Votes), ((λ h. absurd (cc h)), tt)))
      ((λ h. own-Votes), ((λ h. other-Votes), ((λ h. absurd (cc h)), tt))) (omega arith)
      (omega arith)
