-- ===== src/Raft/Vote.antt =====
-- `handle_request_vote` of raft.rs. A write of the node's files that fails ends its thread; that is
-- left out here and in the other handlers.
use helixdb.Prelude.{
  ℕ, Bool, true, false, ◌&&◌, ◌||◌, Option, none, some, ltb, leb, ◌==◌, if◌then◌else◌,
}
use helixdb.Raft.Node.{NodeState, last_log_index, last_log_term, step_down, persist}

pub record VoteResponse : Type 0 where
  pub term : ℕ
  pub vote_granted : Bool

-- `voted_for.is_none() || voted_for == Some(candidate_id)`
unfoldable pub can_vote : Option ℕ → ℕ → Bool
can_vote none candidate_id = true
can_vote (some c) candidate_id = c == candidate_id

unfoldable pub up_to_date : NodeState → ℕ → ℕ → Bool
up_to_date s index term =
    ltb (last_log_term s) term || (term == last_log_term s && leb (last_log_index s) index)

-- The grant, after the term of the request has been adopted.
unfoldable pub decide_vote : NodeState → Bool → ℕ → ℕ → ℕ → NodeState × VoteResponse
decide_vote s term_changed candidate_id last_index last_term =
    if can_vote s.voted_for candidate_id && up_to_date s last_index last_term
    then (
      persist (record s { voted_for = some candidate_id; leader_id = none }),
      record { term = s.current_term; vote_granted = true },
    )
    else (
      if term_changed then persist s else s,
      record { term = s.current_term; vote_granted = false },
    )

unfoldable pub handle_request_vote : NodeState → ℕ → ℕ → ℕ → ℕ → NodeState × VoteResponse
handle_request_vote s term candidate_id last_index last_term =
    if ltb term s.current_term
    then (s, record { term = s.current_term; vote_granted = false })
    else if ltb s.current_term term
    then decide_vote (step_down s term none) true candidate_id last_index last_term
    else decide_vote s false candidate_id last_index last_term
