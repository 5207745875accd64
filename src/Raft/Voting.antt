-- ===== src/Raft/Voting.antt =====
-- That a node votes for one candidate at most in a term, over any course of its turns, restarts
-- among them.
use helixdb.Prelude.{
  ℕ, ◌+◌, ◌≡◌, refl, inr, inl, Bool, true, false, ◌&&◌, List, ltb, none, arith, Bool-cases,
}
use helixdb.Raft.Node.{NodeState, is_leader, step_down, become_candidate, persist}
use helixdb.Raft.Vote.{can_vote, up_to_date, decide_vote, handle_request_vote}
use helixdb.Raft.Election.{start_election}
use helixdb.Raft.Events.{Event, run}
use helixdb.Raft.Promise.{Promised, Promised-run}

decide_vote-Promised :
    (s : NodeState) (changed : Bool) (term candidate_id i k : ℕ)
    → term ≡ s.current_term
    → (decide_vote s changed candidate_id i k).1.vote_granted ≡ true
    → Promised term candidate_id (decide_vote s changed candidate_id i k).0
unfolding decide_vote persist
decide_vote-Promised s changed term candidate_id i k q g =
    elim (Bool-cases (can_vote s.voted_for candidate_id && up_to_date s i k)) [
      | inr e ↦ absurd (ground (arith, g, e))
      | inl e ↦ rw e (record { memory = inr (q, refl); stored = inr (q, refl) })
    ]

step_down_adopts :
    (s : NodeState) (term : ℕ)
    → ltb s.current_term term ≡ true
    → term ≡ (step_down s term none).current_term
unfolding step_down
step_down_adopts s term h = rw h refl

pub handle_request_vote-Promised :
    (s : NodeState) (term candidate_id i k : ℕ)
    → (handle_request_vote s term candidate_id i k).1.vote_granted ≡ true
    → Promised term candidate_id (handle_request_vote s term candidate_id i k).0
unfolding handle_request_vote
handle_request_vote-Promised s term candidate_id i k g =
    elim (Bool-cases (ltb term s.current_term)) [
      | inl e ↦ absurd (ground (arith, g, e))
      | inr e ↦ elim (Bool-cases (ltb s.current_term term)) [
        | inl f ↦
            rw (e, f)
              (decide_vote-Promised (step_down s term none) true term candidate_id i k
                (step_down_adopts s term f) (rw (e, f) at g))
        | inr f ↦
            rw (e, f)
              (decide_vote-Promised s false term candidate_id i k (ground (arith, e, f))
                (rw (e, f) at g))
      ]
    ]

-- The candidate of a granted vote is the one that was promised the term.
pub granted-eq-Promised :
    (s : NodeState) (term c candidate_id i k : ℕ)
    → Promised term c s
    → (handle_request_vote s term candidate_id i k).1.vote_granted ≡ true
    → candidate_id ≡ c
unfolding handle_request_vote decide_vote can_vote
granted-eq-Promised s term c candidate_id i k p g = ground (arith, p.memory, g)

-- If a node grants its vote in a term, and after any further turns, restarts among them, grants its
-- vote in the same term again, then it is to the same candidate.
pub one_vote :
    (s : NodeState) (term c c' i i' k k' : ℕ) (events : List Event)
    → (handle_request_vote s term c i k).1.vote_granted ≡ true
    → (handle_request_vote
        (run (handle_request_vote s term c i k).0 events)
        term
        c'
        i'
        k').1.vote_granted
      ≡ true
    → c' ≡ c
one_vote s term c c' i i' k k' events g g' =
    granted-eq-Promised _ term c c' i' k'
      (Promised-run term c _ events (handle_request_vote-Promised s term c i k g)) g'

pub start_election-Promised :
    (s : NodeState)
    → is_leader s.role ≡ false
    → Promised (s.current_term + 1) s.id (start_election s)
unfolding start_election become_candidate persist
start_election-Promised s e = rw e (record { memory = inr (refl, refl); stored = inr (refl, refl) })

-- If a node that is no leader begins an election, which is in the next term, then after any further
-- turns it grants its vote in that term to no candidate but itself.
pub candidate_votes_self :
    (s : NodeState) (c i k : ℕ) (events : List Event)
    → is_leader s.role ≡ false
    → (handle_request_vote
        (run (start_election s) events)
        (s.current_term + 1)
        c
        i
        k).1.vote_granted
      ≡ true
    → c ≡ s.id
candidate_votes_self s c i k events e =
    granted-eq-Promised _ (s.current_term + 1) s.id c i k
      (Promised-run (s.current_term + 1) s.id _ events (start_election-Promised s e))
