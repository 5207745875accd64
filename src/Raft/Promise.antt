-- ===== src/Raft/Promise.antt =====
-- That a node has voted in a term, in memory and on disk, and that no turn of the node forgets it.
use helixdb.Prelude.{
  ℕ, zero, suc, ◌+◌, ◌<◌, ◌≡◌, ◌⊎◌, inl, inr, Bool, true, false, ◌||◌, Option, none, some, List, [],
  ◌∷◌, ltb, leb, ◌==◌, arith, Bool-cases, Option-cases,
}
use helixdb.Prelude.Branches.{if_both, OnFirst, OnFirst-if}
use helixdb.Prelude.Bytes.{Bytes}
use helixdb.Raft.Node.{
  NodeState, LogEntry, Command, entry_at, step_down, become_candidate, become_leader, apply_rounds,
  apply_committed_entries, persist, persist_snapshot,
}
use helixdb.Raft.Vote.{can_vote, up_to_date, decide_vote, handle_request_vote}
use helixdb.Raft.Snapshot.{
  create_snapshot, maybe_snapshot, install_snapshot as put_snapshot, needs_step_down, follow,
  handle_install_snapshot,
}
use helixdb.Raft.Append.{
  check_prev, place_entry, Placed, gap, placed, place_entries, advance_commit, finish_append,
  after_entries, handle_append_entries,
}
use helixdb.Raft.Election.{
  start_election, higher_term, win_election, begin_propose, finish_propose, append_succeeded,
  append_failed, snapshot_succeeded, open_node,
}
use helixdb.Raft.Events.{
  Event, request_vote, append_entries, install_snapshot, election_timeout, saw_term, votes_counted,
  propose, replicated, append_answered, append_refused, snapshot_answered, restart, step, run,
}

-- The term is past, or it is the current one and the vote is for the candidate.
abbrev pub Keeps : ℕ → ℕ → ℕ → Option ℕ → Type 0
Keeps term candidate_id current_term voted_for =
    (term < current_term) ⊎ ((term ≡ current_term) × (voted_for ≡ some candidate_id))

pub record Promised (term candidate_id : ℕ) (s : NodeState) : Type 0 where
  pub memory : Keeps term candidate_id s.current_term s.voted_for
  pub stored : Keeps term candidate_id s.disk.current_term s.disk.voted_for

module _ (t c : ℕ) where
  Promised-persist : (s : NodeState) → Promised t c s → Promised t c (persist s)
  unfolding persist
  Promised-persist s h = record { memory = h.memory; stored = h.memory }

  Promised-persist_snapshot : (s : NodeState) → Promised t c s → Promised t c (persist_snapshot s)
  unfolding persist_snapshot
  Promised-persist_snapshot s h = record { memory = h.memory; stored = h.stored }

  Promised-step_down :
      (s : NodeState) (term : ℕ) (leader_id : Option ℕ)
      → Promised t c s
      → Promised t c (step_down s term leader_id)
  unfolding step_down
  Promised-step_down s term leader_id h = record {
    memory = ground (arith, h.memory);
    stored = h.stored;
  }

  Promised-apply_rounds :
      (left : ℕ) (s : NodeState) → Promised t c s → Promised t c (apply_rounds left s)
  unfolding apply_rounds
  Promised-apply_rounds zero s h = h
  Promised-apply_rounds (suc left) s h = elim (Option-cases (entry_at s (s.last_applied + 1))) [
    | inl e ↦ rw (apply_rounds, e) h
    | inr (x, e) ↦
        rw (apply_rounds, e)
          (Promised-apply_rounds left _ (record { memory = h.memory; stored = h.stored }))
  ]

  Promised-apply_committed_entries :
      (s : NodeState) → Promised t c s → Promised t c (apply_committed_entries s)
  unfolding apply_committed_entries
  Promised-apply_committed_entries s h = Promised-apply_rounds _ s h

  Promised-create_snapshot :
      (s : NodeState) (i : ℕ) → Promised t c s → Promised t c (create_snapshot s i)
  unfolding create_snapshot
  Promised-create_snapshot s i h = if_both (Promised t c) (leb i s.snapshot_index) h (
      Promised-persist _
        (Promised-persist_snapshot _ (record { memory = h.memory; stored = h.stored })))

  Promised-maybe_snapshot : (s : NodeState) → Promised t c s → Promised t c (maybe_snapshot s)
  unfolding maybe_snapshot
  Promised-maybe_snapshot s h =
      if_both (Promised t c) _ h (Promised-create_snapshot s s.commit_index h)

  Promised-follow :
      (s : NodeState) (term leader_id : ℕ) → Promised t c s → Promised t c (follow s term leader_id)
  unfolding follow
  Promised-follow s term leader_id h =
      let k =
        if_both (Promised t c) (needs_step_down s term)
          (Promised-step_down s term (some leader_id) h) h in
      record { memory = k.memory; stored = k.stored }

  Promised-install_snapshot :
      (s : NodeState) (term leader_id index index_term : ℕ) (snapshot : List (Bytes × Bytes))
      → Promised t c s
      → OnFirst (Promised t c) (handle_install_snapshot s term leader_id index index_term snapshot)
  unfolding handle_install_snapshot put_snapshot
  Promised-install_snapshot s term leader_id index index_term snapshot h =
      let k = Promised-follow s term leader_id h in
      OnFirst-if (Promised t c) (ltb term s.current_term) (record { state = h })
        (record {
          state = if_both (Promised t c) _ k (
              if_both (Promised t c) _ k (
                Promised-persist _
                  (Promised-persist_snapshot _ (record { memory = k.memory; stored = k.stored }))));
        })

  Promised-decide_vote :
      (s : NodeState) (changed : Bool) (candidate_id index index_term : ℕ)
      → Promised t c s
      → OnFirst (Promised t c) (decide_vote s changed candidate_id index index_term)
  unfolding decide_vote can_vote
  Promised-decide_vote s changed candidate_id index index_term h =
      elim (Bool-cases (can_vote s.voted_for candidate_id)) [
        | inr e ↦ rw e (record { state = if_both (Promised t c) changed (Promised-persist s h) h })
        | inl e ↦ rw e (
            OnFirst-if (Promised t c) (up_to_date s index index_term)
              (record {
                state =
                    Promised-persist _
                      (record { memory = ground (arith, h.memory, e); stored = h.stored });
              })
              (record { state = if_both (Promised t c) changed (Promised-persist s h) h }))
      ]

  Promised-request_vote :
      (s : NodeState) (term candidate_id index index_term : ℕ)
      → Promised t c s
      → OnFirst (Promised t c) (handle_request_vote s term candidate_id index index_term)
  unfolding handle_request_vote
  Promised-request_vote s term candidate_id index index_term h =
      OnFirst-if (Promised t c) (ltb term s.current_term) (record { state = h })
        (OnFirst-if (Promised t c) (ltb s.current_term term)
          (Promised-decide_vote _ true candidate_id index index_term
            (Promised-step_down s term none h))
          (Promised-decide_vote s false candidate_id index index_term h))

  Promised-place_entry :
      (s : NodeState) (e : LogEntry) → Promised t c s → OnFirst (Promised t c) (place_entry s e)
  unfolding place_entry
  Promised-place_entry s e h =
      OnFirst-if (Promised t c) (leb e.index s.snapshot_index) (record { state = h })
        (elim (Option-cases (entry_at s e.index)) [
          | inl none_there ↦
              rw none_there (record { state = record { memory = h.memory; stored = h.stored } })
          | inr (x, there) ↦ rw there (
              OnFirst-if (Promised t c) (x.term == e.term) (record { state = h })
                (record { state = record { memory = h.memory; stored = h.stored } }))
        ])

  abbrev PromisedPlaced : Placed → Type 0
  PromisedPlaced (gap s) = Promised t c s
  PromisedPlaced (placed s changed) = Promised t c s

  Promised-place_entries :
      (es : List LogEntry) (expected : ℕ) (changed : Bool) (s : NodeState)
      → Promised t c s
      → PromisedPlaced (place_entries es expected changed s)
  unfolding place_entries
  Promised-place_entries [] expected changed s h = h
  Promised-place_entries (e ∷ es) expected changed s h = elim (Bool-cases (e.index == expected)) [
    | inl q ↦ rw q (Promised-place_entries es _ _ _ ((Promised-place_entry s e h).state))
    | inr q ↦ rw q h
  ]

  Promised-finish_append :
      (s : NodeState) (changed : Bool) (leader_commit : ℕ)
      → Promised t c s
      → OnFirst (Promised t c) (finish_append s changed leader_commit)
  unfolding finish_append advance_commit
  Promised-finish_append s changed leader_commit h =
      let advanced =
        if_both (Promised t c) (ltb s.commit_index leader_commit)
          (Promised-apply_committed_entries _ (record { memory = h.memory; stored = h.stored }))
          h in
      let shot = if_both (Promised t c) _ (Promised-maybe_snapshot _ advanced) advanced in
      record { state = if_both (Promised t c) _ (Promised-persist _ shot) shot }

  Promised-after_entries :
      (p : Placed) (changed : Bool) (leader_commit : ℕ)
      → PromisedPlaced p
      → OnFirst (Promised t c) (after_entries p changed leader_commit)
  unfolding after_entries
  Promised-after_entries (gap s) changed leader_commit h = record { state = h }
  Promised-after_entries (placed s b) changed leader_commit h =
      Promised-finish_append s (b || changed) leader_commit h

  Promised-append_entries :
      (s : NodeState) (term leader_id prev prev_term : ℕ) (es : List LogEntry) (leader_commit : ℕ)
      → Promised t c s
      → OnFirst
          (Promised t c)
          (handle_append_entries s term leader_id prev prev_term es leader_commit)
  unfolding handle_append_entries
  Promised-append_entries s term leader_id prev prev_term es leader_commit h =
      let k = Promised-follow s term leader_id h in
      OnFirst-if (Promised t c) (ltb term s.current_term) (record { state = h })
        (elim (Option-cases (check_prev (follow s term leader_id) prev prev_term)) [
          | inr (m, e) ↦ rw e (record { state = k })
          | inl e ↦ rw e (
              Promised-after_entries _ (needs_step_down s term) leader_commit
                (Promised-place_entries es (prev + 1) false _ k))
        ])

  Promised-finish_propose :
      (s : NodeState) (term index count : ℕ)
      → Promised t c s
      → OnFirst (Promised t c) (finish_propose s term index count)
  unfolding finish_propose
  Promised-finish_propose s term index count h =
      let committed : Promised t c (record s { commit_index = index }) = record {
        memory = h.memory;
        stored = h.stored;
      } in
      OnFirst-if (Promised t c) _ (record { state = h })
        (OnFirst-if (Promised t c) _
          (record {
            state =
                Promised-persist _
                  (Promised-maybe_snapshot _ (Promised-apply_committed_entries _ committed));
          })
          (record { state = h }))

  Promised-begin_propose :
      (s : NodeState) (command : Command)
      → Promised t c s
      → OnFirst (Promised t c) (begin_propose s command)
  unfolding begin_propose
  Promised-begin_propose s command h =
      OnFirst-if (Promised t c) _ (record { state = h })
        (record { state = Promised-persist _ (record { memory = h.memory; stored = h.stored }) })

  Promised-own_turns :
      (s : NodeState)
      → Promised t c s
      → Promised t c (start_election s)
        × ((term : ℕ) → Promised t c (higher_term s term))
        × ((term votes needed : ℕ) → Promised t c (win_election s term votes needed))
        × Promised t c (open_node s)
  unfolding start_election become_candidate higher_term win_election become_leader open_node
  Promised-own_turns s h = (
    if_both (Promised t c) _ h
        (Promised-persist _ (record { memory = ground (arith, h.memory); stored = h.stored })),
    λ term. Promised-persist _ (Promised-step_down s term none h),
    λ term votes needed.
        if_both (Promised t c) _ h
          (Promised-persist _ (record { memory = h.memory; stored = h.stored })),
    Promised-apply_committed_entries _ (record { memory = h.stored; stored = h.stored }),
  )

  pub Promised-step : (s : NodeState) (e : Event) → Promised t c s → Promised t c (step s e)
  unfolding step append_succeeded append_failed snapshot_succeeded
  Promised-step s (request_vote term candidate_id i k) h =
      (Promised-request_vote s term candidate_id i k h).state
  Promised-step s (append_entries term leader_id i k es n) h =
      (Promised-append_entries s term leader_id i k es n h).state
  Promised-step s (install_snapshot term leader_id i k kv) h =
      (Promised-install_snapshot s term leader_id i k kv h).state
  Promised-step s election_timeout h = (Promised-own_turns s h).0
  Promised-step s (saw_term term) h = (Promised-own_turns s h).1 term
  Promised-step s (votes_counted term votes needed) h = (Promised-own_turns s h).2 term votes needed
  Promised-step s (propose command) h = (Promised-begin_propose s command h).state
  Promised-step s (replicated term index count) h =
      (Promised-finish_propose s term index count h).state
  Promised-step s (append_answered peer i) h = record { memory = h.memory; stored = h.stored }
  Promised-step s (append_refused peer) h = record { memory = h.memory; stored = h.stored }
  Promised-step s (snapshot_answered peer i n) h = record { memory = h.memory; stored = h.stored }
  Promised-step s restart h = (Promised-own_turns s h).3

  pub Promised-run : (s : NodeState) (es : List Event) → Promised t c s → Promised t c (run s es)
  unfolding run
  Promised-run s [] h = h
  Promised-run s (e ∷ es) h = Promised-run (step s e) es (Promised-step s e h)
