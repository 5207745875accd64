-- ===== src/Raft/Log/Keep.antt =====
-- That every turn of a node of raft.rs keeps its logs well formed, in memory and on disk.
use helixdb.Prelude.{
  ℕ, zero, suc, ◌+◌, ◌≤◌, ◌≡◌, refl, sym, ◌∙◌, ap, subst, inl, inr, Bool, true, false, Option, none,
  some, List, [], ◌∷◌, ◌++◌, length, drop, ltb, leb, ◌==◌, arith, Bool-cases, Option-cases,
}
use helixdb.Prelude.Branches.{if_both, OnFirst, OnFirst-if}
use helixdb.Prelude.Bytes.{Bytes}
use helixdb.Raft.Node.{
  NodeState, LogEntry, Command, last_log_index, entry_at, step_down, become_candidate,
  become_leader, apply_rounds, apply_committed_entries, persist, persist_snapshot,
  compact_log_entries,
}
use helixdb.Raft.Vote.{decide_vote, handle_request_vote}
use helixdb.Raft.Snapshot.{
  SnapshotState, create_snapshot, maybe_snapshot, install_snapshot as put_snapshot, needs_step_down,
  follow, handle_install_snapshot,
}
use helixdb.Raft.Append.{
  check_prev, place_entry, Placed, gap, placed, place_entries, advance_commit, finish_append,
  after_entries, handle_append_entries,
}
use helixdb.Raft.Election.{
  start_election, higher_term, win_election, begin_propose, finish_propose, append_succeeded,
  append_failed, snapshot_succeeded, empty_disk, open_node,
}
use helixdb.Raft.Events.{
  Event, request_vote, append_entries, install_snapshot, election_timeout, saw_term, votes_counted,
  propose, replicated, append_answered, append_refused, snapshot_answered, restart, step, run,
}
use helixdb.Raft.Log.{IsLogFrom, HasLogs}
use helixdb.Raft.Log.Lists.{Follows-append_one, entries_above_of_Follows}
use helixdb.Raft.Log.Place.{behind, last_log_index_lem, EndsWell, place_entries-EndsWell}

pub HasLogs-persist : (s : NodeState) → HasLogs s → HasLogs (persist s)
unfolding persist
HasLogs-persist s h = record {
  memory = h.memory;
  stored = subst (λ n. IsLogFrom n s.log) (sym h.same_snapshot) h.memory;
  same_snapshot = h.same_snapshot;
}

-- Both files are written.
HasLogs-persist_all :
    (s : NodeState) → IsLogFrom s.snapshot_index s.log → HasLogs (persist (persist_snapshot s))
unfolding persist persist_snapshot
HasLogs-persist_all s log = record { memory = log; stored = log; same_snapshot = refl }

IsLogFrom-compact :
    (n bound : ℕ) (log : List LogEntry)
    → IsLogFrom n log
    → n ≤ bound
    → IsLogFrom bound (compact_log_entries log bound)
unfolding compact_log_entries
IsLogFrom-compact n bound log h le = record {
  begins = refl;
  follows = entries_above_of_Follows n bound (drop 1 log) h.follows le;
}

HasLogs-step_down :
    (s : NodeState) (term : ℕ) (leader_id : Option ℕ)
    → HasLogs s
    → HasLogs (step_down s term leader_id)
unfolding step_down
HasLogs-step_down s term leader_id h = record {
  memory = h.memory;
  stored = h.stored;
  same_snapshot = h.same_snapshot;
}

HasLogs-apply_rounds : (left : ℕ) (s : NodeState) → HasLogs s → HasLogs (apply_rounds left s)
unfolding apply_rounds
HasLogs-apply_rounds zero s h = h
HasLogs-apply_rounds (suc left) s h = elim (Option-cases (entry_at s (s.last_applied + 1))) [
  | inl e ↦ rw (apply_rounds, e) h
  | inr (x, e) ↦
      rw (apply_rounds, e)
        (HasLogs-apply_rounds left _
          (record { memory = h.memory; stored = h.stored; same_snapshot = h.same_snapshot }))
]

HasLogs-create_snapshot : (s : NodeState) (i : ℕ) → HasLogs s → HasLogs (create_snapshot s i)
unfolding create_snapshot
HasLogs-create_snapshot s i h = elim (Bool-cases (leb i s.snapshot_index)) [
  | inl e ↦ rw e h
  | inr e ↦ rw e (
      HasLogs-persist_all _
        (IsLogFrom-compact s.snapshot_index i s.log h.memory (ground (arith, e))))
]

HasLogs-maybe_snapshot : (s : NodeState) → HasLogs s → HasLogs (maybe_snapshot s)
unfolding maybe_snapshot
HasLogs-maybe_snapshot s h = if_both HasLogs _ h (HasLogs-create_snapshot s s.commit_index h)

pub HasLogs-follow :
    (s : NodeState) (term leader_id : ℕ) → HasLogs s → HasLogs (follow s term leader_id)
unfolding follow
HasLogs-follow s term leader_id h =
    let k =
      if_both HasLogs (needs_step_down s term) (HasLogs-step_down s term (some leader_id) h) h in
    record { memory = k.memory; stored = k.stored; same_snapshot = k.same_snapshot }

HasLogs-put_snapshot :
    (s : NodeState) (snapshot : SnapshotState) → HasLogs s → HasLogs (put_snapshot s snapshot)
unfolding put_snapshot
HasLogs-put_snapshot s snapshot h =
    elim (Bool-cases (ltb snapshot.last_included_index s.snapshot_index)) [
      | inl e ↦ rw e h
      | inr e ↦ rw e (
          HasLogs-persist_all _ (
            IsLogFrom-compact s.snapshot_index snapshot.last_included_index s.log h.memory
              (ground (arith, e))))
    ]

HasLogs-install_snapshot :
    (s : NodeState) (term leader_id index index_term : ℕ) (snapshot : List (Bytes × Bytes))
    → HasLogs s
    → OnFirst HasLogs (handle_install_snapshot s term leader_id index index_term snapshot)
unfolding handle_install_snapshot
HasLogs-install_snapshot s term leader_id index index_term snapshot h =
    let k = HasLogs-follow s term leader_id h in
    OnFirst-if HasLogs (ltb term s.current_term) (record { state = h })
      (record { state = if_both HasLogs _ k (HasLogs-put_snapshot _ _ k) })

HasLogs-decide_vote :
    (s : NodeState) (changed : Bool) (candidate_id index index_term : ℕ)
    → HasLogs s
    → OnFirst HasLogs (decide_vote s changed candidate_id index index_term)
unfolding decide_vote
HasLogs-decide_vote s changed candidate_id index index_term h =
    OnFirst-if HasLogs _
      (record {
        state =
            HasLogs-persist _
              (record { memory = h.memory; stored = h.stored; same_snapshot = h.same_snapshot });
      })
      (record { state = if_both HasLogs changed (HasLogs-persist s h) h })

HasLogs-request_vote :
    (s : NodeState) (term candidate_id index index_term : ℕ)
    → HasLogs s
    → OnFirst HasLogs (handle_request_vote s term candidate_id index index_term)
unfolding handle_request_vote
HasLogs-request_vote s term candidate_id index index_term h =
    OnFirst-if HasLogs (ltb term s.current_term) (record { state = h })
      (OnFirst-if HasLogs (ltb s.current_term term)
        (HasLogs-decide_vote _ true candidate_id index index_term (HasLogs-step_down s term none h))
        (HasLogs-decide_vote s false candidate_id index index_term h))

pub prev_reach :
    (s : NodeState) (prev prev_term : ℕ)
    → check_prev s prev prev_term ≡ none
    → prev ≤ last_log_index s
unfolding check_prev
prev_reach s prev prev_term h = ground (arith, h)

abbrev state_of : Placed → NodeState
state_of (gap s) = s
state_of (placed s changed) = s

place_entry-disk : (s : NodeState) (e : LogEntry) → (place_entry s e).0.disk ≡ s.disk
unfolding place_entry
place_entry-disk s e = ground arith

place_entries-disk :
    (es : List LogEntry) (i : ℕ) (changed : Bool) (s : NodeState)
    → (state_of (place_entries es i changed s)).disk ≡ s.disk
unfolding place_entries
place_entries-disk [] i changed s = refl
place_entries-disk (e ∷ es) i changed s = elim (Bool-cases (e.index == i)) [
  | inl q ↦ rw q (place_entries-disk es (i + 1) _ (place_entry s e).0 ∙ place_entry-disk s e)
  | inr q ↦ rw q refl
]

HasLogs-same_disk :
    (s s' : NodeState)
    → HasLogs s
    → s'.snapshot_index ≡ s.snapshot_index
    → s'.disk ≡ s.disk
    → IsLogFrom s.snapshot_index s'.log
    → HasLogs s'
HasLogs-same_disk s s' h same disk log = record {
  memory = subst (λ n. IsLogFrom n s'.log) (sym same) log;
  stored = subst (λ d. IsLogFrom d.snapshot_index d.log) (sym disk) h.stored;
  same_snapshot = ap (λ d. d.snapshot_index) disk ∙ h.same_snapshot ∙ sym same;
}

EndsWell-HasLogs :
    (s : NodeState) (i : ℕ) (es : List LogEntry) (p : Placed)
    → HasLogs s
    → (state_of p).disk ≡ s.disk
    → EndsWell s i es p
    → HasLogs (state_of p)
EndsWell-HasLogs s i es (gap s') h disk (same, log) = HasLogs-same_disk s s' h same disk log
EndsWell-HasLogs s i es (placed s' changed) h disk t = HasLogs-same_disk s s' h t.same disk t.log

HasLogs-advance_commit : (s : NodeState) (n : ℕ) → HasLogs s → HasLogs (advance_commit s n)
unfolding advance_commit apply_committed_entries
HasLogs-advance_commit s n h =
    if_both HasLogs (ltb s.commit_index n)
      (HasLogs-apply_rounds _ _
        (record { memory = h.memory; stored = h.stored; same_snapshot = h.same_snapshot }))
      h

HasLogs-after_entries :
    (p : Placed) (changed : Bool) (n : ℕ)
    → HasLogs (state_of p)
    → OnFirst HasLogs (after_entries p changed n)
unfolding after_entries finish_append
HasLogs-after_entries (gap s) changed n h = record { state = h }
HasLogs-after_entries (placed s b) changed n h =
    let advanced = HasLogs-advance_commit s n h in
    let shot = if_both HasLogs _ (HasLogs-maybe_snapshot _ advanced) advanced in
    record { state = if_both HasLogs _ (HasLogs-persist _ shot) shot }

HasLogs-append_entries :
    (s : NodeState) (term leader_id prev prev_term : ℕ) (es : List LogEntry) (n : ℕ)
    → HasLogs s
    → OnFirst HasLogs (handle_append_entries s term leader_id prev prev_term es n)
unfolding handle_append_entries
HasLogs-append_entries s term leader_id prev prev_term es n h =
    let s1 = follow s term leader_id in
    let k = HasLogs-follow s term leader_id h in
    OnFirst-if HasLogs (ltb term s.current_term) (record { state = h })
      (elim (Option-cases (check_prev s1 prev prev_term)) [
        | inr (m, e) ↦ rw e (record { state = k })
        | inl e ↦
            let near : prev ≤ s1.snapshot_index + length (behind s1) =
              omega (arith, prev_reach s1 prev prev_term e, last_log_index_lem s1 k.memory) in
            let ends =
              place_entries-EndsWell es (prev + 1) false s1 k.memory (omega (arith, near)) in
            rw e (
              HasLogs-after_entries _ (needs_step_down s term) n (
                EndsWell-HasLogs s1 (prev + 1) es _ k (place_entries-disk es (prev + 1) false s1)
                  ends))
      ])

IsLogFrom-append_one :
    (s : NodeState) (command : Command)
    → IsLogFrom s.snapshot_index s.log
    → IsLogFrom s.snapshot_index (
        s.log
        ++ record { index = last_log_index s + 1; term = s.current_term; command = command } ∷ [])
IsLogFrom-append_one s command log =
    let e : LogEntry = record {
      index = last_log_index s + 1;
      term = s.current_term;
      command = command;
    } in
    subst (IsLogFrom s.snapshot_index) (sym (ap (λ l. l ++ e ∷ []) log.begins)) (record {
      begins = refl;
      follows =
          Follows-append_one s.snapshot_index (behind s) e log.follows
            (omega (arith, last_log_index_lem s log));
    })

HasLogs-begin_propose :
    (s : NodeState) (command : Command) → HasLogs s → OnFirst HasLogs (begin_propose s command)
unfolding begin_propose
HasLogs-begin_propose s command h =
    OnFirst-if HasLogs _ (record { state = h })
      (record {
        state = HasLogs-persist _ (record {
          memory = IsLogFrom-append_one s command h.memory;
          stored = h.stored;
          same_snapshot = h.same_snapshot;
        });
      })

HasLogs-finish_propose :
    (s : NodeState) (term index count : ℕ)
    → HasLogs s
    → OnFirst HasLogs (finish_propose s term index count)
unfolding finish_propose apply_committed_entries
HasLogs-finish_propose s term index count h =
    let committed : HasLogs (record s { commit_index = index }) = record {
      memory = h.memory;
      stored = h.stored;
      same_snapshot = h.same_snapshot;
    } in
    OnFirst-if HasLogs _ (record { state = h })
      (OnFirst-if HasLogs _
        (record {
          state = HasLogs-persist _ (HasLogs-maybe_snapshot _ (HasLogs-apply_rounds _ _ committed));
        })
        (record { state = h }))

HasLogs-own_turns :
    (s : NodeState)
    → HasLogs s
    → HasLogs (start_election s)
      × ((term : ℕ) → HasLogs (higher_term s term))
      × ((term votes needed : ℕ) → HasLogs (win_election s term votes needed))
      × HasLogs (open_node s)
unfolding start_election become_candidate higher_term win_election become_leader open_node
    apply_committed_entries
HasLogs-own_turns s h = (
  if_both HasLogs _ h (
      HasLogs-persist _
        (record { memory = h.memory; stored = h.stored; same_snapshot = h.same_snapshot })),
  λ term. HasLogs-persist _ (HasLogs-step_down s term none h),
  λ term votes needed. if_both HasLogs _ h (
      HasLogs-persist _
        (record { memory = h.memory; stored = h.stored; same_snapshot = h.same_snapshot })),
  HasLogs-apply_rounds _ _ (record { memory = h.stored; stored = h.stored; same_snapshot = refl }),
)

pub HasLogs-step : (s : NodeState) (e : Event) → HasLogs s → HasLogs (step s e)
unfolding step append_succeeded append_failed snapshot_succeeded
HasLogs-step s (request_vote term candidate_id i k) h =
    (HasLogs-request_vote s term candidate_id i k h).state
HasLogs-step s (append_entries term leader_id i k es n) h =
    (HasLogs-append_entries s term leader_id i k es n h).state
HasLogs-step s (install_snapshot term leader_id i k kv) h =
    (HasLogs-install_snapshot s term leader_id i k kv h).state
HasLogs-step s election_timeout h = (HasLogs-own_turns s h).0
HasLogs-step s (saw_term term) h = (HasLogs-own_turns s h).1 term
HasLogs-step s (votes_counted term votes needed) h = (HasLogs-own_turns s h).2 term votes needed
HasLogs-step s (propose command) h = (HasLogs-begin_propose s command h).state
HasLogs-step s (replicated term index count) h = (HasLogs-finish_propose s term index count h).state
HasLogs-step s (append_answered peer i) h = record {
  memory = h.memory;
  stored = h.stored;
  same_snapshot = h.same_snapshot;
}
HasLogs-step s (append_refused peer) h = record {
  memory = h.memory;
  stored = h.stored;
  same_snapshot = h.same_snapshot;
}
HasLogs-step s (snapshot_answered peer i n) h = record {
  memory = h.memory;
  stored = h.stored;
  same_snapshot = h.same_snapshot;
}
HasLogs-step s restart h = (HasLogs-own_turns s h).3

-- Well formed logs stay so over any course of turns.
pub run-HasLogs : (s : NodeState) (es : List Event) → HasLogs s → HasLogs (run s es)
unfolding run
run-HasLogs s [] h = h
run-HasLogs s (e ∷ es) h = run-HasLogs (step s e) es (HasLogs-step s e h)

-- A node that opens an empty directory.
open_node-HasLogs : (s : NodeState) → s.disk ≡ empty_disk → HasLogs (open_node s)
unfolding open_node apply_committed_entries
open_node-HasLogs s h =
    let log : IsLogFrom s.disk.snapshot_index s.disk.log =
      subst (λ d. IsLogFrom d.snapshot_index d.log) (sym h)
        (record { begins = refl; follows = tt }) in
    HasLogs-apply_rounds _ _ (record { memory = log; stored = log; same_snapshot = refl })

-- If a node has opened an empty directory, then over any course of turns after that, with whatever
-- messages and restarts, its logs in memory and on disk begin with the dummy entry, and behind it the
-- indices count up from that of the snapshot.
pub run-open_node-HasLogs :
    (s : NodeState) (es : List Event) → s.disk ≡ empty_disk → HasLogs (run (open_node s) es)
run-open_node-HasLogs s es h = run-HasLogs (open_node s) es (open_node-HasLogs s h)
