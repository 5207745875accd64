-- ===== src/Raft/Log/Agree.antt =====
-- That a node of raft.rs which accepts entries from a leader has them in its log afterwards.
use helixdb.Prelude.{
  ℕ, zero, suc, ◌+◌, ◌≤◌, ◌<◌, ◌≡◌, refl, sym, ◌∙◌, inl, inr, Bool, true, false, ◌||◌, some, List,
  [], ◌∷◌, length, drop, ltb, leb, arith, All, All-imp, Bool-cases, Option-cases,
}
use helixdb.Prelude.Branches.{if_both}
use helixdb.Raft.Node.{
  NodeState, LogEntry, find_index, entry_at, apply_rounds, apply_committed_entries, persist,
  persist_snapshot, entries_above, compact_log_entries,
}
use helixdb.Raft.Snapshot.{create_snapshot, maybe_snapshot, needs_step_down, follow}
use helixdb.Raft.Append.{
  check_prev, Placed, gap, placed, advance_commit, finish_append, after_entries,
  handle_append_entries,
}
use helixdb.Raft.Log.{HasLogs}
use helixdb.Raft.Log.Place.{behind, last_log_index_lem, EndsWell, place_entries-EndsWell}
use helixdb.Raft.Log.Keep.{HasLogs-follow, prev_reach}

find_index-entries_above :
    (bound i : ℕ) (es : List LogEntry)
    → bound < i
    → find_index (entries_above bound es) i ≡ find_index es i
unfolding find_index entries_above
find_index-entries_above bound i [] h = refl
find_index-entries_above bound i (e ∷ es) h = ground (arith, find_index-entries_above bound i es h)

-- At the index of an entry that lies above the snapshot, the log has an entry of the same term.
abbrev pub Has : NodeState → LogEntry → Type 0
Has s e =
    s.snapshot_index < e.index
    → (x : LogEntry) × (find_index (drop 1 s.log) e.index ≡ some x) × (x.term ≡ e.term)

module _ (es : List LogEntry) where
  record HasAll (s : NodeState) : Type 0 where
    each : All (Has s) es

  HasAll-apply_rounds : (left : ℕ) (s : NodeState) → HasAll s → HasAll (apply_rounds left s)
  unfolding apply_rounds
  HasAll-apply_rounds zero s h = h
  HasAll-apply_rounds (suc left) s h = elim (Option-cases (entry_at s (s.last_applied + 1))) [
    | inl e ↦ rw (apply_rounds, e) h
    | inr (x, e) ↦ rw (apply_rounds, e) (HasAll-apply_rounds left _ (record { each = h.each }))
  ]

  HasAll-persist : (s : NodeState) → HasAll s → HasAll (persist s)
  unfolding persist
  HasAll-persist s h = record { each = h.each }

  HasAll-create_snapshot : (s : NodeState) (i : ℕ) → HasAll s → HasAll (create_snapshot s i)
  unfolding create_snapshot persist persist_snapshot compact_log_entries
  HasAll-create_snapshot s i h = elim (Bool-cases (leb i s.snapshot_index)) [
    | inl e ↦ rw e h
    | inr e ↦ rw e (record {
      each =
          All-imp
            (λ x k above.
              let (y, found, term) = k (ground (arith, e, above)) in
              (y, find_index-entries_above i x.index (drop 1 s.log) above ∙ found, term))
            es h.each;
    })
  ]

  HasAll-advance_commit : (s : NodeState) (n : ℕ) → HasAll s → HasAll (advance_commit s n)
  unfolding advance_commit apply_committed_entries
  HasAll-advance_commit s n h =
      if_both HasAll (ltb s.commit_index n) (HasAll-apply_rounds _ _ (record { each = h.each })) h

  HasAll-maybe_snapshot : (s : NodeState) → HasAll s → HasAll (maybe_snapshot s)
  unfolding maybe_snapshot
  HasAll-maybe_snapshot s h = if_both HasAll _ h (HasAll-create_snapshot s s.commit_index h)

  HasAll-finish_append :
      (s : NodeState) (changed : Bool) (n : ℕ) → HasAll s → HasAll (finish_append s changed n).0
  unfolding finish_append
  HasAll-finish_append s changed n h =
      let advanced = HasAll-advance_commit s n h in
      let shot = if_both HasAll _ (HasAll-maybe_snapshot _ advanced) advanced in
      if_both HasAll _ (HasAll-persist _ shot) shot

  HasAll-after_entries :
      (s : NodeState) (i : ℕ) (p : Placed) (changed : Bool) (n : ℕ)
      → EndsWell s i es p
      → (after_entries p changed n).1.success ≡ true
      → HasAll (after_entries p changed n).0
  unfolding after_entries
  HasAll-after_entries s i (gap s') changed n h success = absurd (cc success)
  HasAll-after_entries s i (placed s' b) changed n h success =
      HasAll-finish_append s' (b || changed) n
        (record { each = All-imp (λ e k above. k (rw (sym h.same) above)) es h.agrees })

-- If a node with well formed logs answers entries of a leader with success, then in its log, at the
-- index of each of these entries above its snapshot, there is an entry of the same term.
pub handle_append_entries-Has :
    (s : NodeState) (term leader_id prev prev_term : ℕ) (es : List LogEntry) (n : ℕ)
    → HasLogs s
    → (handle_append_entries s term leader_id prev prev_term es n).1.success ≡ true
    → All (Has (handle_append_entries s term leader_id prev prev_term es n).0) es
unfolding handle_append_entries
handle_append_entries-Has s term leader_id prev prev_term es n h success =
    let s1 = follow s term leader_id in
    let k = HasLogs-follow s term leader_id h in
    elim (Bool-cases (ltb term s.current_term)) [
      | inl behind_term ↦ absurd (ground (arith, success, behind_term))
      | inr current ↦ elim (Option-cases (check_prev s1 prev prev_term)) [
        | inr (m, e) ↦ absurd (ground (arith, success, current, e))
        | inl e ↦
            let near : prev ≤ s1.snapshot_index + length (behind s1) =
              omega (arith, prev_reach s1 prev prev_term e, last_log_index_lem s1 k.memory) in
            let ends =
              place_entries-EndsWell es (prev + 1) false s1 k.memory (omega (arith, near)) in
            rw (current, e)
              (HasAll-after_entries es s1 (prev + 1) _ (needs_step_down s term) n ends
                (rw (current, e) at success)).each
      ]
    ]
