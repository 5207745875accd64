-- ===== src/Raft/Append.antt =====
-- `handle_append_entries` of raft.rs.
use helixdb.Prelude.{
  ℕ, ◌+◌, ◌-◌, min, Bool, true, false, not, ◌&&◌, ◌||◌, Option, none, some, List, [], ◌∷◌, ◌++◌,
  ltb, leb, ◌==◌, if◌then◌else◌,
}
use helixdb.Raft.Node.{
  NodeState, LogEntry, last_log_index, entry_at, term_of, apply_committed_entries, persist,
}
use helixdb.Raft.Snapshot.{maybe_snapshot, needs_step_down, follow}

pub record AppendResponse : Type 0 where
  pub term : ℕ
  pub success : Bool
  pub match_index : ℕ

abbrev reject : NodeState → ℕ → NodeState × AppendResponse
reject s match_index =
    (s, record { term = s.current_term; success = false; match_index = match_index })

-- The tests of the entry before the new ones: `some` is the `match_index` of a rejection.
unfoldable pub check_prev : NodeState → ℕ → ℕ → Option ℕ
check_prev s prev_index prev_term =
    if ltb prev_index s.snapshot_index
    then some s.snapshot_index
    else if ltb (last_log_index s) prev_index
    then some (last_log_index s)
    else if prev_index == s.snapshot_index
    then if ltb 0 s.snapshot_index && not (prev_term == s.snapshot_term)
      then some s.snapshot_index
      else none
    else if ltb 0 prev_index && not (term_of (entry_at s prev_index) 0 == prev_term)
    then some (prev_index - 1)
    else none

-- `retain(|existing| existing.index < index || existing.index == 0)`
unfoldable pub retain_below : ℕ → List LogEntry → List LogEntry
retain_below bound [] = []
retain_below bound (e ∷ es) =
    let rest = retain_below bound es in if ltb e.index bound || e.index == 0 then e ∷ rest else rest

-- One entry whose index is the expected one: the new log, and whether it changed.
unfoldable pub place_entry : NodeState → LogEntry → NodeState × Bool
place_entry s e = if leb e.index s.snapshot_index then (s, false) else elim (entry_at s e.index) [
  | none ↦ (record s { log = s.log ++ e ∷ [] }, true)
  | some existing ↦
      if existing.term == e.term
      then (s, false)
      else (record s { log = retain_below e.index s.log ++ e ∷ [] }, true)
]

-- How the loop over the entries ends: at an index that is not the expected one, which is an early
-- return, or at the end with the flag `changed`.
pub data Placed : Type 0 where
  gap : NodeState → Placed
  placed : NodeState → Bool → Placed

unfoldable pub place_entries : List LogEntry → ℕ → Bool → NodeState → Placed
place_entries [] expected changed s = placed s changed
place_entries (e ∷ es) expected changed s =
    let rest =
      place_entries es (expected + 1) (changed || (place_entry s e).1) (place_entry s e).0 in
    if not (e.index == expected) then gap s else rest

unfoldable pub advance_commit : NodeState → ℕ → NodeState
advance_commit s leader_commit =
    if ltb s.commit_index leader_commit
    then apply_committed_entries (record s { commit_index = min leader_commit (last_log_index s) })
    else s

unfoldable pub finish_append : NodeState → Bool → ℕ → NodeState × AppendResponse
finish_append s changed leader_commit =
    let s1 = advance_commit s leader_commit in
    let s2 = if leb s1.snapshot_index s1.commit_index then maybe_snapshot s1 else s1 in
    let s3 = if changed || ltb s.commit_index leader_commit then persist s2 else s2 in
    (s3, record { term = s3.current_term; success = true; match_index = last_log_index s3 })

-- The rest of the handler after the loop, where `step_down` may have changed the term.
unfoldable pub after_entries : Placed → Bool → ℕ → NodeState × AppendResponse
after_entries (gap s) term_changed leader_commit = reject s (last_log_index s)
after_entries (placed s changed) term_changed leader_commit =
    finish_append s (changed || term_changed) leader_commit

unfoldable pub handle_append_entries :
    NodeState → ℕ → ℕ → ℕ → ℕ → List LogEntry → ℕ → NodeState × AppendResponse
handle_append_entries s term leader_id prev_index prev_term entries leader_commit =
    if ltb term s.current_term
    then reject s (last_log_index s)
    else let s1 = follow s term leader_id in
      elim (check_prev s1 prev_index prev_term) [
        | some match_index ↦ reject s1 match_index
        | none ↦
            after_entries (place_entries entries (prev_index + 1) false s1) (needs_step_down s term)
              leader_commit
      ]
