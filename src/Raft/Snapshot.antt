-- ===== src/Raft/Snapshot.antt =====
-- The snapshots of a node: `create_snapshot`, `maybe_snapshot`, `install_snapshot` and
-- `handle_install_snapshot` of raft.rs.
use helixdb.Prelude.{
  ℕ, ◌-◌, max, Bool, true, false, not, ◌||◌, some, List, ltb, leb, ◌==◌, if◌then◌else◌, [],
}
use helixdb.Prelude.Bytes.{Bytes}
use helixdb.Prelude.Order.{bytes_ord}
use helixdb.BTreeMap.{BTreeMap, extend}
use helixdb.Raft.Node.{
  NodeState, is_follower, last_log_index, entry_at, term_of, step_down, persist, persist_snapshot,
  compact_log_entries,
}

unfoldable pub create_snapshot : NodeState → ℕ → NodeState
create_snapshot s last_included_index =
    if leb last_included_index s.snapshot_index
    then s
    else persist (
        persist_snapshot (record s {
          snapshot_index = last_included_index;
          snapshot_term =
              if last_included_index == 0
              then 0
              else term_of (entry_at s last_included_index) s.snapshot_term;
          log = compact_log_entries s.log last_included_index;
          last_applied = max s.last_applied last_included_index;
          commit_index = max s.commit_index last_included_index;
        }))

unfoldable pub maybe_snapshot : NodeState → NodeState
maybe_snapshot s =
    if leb s.commit_index s.snapshot_index
      || ltb (last_log_index s - s.snapshot_index) (max s.snapshot_threshold_entries 1)
    then s
    else create_snapshot s s.commit_index

pub record SnapshotState : Type 0 where
  pub last_included_index : ℕ
  pub last_included_term : ℕ
  pub key_values : BTreeMap Bytes Bytes

unfoldable pub install_snapshot : NodeState → SnapshotState → NodeState
install_snapshot s snapshot =
    if ltb snapshot.last_included_index s.snapshot_index
    then s
    else persist (
        persist_snapshot (record s {
          snapshot_index = snapshot.last_included_index;
          snapshot_term = snapshot.last_included_term;
          kv = snapshot.key_values;
          log = compact_log_entries s.log snapshot.last_included_index;
          last_applied = snapshot.last_included_index;
          commit_index = max s.commit_index snapshot.last_included_index;
        }))

pub record InstallSnapshotResponse : Type 0 where
  pub term : ℕ
  pub success : Bool
  pub last_included_index : ℕ

-- What an accepted message from a leader does first; the flag says whether `step_down` ran.
unfoldable pub needs_step_down : NodeState → ℕ → Bool
needs_step_down s term = ltb s.current_term term || not (is_follower s.role)

unfoldable pub follow : NodeState → ℕ → ℕ → NodeState
follow s term leader_id =
    record (if needs_step_down s term then step_down s term (some leader_id) else s) {
      leader_id = some leader_id;
    }

unfoldable pub handle_install_snapshot :
    NodeState → ℕ → ℕ → ℕ → ℕ → List (Bytes × Bytes) → NodeState × InstallSnapshotResponse
handle_install_snapshot s term leader_id last_index last_term snapshot =
    if ltb term s.current_term
    then (
      s,
      record { term = s.current_term; success = false; last_included_index = s.snapshot_index },
    )
    else let s1 = follow s term leader_id in
      let s2 =
        if ltb last_index s1.snapshot_index
        then s1
        else install_snapshot s1 (record {
          last_included_index = last_index;
          last_included_term = last_term;
          key_values = extend [] snapshot;
        }) in
      (
        s2,
        record { term = s2.current_term; success = true; last_included_index = s2.snapshot_index },
      )
