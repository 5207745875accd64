-- ===== src/Raft/Log/Tests.antt =====
-- The follower of the tests takes an entry of the leader 2.
use helixdb.Prelude.{◌≡◌, refl, true, [], ◌∷◌, All}
use helixdb.Prelude.Order.{bytes_cmp}
use helixdb.BTreeMap.{insert}
use helixdb.Raft.Node.{
  last_log_index, find_index, entry_at, step_down, apply_entry, apply_rounds,
  apply_committed_entries, persist,
}
use helixdb.Raft.Snapshot.{maybe_snapshot, needs_step_down, follow}
use helixdb.Raft.Append.{
  check_prev, place_entry, place_entries, advance_commit, finish_append, after_entries,
  handle_append_entries,
}
use helixdb.Raft.Election.{open_node}
use helixdb.Raft.Events.{run}
use helixdb.Raft.Tests.{node, entry, turns}
use helixdb.Raft.Log.{HasLogs}
use helixdb.Raft.Log.Keep.{run-open_node-HasLogs}
use helixdb.Raft.Log.Agree.{Has, handle_append_entries-Has}

node-HasLogs : HasLogs node
node-HasLogs = record {
  memory = record { begins = refl; follows = tt };
  stored = record { begins = refl; follows = tt };
  same_snapshot = refl;
}

run-open_node-HasLogs_example : HasLogs (run (open_node node) turns)
run-open_node-HasLogs_example = run-open_node-HasLogs node turns refl

accepts : (handle_append_entries node 5 2 0 0 (entry ∷ []) 1).1.success ≡ true
unfolding handle_append_entries follow needs_step_down step_down check_prev last_log_index
    place_entries place_entry entry_at find_index after_entries finish_append advance_commit
    maybe_snapshot apply_committed_entries apply_rounds apply_entry persist insert bytes_cmp
accepts = refl

handle_append_entries-Has_example :
    All (Has (handle_append_entries node 5 2 0 0 (entry ∷ []) 1).0) (entry ∷ [])
handle_append_entries-Has_example =
    handle_append_entries-Has node 5 2 0 0 (entry ∷ []) 1 node-HasLogs accepts
