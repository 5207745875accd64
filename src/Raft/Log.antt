-- ===== src/Raft/Log.antt =====
-- The log of a node of raft.rs: behind the dummy entry the indices count up from the snapshot's.
pub mod Lists
pub mod Place
pub mod Keep
pub mod Agree
mod Tests
use helixdb.Prelude.{ℕ, suc, ◌≡◌, List, [], ◌∷◌, drop}
use helixdb.Raft.Node.{NodeState, LogEntry, dummy_entry}

-- The entries have the indices `suc n`, `suc (suc n)` and so on.
abbrev pub Follows : ℕ → List LogEntry → Type 0
Follows n [] = Unit
Follows n (e ∷ es) = (e.index ≡ suc n) × Follows (suc n) es

-- A log that begins with the dummy entry and follows the snapshot at the index.
pub record IsLogFrom (snapshot_index : ℕ) (log : List LogEntry) : Type 0 where
  pub begins : log ≡ dummy_entry ∷ drop 1 log
  pub follows : Follows snapshot_index (drop 1 log)

-- The logs in memory and on disk, which have the same snapshot below them.
pub record HasLogs (s : NodeState) : Type 0 where
  pub memory : IsLogFrom s.snapshot_index s.log
  pub stored : IsLogFrom s.disk.snapshot_index s.disk.log
  pub same_snapshot : s.disk.snapshot_index ≡ s.snapshot_index
