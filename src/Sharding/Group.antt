-- ===== src/Sharding/Group.antt =====
-- What the sharded cluster uses of `RaftCluster`: the group of nodes of one range.
use helixdb.Prelude.{ℕ, Option}
use helixdb.Prelude.Bytes.{Bytes}
use helixdb.Prelude.Order.{bytes_ord}
use helixdb.BTreeMap.{BTreeMap}
use helixdb.Errors.{DbResult}

-- A method changes the state of the group also where it fails.
pub record RaftCluster (C : Type 0) : Type 0 where
  pub bootstrap : ℕ → ℕ → DbResult C
  pub put : C → Bytes → Bytes → C × DbResult ℕ
  pub delete : C → Bytes → C × DbResult ℕ
  pub get : C → Bytes → DbResult (Option Bytes)
  pub all_entries : C → DbResult (BTreeMap Bytes Bytes)
  pub leader_id : C → Option ℕ
  pub kill_node : C → ℕ → C × DbResult (Unit {0})
  pub restart_node : C → ℕ → C × DbResult (Unit {0})
  pub add_node : C → ℕ → C × DbResult (Unit {0})
  pub remove_node : C → ℕ → C × DbResult (Unit {0})
