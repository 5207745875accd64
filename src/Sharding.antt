-- ===== src/Sharding.antt =====
-- crates/helixdb-storage/src/sharding.rs: ranges of keys, each in a group of nodes of its own. An
-- operation takes the state and gives the new one; `split_range_at` is two, of which the first runs
-- before the lock of the range is taken.
pub mod Range
pub mod Group
pub mod Cluster
pub mod Split
pub mod Route
pub mod Apart
pub mod Exclusive
pub mod Halves
pub mod Invariant
pub mod Keeps
pub mod Calls
pub mod Cut
pub mod Boot
pub mod Retry
pub mod StaleHint
pub mod InMemory
mod Tests
pub mod Bootstrap
