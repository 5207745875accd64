-- ===== src/Raft.antt =====
-- crates/helixdb-storage/src/raft.rs: a node of a Raft cluster. The state of a node is explicit:
-- each operation takes it and gives the new one. Timers, threads and channels are left out.
pub mod Node
pub mod Vote
pub mod Append
pub mod Snapshot
pub mod Election
pub mod Events
pub mod Promise
pub mod Voting
pub mod Quorum
pub mod Log
pub mod Tests
