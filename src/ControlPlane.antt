-- ===== src/ControlPlane.antt =====
-- crates/helixdb-storage/src/control_plane.rs: the registry of nodes and ranges and the timestamp
-- oracle, which a group of Raft nodes keeps as text records.
pub mod Text
pub mod Records
pub mod Plane
pub mod Oracle
pub mod Load
mod Tests
pub mod Health
