-- ===== src/Lib.antt =====
-- HelixDB's storage engine and Raft node: the crate crates/helixdb-storage.
--
-- The engine (crates/helixdb-storage/src/lib.rs) writes each change to a write-ahead log (wal.rs) and
-- into a memtable (memtable.rs). A full memtable is flushed into an immutable table (sstable.rs), whose
-- file holds sorted entries in blocks, an index of the blocks, a Bloom filter (bloom.rs) and a footer.
-- Compaction merges the tables into one. Versions of keys (mvcc.rs) are internal keys of the engine, and
-- transactions (transaction.rs) read and write them. A Raft node (raft.rs) keeps a replicated log and
-- applies its commands to a map.
--
-- The ranges of a sharded cluster (sharding.rs) have a group of such nodes each, and keys are routed to them by
-- descriptors that a cache may hold in an old version. The control plane (control_plane.rs) keeps a registry
-- of nodes and ranges and gives timestamps; its records are texts in a Raft group of their own.
--
-- The files, by the part that they model:
-- Prelude, Prelude/*: shared names; lists over native numbers (Lists), Boolean tests (Tests), results
--   with `?` (Results), the order of keys (Order), byte strings and `to_le_bytes` (Bytes), reading from
--   the front of a buffer (Reader), a payload with its checksum (Checksum), `do` blocks that change a
--   state and may fail (Stateful), what they leave behind (Triples), and conditionals (Branches).
-- Errors: error.rs and types.rs. A message keeps its fixed text.
-- BTreeMap, BTreeMap/*: the standard library's ordered map as the list of its entries.
-- Wal: `WalRecord`, `encode_record`, `read_record`, `WalWriter::append` and `replay`. Below it, Codec
--   is about one record, Torn about one that is cut off, Replay about the whole log.
-- MemTable: `MemTable` with its running size; MemTable/Size is about that size.
-- Bloom: `BloomFilter`; Bits is about single bits, Contains about membership, Codec about its bytes.
-- Sstable: Format is the encoding of entries, blocks, index and footer; Writer is
--   `Sstable::write_from_memtable`; Reader is `SstableReader`. Blocks, Groups, Written, Footer, Opened,
--   Entries, Find and Lookup are the lemmas, from a single block to the whole file.
-- Db: `Db` with `put`, `delete`, `get`, `all_entries`, `flush`, `compact` and `rewrite_from_entries`.
--   Flush, Merge and Compact are the lemmas.
-- Manifest: the bytes of `manifest.bin`, `save` and `load`; RoundTrip has the lemmas.
-- Mvcc: internal keys, `get_at`, `put_at`, `delete_at`, `gc` and `max_timestamp` of mvcc.rs. Key and
--   Newest are the lemmas.
-- Transaction: the transactions of transaction.rs, over `versions_for_key` of mvcc.rs. The two steps of
--   `commit`, taking the timestamp and what happens under the lock, are apart. Commit has its lemmas.
-- Raft: Node is `NodeState` with its methods; Vote, Append and Snapshot are the handlers of the
--   messages; Election is what a node does on its own and with the answers of its peers; Events puts
--   these in a sequence of turns, restarts among them. Promise, Voting and Quorum are about votes,
--   Raft/Log is about the entries.
-- Sharding: Range is `RangeDescriptor` and its errors, Group the operations of `RaftCluster` that are used,
--   Bootstrap, Cluster, Split and Route are `ShardedCluster`, and Calls puts its methods in a sequence.
--   Apart, Exclusive, Halves, Invariant, Keeps and Boot are about descriptors that overlap; Retry and
--   StaleHint are about the two attempts of a routed operation, Cut is about the entries that a split
--   divides, and InMemory is a group for the tests.
-- ControlPlane: Text is what the records use of texts, Records the records, Plane the registry of nodes and
--   ranges, Health `sweep_health` and `rebalance`, Oracle the timestamps, Load reading the metadata and the
--   bootstrap. Text/*, Records/RoundTrip, Oracle/Increasing and Health/Leaders are the lemmas.
-- The Tests modules run the definitions on concrete inputs.
--
-- How state is modelled. A file is the list of its bytes. An operation that changes an object takes the
-- old state and gives the new one, in a result where it can fail. A node of Raft holds its lock for one
-- turn at a time, so that a course of the node is a list of turns, with what it has on disk as a part of
-- its state. Numbers are natural numbers: `as u32` and wrapping arithmetic are written out, while the
-- sums of lengths, indices and terms, which would have to pass 2 ^ 64, are not cut off.
--
-- Code outside the repository stands as parameters: `crc` for crc32fast's checksum, of which only
-- `crc b < 2 ^ 32` is used, and `hasher` for the standard library's `DefaultHasher`, of which nothing is.
-- For sharding and the control plane the groups behind ranges and metadata are the record `RaftCluster` of
-- operations, of which nothing is assumed.
--
-- Fuel. `replay` has one round for each byte of the log and one for its end; each round reads 21 bytes
-- at least or ends the loop. `apply_committed_entries` has as many rounds as `commit_index` is ahead of
-- `last_applied`, and each raises `last_applied` by one or ends the loop.
--
-- Not modelled: the directory of the database, crashes between two changes of it, and writes that fail;
-- `Db::open`; the bytes of Raft's files; threads, channels and timers; the format of an error's text. The methods of sharding.rs and
-- control_plane.rs run one after the other, each as one step, except `split_range_at`, which reads the
-- descriptor before it takes the lock of the range and is two steps. What two methods do that run at the
-- same time is not modelled, nor is a restart of the control plane, nor what the nodes of raft.rs together
-- give to sharding.rs and control_plane.rs as a group.
pub mod BTreeMap
pub mod Bloom
pub mod ControlPlane
pub mod Db
pub mod Errors
pub mod Manifest
pub mod MemTable
pub mod Mvcc
pub mod Prelude
pub mod Raft
pub mod Sharding
pub mod Sstable
pub mod Transaction
pub mod Wal
