-- ===== src/Sstable.antt =====
-- crates/helixdb-storage/src/sstable.rs: immutable tables of sorted entries in blocks, with an
-- index of the blocks, a Bloom filter and a footer. A file is the bytes that it holds.
pub mod Format
pub mod Writer
pub mod Reader
pub mod Blocks
pub mod Groups
pub mod Written
pub mod Footer
pub mod Opened
pub mod Entries
pub mod Find
pub mod Lookup
pub mod Tests
