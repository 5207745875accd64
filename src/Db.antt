-- ===== src/Db.antt =====
-- crates/helixdb-storage/src/lib.rs: `Db`, over the write-ahead log, the memtable and the tables.
-- Each open table carries the bytes of its file. The directory is left out: files are created and
-- removed, and the manifest is saved, without failing.
pub mod Flush
pub mod Merge
pub mod Compact
mod Tests
use helixdb.Prelude.{
  ℕ, zero, suc, ◌+◌, ◌/◌, ◌%◌, Bool, true, false, Option, none, some, List, [], ◌∷◌, ◌++◌, leb,
  if◌then◌else◌, ok, err, ◌>>=◌,
}
use helixdb.Prelude.Bytes.{Bytes}
use helixdb.Prelude.Order.{bytes_ord}
use helixdb.Errors.{DbResult, ValueEntry}
use helixdb.BTreeMap
use helixdb.BTreeMap.{BTreeMap, extend, contains_key}
use helixdb.Wal
use helixdb.Wal.{WalRecord}
use helixdb.MemTable
use helixdb.MemTable.{MemTable, Entries, freeze, clear, is_empty}
use helixdb.Sstable.Writer.{SstableMeta, write_from_memtable}
use helixdb.ControlPlane.Text.{padded}
use helixdb.Sstable.Reader
use helixdb.Sstable.Reader.{SstableReader, open_table, entries}

pub record Manifest : Type 0 where
  pub next_file_id : ℕ
  pub next_sequence : ℕ
  pub active_wal_id : ℕ
  pub sstables : List SstableMeta

-- A table that is open, with the bytes of its file.
pub record Table : Type 0 where
  pub file : Bytes
  pub reader : SstableReader

pub record Db : Type 0 where
  pub memtable_flush_threshold : ℕ
  pub sstable_block_size : ℕ
  pub manifest : Manifest
  pub wal : Bytes
  pub memtable : MemTable
  pub sstables : List Table

-- `format!("sst-{id:016}.sst")`
unfoldable pub sst_name : ℕ → Bytes
sst_name id = 115 ∷ 115 ∷ 116 ∷ 45 ∷ padded id ++ 46 ∷ 115 ∷ 115 ∷ 116 ∷ []

-- `merged.entry(key).or_insert(value)`
unfoldable pub or_insert : Entries → Bytes → ValueEntry → Entries
or_insert m key value = if contains_key m key then m else BTreeMap.insert m key value

unfoldable pub or_insert_all : Entries → List (Bytes × ValueEntry) → Entries
or_insert_all m [] = m
or_insert_all m ((key, value) ∷ l) = or_insert_all (or_insert m key value) l

abbrev pub reverse {ℓ} : {A : Type ℓ} → List A → List A
reverse [] = []
reverse (x ∷ xs) = reverse xs ++ x ∷ []

module _ (crc : Bytes → ℕ) (hasher : ℕ → Bytes → ℕ) where
  unfoldable pub get_in_tables : List Table → Bytes → DbResult (Option Bytes)
  get_in_tables [] key = ok none
  get_in_tables (t ∷ ts) key = elim (Reader.get crc hasher t.file t.reader key) [
    | err e ↦ err e
    | ok (some value) ↦ ok (some value)
    | ok none ↦ get_in_tables ts key
  ]

  unfoldable pub get : Db → Bytes → DbResult (Option Bytes)
  get db key = elim (MemTable.get db.memtable key) [
    | some entry ↦ ok entry.value
    | none ↦ get_in_tables (reverse db.sstables) key
  ]

  -- The loop over the tables in `all_entries`.
  unfoldable pub insert_tables : Entries → List Table → DbResult Entries
  insert_tables m [] = ok m
  insert_tables m (t ∷ ts) = entries crc t.file t.reader >>= λ l. insert_tables (extend m l) ts

  unfoldable pub all_entries : Db → DbResult Entries
  all_entries db = do m ← insert_tables [] db.sstables; ok (extend m (freeze db.memtable))

  -- An error leaves the database as it was.
  unfoldable pub flush : Db → DbResult Db
  flush db =
      if is_empty db.memtable
      then ok db
      else let sstable_id = db.manifest.next_file_id in
        let wal_id = db.manifest.next_file_id + 1 in
        do
          (file, meta) ←
              write_from_memtable crc hasher (sst_name sstable_id) (freeze db.memtable)
                db.sstable_block_size sstable_id
          new_reader ← open_table crc file
          ok (record db {
            manifest = record db.manifest {
              sstables = db.manifest.sstables ++ meta ∷ [];
              active_wal_id = wal_id;
              next_file_id = db.manifest.next_file_id + 2;
            };
            wal = [];
            memtable = clear db.memtable;
            sstables = db.sstables ++ record { file = file; reader = new_reader } ∷ [];
          })

  -- The loop over the tables in `compact`, the newest first.
  unfoldable pub merge_tables : Entries → List Table → DbResult Entries
  merge_tables m [] = ok m
  merge_tables m (t ∷ ts) = entries crc t.file t.reader >>= λ l. merge_tables (or_insert_all m l) ts

  unfoldable pub write_compacted : Db → Entries → DbResult Db
  write_compacted db merged = do
    let id = db.manifest.next_file_id
    (file, meta) ← write_from_memtable crc hasher (sst_name id) merged db.sstable_block_size id
    reader ← open_table crc file
    ok (record db {
      manifest = record db.manifest {
        sstables = meta ∷ [];
        next_file_id = db.manifest.next_file_id + 1;
      };
      sstables = record { file = file; reader = reader } ∷ [];
    })

  -- An error leaves the database as it was.
  unfoldable pub compact : Db → DbResult Db
  compact db = elim db.sstables [
    | [] ↦ ok db
    | t ∷ [] ↦ ok db
    | t ∷ u ∷ ts ↦ merge_tables [] (reverse db.sstables) >>= write_compacted db
  ]

  -- The last part of `rewrite_from_entries`, with the table that holds the entries, if any.
  unfoldable pub rewritten : Db → ℕ → List SstableMeta → List Table → Db
  rewritten db used metas tables = record db {
    manifest = record db.manifest {
      sstables = metas;
      active_wal_id = db.manifest.next_file_id + 1;
      next_file_id = db.manifest.next_file_id + used;
    };
    wal = [];
    memtable = clear db.memtable;
    sstables = tables;
  }

  -- An error leaves the database as it was.
  unfoldable pub rewrite_from_entries : Db → List (Bytes × ValueEntry) → DbResult Db
  rewrite_from_entries db l = elim (extend [] l) [
    | [] ↦ ok (rewritten db 1 [] [])
    | e ∷ m ↦ do
      let id = db.manifest.next_file_id
      (file, meta) ← write_from_memtable crc hasher (sst_name id) (e ∷ m) db.sstable_block_size id
      reader ← open_table crc file
      ok (rewritten db 2 (meta ∷ []) (record { file = file; reader = reader } ∷ []))
  ]

  -- The end of `put` and `delete`: a full memtable is flushed. What was logged and inserted stays if
  -- the flush fails.
  unfoldable pub after_write : Db → ℕ → Db × DbResult ℕ
  after_write db seq =
      if leb db.memtable_flush_threshold db.memtable.approximate_bytes
      then elim (flush db) [ ok db' ↦ (db', ok seq) | err e ↦ (db, err e) ]
      else (db, ok seq)

  unfoldable pub write_record : Db → Bytes → Option Bytes → WalRecord → Db × DbResult ℕ
  write_record db key value r =
      let seq = db.manifest.next_sequence in
      after_write
        (record db {
          wal = Wal.append crc db.wal r;
          memtable = MemTable.insert db.memtable key value seq;
          manifest = record db.manifest { next_sequence = seq + 1 };
        })
        seq

  unfoldable pub put : Db → Bytes → Bytes → Db × DbResult ℕ
  put db key value = write_record db key (some value) (Wal.put db.manifest.next_sequence key value)

  unfoldable pub delete : Db → Bytes → Db × DbResult ℕ
  delete db key = write_record db key none (Wal.delete db.manifest.next_sequence key)
