-- ===== src/Db/Flush.antt =====
-- What `flush` of lib.rs keeps: all entries, and which answers of `get`.
use helixdb.Prelude.{
  ℕ, ◌+◌, ◌^◌, ◌<◌, ◌≡◌, refl, inl, inr, true, false, none, some, List, [], ◌∷◌, ◌++◌, length, ok,
  ◌>>=◌, All, arith, Option-cases, Result-cases,
}
use helixdb.Prelude.Bytes.{Bytes}
use helixdb.Prelude.Order.{bytes_ord}
use helixdb.BTreeMap
use helixdb.BTreeMap.{extend}
use helixdb.BTreeMap.Sorted.{IsSorted}
use helixdb.MemTable
use helixdb.MemTable.{Entries, is_empty, clear}
use helixdb.Sstable.Writer.{SstableMeta, write_from_memtable}
use helixdb.Sstable.Reader
use helixdb.Sstable.Reader.{open_table, entries, SstableReader}
use helixdb.Sstable.Blocks.{FitsEntry}
use helixdb.Sstable.Find.{value_of}
use helixdb.Sstable.Lookup.{get-write_from_memtable}
use helixdb.Db.{Db, Table, sst_name, reverse, insert_tables, all_entries, flush, get, get_in_tables}

reverse-append_one {ℓ} :
    {A : Type ℓ} (xs : List A) (x : A) → reverse (xs ++ x ∷ []) ≡ x ∷ reverse xs
reverse-append_one [] x = refl
reverse-append_one (y ∷ xs) x = rw (reverse-append_one xs x)

module _ (crc : Bytes → ℕ) (hasher : ℕ → Bytes → ℕ) where
  insert_tables-append_one :
      (m : Entries) (ts : List Table) (t : Table) (l : Entries)
      → entries crc t.file t.reader ≡ ok l
      → insert_tables crc hasher m (ts ++ t ∷ [])
        ≡ (insert_tables crc hasher m ts >>= λ m'. ok (extend m' l))
  unfolding insert_tables
  insert_tables-append_one m [] t l h = rw h
  insert_tables-append_one m (u ∷ ts) t l h = elim (Result-cases (entries crc u.file u.reader)) [
    | inl (k, e) ↦ rw (e, insert_tables-append_one (extend m k) ts t l h)
    | inr (k, e) ↦ rw e
  ]

  -- The numbers of the memtable that `flush` is about to write fit their fields, and it has written
  -- the file.
  pub record CanFlush (db : Db) (file : Bytes) (meta : SstableMeta) : Type 0 where
    pub sorted : IsSorted db.memtable.entries
    pub each : All FitsEntry db.memtable.entries
    pub few : length db.memtable.entries < 2 ^ 32
    pub room : length file < 2 ^ 64
    pub wrote :
        write_from_memtable crc hasher
          (sst_name db.manifest.next_file_id)
          db.memtable.entries
          db.sstable_block_size
          db.manifest.next_file_id
        ≡ ok (file, meta)

  not_empty :
      (db : Db) (name : Bytes) (n id : ℕ) {out : Bytes × SstableMeta}
      → write_from_memtable crc hasher name db.memtable.entries n id ≡ ok out
      → is_empty db.memtable ≡ false
  unfolding write_from_memtable
  not_empty db name n id {out = out} h = go db.memtable.entries h
    where
      go :
          (m : Entries)
          → write_from_memtable crc hasher name m n id ≡ ok out
          → elim m [ [] ↦ true | e ∷ es ↦ false ] ≡ false
      go [] wrote = absurd (cc wrote)
      go (e ∷ es) wrote = refl

  -- The state after a flush that wrote `file` and opened it.
  abbrev flushed : Db → Bytes → SstableMeta → SstableReader → Db
  flushed db file meta r = record db {
    manifest = record db.manifest {
      sstables = db.manifest.sstables ++ meta ∷ [];
      active_wal_id = db.manifest.next_file_id + 1;
      next_file_id = db.manifest.next_file_id + 2;
    };
    wal = [];
    memtable = clear db.memtable;
    sstables = db.sstables ++ record { file = file; reader = r } ∷ [];
  }

  module _ (crc-lt : (b : Bytes) → crc b < 2 ^ 32) where
    -- The reader that `flush` opens, and its state.
    flush_lem :
        (db : Db) (file : Bytes) (meta : SstableMeta)
        → CanFlush db file meta
        → (r : SstableReader) × (flush crc hasher db ≡ ok (flushed db file meta r))
          × (entries crc file r ≡ ok db.memtable.entries)
          × ((key : Bytes)
              → Reader.get crc hasher file r key
                ≡ ok (value_of (BTreeMap.get db.memtable.entries key)))
    unfolding flush
    flush_lem db file meta can =
        let (r, opens, all, each) =
          get-write_from_memtable crc crc-lt hasher _ db.memtable.entries _ _ file meta can.sorted
            can.each can.few can.room can.wrote in
        (r, rw (not_empty db _ _ _ can.wrote, can.wrote, opens) refl, all, each)

    -- If the memtable is sorted and has entries, whose numbers, with the checksums, fit their fields,
    -- `flush` succeeds, empties the memtable and the log, and changes nothing about all entries.
    pub all_entries-flush :
        (db : Db) (file : Bytes) (meta : SstableMeta)
        → CanFlush db file meta
        → (db' : Db) × (flush crc hasher db ≡ ok db')
          × (db'.memtable.entries ≡ [])
          × (db'.wal ≡ [])
          × (all_entries crc hasher db' ≡ all_entries crc hasher db)
    unfolding all_entries extend clear
    all_entries-flush db file meta can =
        let (r, done, all, _) = flush_lem db file meta can in
        (
          flushed db file meta r,
          done,
          refl,
          refl,
          rw (insert_tables-append_one [] db.sstables (record { file = file; reader = r }) _ all)
              (elim (Result-cases (insert_tables crc hasher [] db.sstables)) [
                | inl (m, e) ↦ rw e refl
                | inr (m, e) ↦ rw e refl
              ]),
        )

    get_held :
        (db : Db) (key value : Bytes)
        → value_of (BTreeMap.get db.memtable.entries key) ≡ some value
        → get crc hasher db key ≡ ok (some value)
    unfolding get MemTable.get
    get_held db key value held = elim (Option-cases (BTreeMap.get db.memtable.entries key)) [
      | inl e ↦ absurd (ground (arith, e, held))
      | inr (entry, e) ↦ rw (get, e) (ground (arith, e, held))
    ]

    -- If the memtable is sorted and has entries, whose numbers, with the checksums, fit their fields,
    -- then after `flush` a key with a value in the memtable is answered with this value, as before, but
    -- every other key, also one that the memtable held as deleted, by the older tables alone.
    pub get-flush :
        (db : Db) (file : Bytes) (meta : SstableMeta)
        → CanFlush db file meta
        → (db' : Db) × (flush crc hasher db ≡ ok db')
          × ((key value : Bytes)
              → value_of (BTreeMap.get db.memtable.entries key) ≡ some value
              → (get crc hasher db' key ≡ ok (some value))
                × (get crc hasher db key ≡ ok (some value)))
          × ((key : Bytes)
              → value_of (BTreeMap.get db.memtable.entries key) ≡ none
              → get crc hasher db' key ≡ get_in_tables crc hasher (reverse db.sstables) key)
    unfolding get get_in_tables clear MemTable.get BTreeMap.get
    get-flush db file meta can =
        let (r, done, _, each) = flush_lem db file meta can in
        (
          flushed db file meta r,
          done,
          λ key value held. (
            rw
                (
                  reverse-append_one db.sstables (record { file = file; reader = r }),
                  get_in_tables,
                  each key,
                  held,
                )
                refl,
            get_held db key value held,
          ),
          λ key gone.
              rw
                (
                  reverse-append_one db.sstables (record { file = file; reader = r }),
                  get_in_tables,
                  each key,
                  gone,
                )
                refl,
        )
