-- ===== src/Db/Compact.antt =====
-- What `compact` of lib.rs keeps: all entries.
use helixdb.Prelude.{
  ℕ, ◌^◌, ◌<◌, ◌≡◌, refl, sym, ◌∙◌, ap, List, [], ◌∷◌, ◌++◌, length, map, ok, ◌+◌, All, All-append,
}
use helixdb.Prelude.Bytes.{Bytes}
use helixdb.Prelude.Order.{bytes_ord}
use helixdb.BTreeMap.{extend}
use helixdb.BTreeMap.Sorted.{IsSorted}
use helixdb.MemTable.{Entries}
use helixdb.Sstable.Writer.{SstableMeta, write_from_memtable}
use helixdb.Sstable.Reader.{entries}
use helixdb.Sstable.Blocks.{FitsEntry}
use helixdb.Sstable.Lookup.{get-write_from_memtable}
use helixdb.Db.{
  Db, Table, or_insert_all, sst_name, reverse, insert_tables, all_entries, merge_tables,
  write_compacted, compact,
}
use helixdb.Db.Merge.{
  merge_all, insert_all, merge_all-IsSorted, merge_all-eq-insert_all, extend-nil,
}

-- Tables with the entries that they hold.
abbrev pub Contents : Type 0
Contents = List (Table × Entries)

abbrev pub tables : Contents → List Table
tables cs = map (λ c. c.0) cs

abbrev pub lists : Contents → List Entries
lists cs = map (λ c. c.1) cs

module _ {ℓ κ} {A : Type ℓ} {B : Type κ} (f : A → B) where
  map-append_one : (xs : List A) (y : A) → map f (xs ++ y ∷ []) ≡ map f xs ++ f y ∷ []
  map-append_one [] y = refl
  map-append_one (x ∷ xs) y = ap (λ l. f x ∷ l) (map-append_one xs y)

  reverse-map : (xs : List A) → reverse (map f xs) ≡ map f (reverse xs)
  reverse-map [] = refl
  reverse-map (x ∷ xs) = rw (reverse-map xs) (sym (map-append_one (reverse xs) x))

All-reverse {ℓ κ} : {A : Type ℓ} (P : A → Type κ) (xs : List A) → All P xs → All P (reverse xs)
All-reverse P [] h = h
All-reverse P (x ∷ xs) (p, h) = All-append P (reverse xs) (x ∷ []) (All-reverse P xs h) (p, tt)

module _ (crc : Bytes → ℕ) (hasher : ℕ → Bytes → ℕ) where
  -- The table reads back as these entries, which are sorted.
  abbrev pub Holds : Table × Entries → Type 0
  Holds c = (entries crc c.0.file c.0.reader ≡ ok c.1) × IsSorted c.1

  insert_tables-tables :
      (m : Entries) (cs : Contents)
      → All Holds cs
      → insert_tables crc hasher m (tables cs) ≡ ok (insert_all m (lists cs))
  unfolding insert_tables
  insert_tables-tables m [] h = refl
  insert_tables-tables m (c ∷ cs) h = rw (h.0.0) (insert_tables-tables (extend m c.1) cs h.1)

  merge_tables-tables :
      (m : Entries) (cs : Contents)
      → All Holds cs
      → merge_tables crc hasher m (tables cs) ≡ ok (merge_all m (lists cs))
  unfolding merge_tables
  merge_tables-tables m [] h = refl
  merge_tables-tables m (c ∷ cs) h = rw (h.0.0) (merge_tables-tables (or_insert_all m c.1) cs h.1)

  -- What `compact` merges.
  abbrev pub merged : Contents → Entries
  merged cs = merge_all [] (reverse (lists cs))

  All-lists : (cs : Contents) → All Holds cs → All IsSorted (lists cs)
  All-lists [] h = tt
  All-lists (c ∷ cs) h = (h.0.1, All-lists cs h.1)

  -- The numbers of the merged entries fit their fields, and `compact` has written the file.
  pub record CanCompact (db : Db) (cs : Contents) (file : Bytes) (meta : SstableMeta) : Type 0 where
    pub opened : db.sstables ≡ tables cs
    pub holds : All Holds cs
    pub each : All FitsEntry (merged cs)
    pub few : length (merged cs) < 2 ^ 32
    pub room : length file < 2 ^ 64
    pub wrote :
        write_from_memtable crc hasher
          (sst_name db.manifest.next_file_id)
          (merged cs)
          db.sstable_block_size
          db.manifest.next_file_id
        ≡ ok (file, meta)

  module _ (crc-lt : (b : Bytes) → crc b < 2 ^ 32) where
    -- The new table holds what inserting the old ones gives.
    write_compacted_lem :
        (db : Db) (cs : Contents) (file : Bytes) (meta : SstableMeta)
        → CanCompact db cs file meta
        → (db' : Db) × (write_compacted crc hasher db (merged cs) ≡ ok db')
          × (all_entries crc hasher db' ≡ all_entries crc hasher db)
    unfolding write_compacted all_entries insert_tables
    write_compacted_lem db cs file meta can =
        let (r, opens, all, _) =
          get-write_from_memtable crc crc-lt hasher _ (merged cs) _ _ file meta
            (merge_all-IsSorted [] (reverse (lists cs)) tt) can.each can.few can.room can.wrote in
        let same : extend [] (merged cs) ≡ insert_all [] (lists cs) =
          extend-nil (merged cs) (merge_all-IsSorted [] (reverse (lists cs)) tt)
          ∙ merge_all-eq-insert_all (lists cs) (All-lists cs can.holds) in
        (
          record db {
            manifest = record db.manifest {
              sstables = meta ∷ [];
              next_file_id = db.manifest.next_file_id + 1;
            };
            sstables = record { file = file; reader = r } ∷ [];
          },
          rw (can.wrote, opens) refl,
          rw (all, can.opened, insert_tables-tables [] cs can.holds, same) refl,
        )

    -- If every table reads back as sorted entries, and the numbers of the merged ones, of which there
    -- are some, fit their fields with the checksums, `compact` succeeds and changes nothing about all
    -- entries.
    pub all_entries-compact :
        (db : Db) (cs : Contents) (file : Bytes) (meta : SstableMeta)
        → CanCompact db cs file meta
        → (db' : Db) × (compact crc hasher db ≡ ok db')
          × (all_entries crc hasher db' ≡ all_entries crc hasher db)
    unfolding compact write_compacted write_compacted_lem
    all_entries-compact db [] file meta can = (db, rw (can.opened) refl, refl)
    all_entries-compact db (c ∷ []) file meta can = (db, rw (can.opened) refl, refl)
    all_entries-compact db (c ∷ d ∷ cs) file meta can =
        let all = c ∷ d ∷ cs in
        let (db', done, same) = write_compacted_lem db all file meta can in
        (
          db',
          rw
              (
                can.opened,
                reverse-map (λ e. e.0) all,
                merge_tables-tables [] (reverse all) (All-reverse Holds all can.holds),
                sym (reverse-map (λ e. e.1) all),
              )
              done,
          same,
        )
