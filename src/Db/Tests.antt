-- ===== src/Db/Tests.antt =====
-- A database with an older table and three entries in the memtable, one of them deleted.
use helixdb.Prelude.{ℕ, ◌≡◌, refl, none, some, [], ◌∷◌, ok, arith, length}
use helixdb.Prelude.Bytes.{Bytes, le_bytes}
use helixdb.BTreeMap
use helixdb.Prelude.Order.{bytes_ord, bytes_cmp}
use helixdb.MemTable.{Entries}
use helixdb.Bloom.{
  set_bit, bit_index, set_bits, hash_pair, insert, insert_all, from_keys, serialize,
}
use helixdb.Sstable.Writer.{
  SstableMeta, start, close_block, push_entry, add_entry, add_all, close_last, write_from_memtable,
  file_of, keys_of,
}
use helixdb.Sstable.Format.{
  encode_entry, encode_index_entry, encode_block, encode_index, encode_footer,
}
use helixdb.Sstable.Find.{value_of}
use helixdb.Sstable.Lookup.{get-write_from_memtable}
use helixdb.Sstable.Tests.{sum_crc, sum_hash, three, file, file-length, three-IsSorted}
use helixdb.Db.{
  Db, Table, sst_name, reverse, flush, get, get_in_tables, all_entries, compact, or_insert,
  or_insert_all,
}
use helixdb.Db.Flush.{CanFlush, all_entries-flush, get-flush}
use helixdb.Db.Compact.{Contents, tables, Holds, CanCompact, all_entries-compact}

abbrev meta : SstableMeta
meta = record {
  id = 1;
  file_name = sst_name 1;
  smallest_key = 1 ∷ [];
  largest_key = 3 ∷ 1 ∷ [];
  entry_count = 3;
}

abbrev db : Db
db = record {
  memtable_flush_threshold = 4194304;
  sstable_block_size = 70;
  manifest = record { next_file_id = 1; next_sequence = 4; active_wal_id = 1; sstables = [] };
  wal = [];
  memtable = record { entries = three; approximate_bytes = 77 };
  sstables = [];
}

wrote : write_from_memtable sum_crc sum_hash (sst_name 1) three 70 1 ≡ ok (file, meta)
unfolding write_from_memtable close_last close_block push_entry add_all add_entry encode_block
wrote = refl

db-CanFlush : CanFlush sum_crc sum_hash db file meta
db-CanFlush = record {
  sorted = three-IsSorted;
  each = omega arith;
  few = omega arith;
  room = omega (arith, file-length);
  wrote = wrote;
}

all_entries-flush_example :
    (db' : Db) × (flush sum_crc sum_hash db ≡ ok db')
    × (db'.memtable.entries ≡ [])
    × (db'.wal ≡ [])
    × (all_entries sum_crc sum_hash db' ≡ all_entries sum_crc sum_hash db)
all_entries-flush_example =
    all_entries-flush sum_crc sum_hash (λ b. omega arith) db file meta db-CanFlush

get-flush_example :
    (db' : Db) × (flush sum_crc sum_hash db ≡ ok db')
    × ((key value : Bytes)
        → value_of (BTreeMap.get three key) ≡ some value
        → (get sum_crc sum_hash db' key ≡ ok (some value))
          × (get sum_crc sum_hash db key ≡ ok (some value)))
    × ((key : Bytes)
        → value_of (BTreeMap.get three key) ≡ none
        → get sum_crc sum_hash db' key ≡ get_in_tables sum_crc sum_hash (reverse db.sstables) key)
get-flush_example = get-flush sum_crc sum_hash (λ b. omega arith) db file meta db-CanFlush

-- Two tables, the newer one of which deletes a key.
abbrev older : Entries
older = (1 ∷ [], record { sequence = 1; value = some (10 ∷ []) }) ∷ []

abbrev newer : Entries
newer = (1 ∷ [], record { sequence = 2; value = none }) ∷ []

abbrev file_with : Entries → Bytes
file_with m = file_of sum_crc sum_hash (close_last sum_crc (add_all sum_crc 70 start m)) m

abbrev meta_with : ℕ → ℕ → SstableMeta
meta_with id n = record {
  id = id;
  file_name = sst_name id;
  smallest_key = 1 ∷ [];
  largest_key = 1 ∷ [];
  entry_count = n;
}

length-file_with : (length (file_with older) ≡ 113) × (length (file_with newer) ≡ 112)
unfolding file_of close_last close_block push_entry add_all add_entry encode_block encode_index
    encode_footer encode_entry encode_index_entry le_bytes serialize from_keys insert_all insert
    set_bits set_bit bit_index hash_pair keys_of
length-file_with = (refl, refl)

wrote_older :
    write_from_memtable sum_crc sum_hash (sst_name 1) older 70 1
    ≡ ok (file_with older, meta_with 1 1)
unfolding write_from_memtable close_last close_block push_entry add_all add_entry encode_block
wrote_older = refl

wrote_newer :
    (id : ℕ)
    → write_from_memtable sum_crc sum_hash (sst_name id) newer 70 id
      ≡ ok (file_with newer, meta_with id 1)
unfolding write_from_memtable close_last close_block push_entry add_all add_entry encode_block
wrote_newer id = refl

older_table : (t : Table) × Holds sum_crc sum_hash (t, older)
older_table =
    let (r, _, all, _) =
      get-write_from_memtable sum_crc (λ b. omega arith) sum_hash (sst_name 1) older 70 1
        (file_with older) (meta_with 1 1) (tt, tt) (omega arith) (omega arith)
        (omega (arith, length-file_with.0)) wrote_older in
    (record { file = file_with older; reader = r }, (all, (tt, tt)))

newer_table : (t : Table) × Holds sum_crc sum_hash (t, newer)
newer_table =
    let (r, _, all, _) =
      get-write_from_memtable sum_crc (λ b. omega arith) sum_hash (sst_name 3) newer 70 3
        (file_with newer) (meta_with 3 1) (tt, tt) (omega arith) (omega arith)
        (omega (arith, length-file_with.1)) (wrote_newer 3) in
    (record { file = file_with newer; reader = r }, (all, (tt, tt)))

two : Contents
two = (older_table.0, older) ∷ (newer_table.0, newer) ∷ []

full : Db
full = record db {
  manifest = record {
    next_file_id = 5;
    next_sequence = 3;
    active_wal_id = 4;
    sstables = meta_with 1 1 ∷ meta_with 3 1 ∷ [];
  };
  memtable = record { entries = []; approximate_bytes = 0 };
  sstables = tables two;
}

full-CanCompact : CanCompact sum_crc sum_hash full two (file_with newer) (meta_with 5 1)
unfolding full two or_insert_all or_insert BTreeMap.get BTreeMap.insert bytes_cmp
full-CanCompact = record {
  opened = refl;
  holds = (older_table.1, (newer_table.1, tt));
  each = omega arith;
  few = omega arith;
  room = omega (arith, length-file_with.1);
  wrote = wrote_newer 5;
}

all_entries-compact_example :
    (db' : Db) × (compact sum_crc sum_hash full ≡ ok db')
    × (all_entries sum_crc sum_hash db' ≡ all_entries sum_crc sum_hash full)
all_entries-compact_example =
    all_entries-compact sum_crc sum_hash (λ b. omega arith) full two (file_with newer)
      (meta_with 5 1) full-CanCompact
