-- ===== src/Mvcc/Tests.antt =====
-- Two versions of a key and one of another, in the memtable of a database.
use helixdb.Prelude.{◌≡◌, refl, none, some, [], ◌∷◌, ok, arith, Option}
use helixdb.Prelude.Bytes.{le_bytes, from_le_bytes}
use helixdb.Prelude.Order.{bytes_cmp}
use helixdb.BTreeMap.{insert, extend}
use helixdb.MemTable.{Entries}
use helixdb.Sstable.Tests.{sum_crc, sum_hash}
use helixdb.Db.{Db, all_entries, insert_tables}
use helixdb.Mvcc.{
  MvccVersion, encode_internal_key, decode_internal_key, replaces, better, newest, value_at,
  survivors, get_at,
}
use helixdb.Mvcc.Key.{decode_internal_key-encode_internal_key}
use helixdb.Mvcc.Newest.{IsNewest, get_at-IsNewest}

abbrev versions : Entries
versions =
    (encode_internal_key (7 ∷ []) 1, record { sequence = 1; value = some (10 ∷ []) })
    ∷ (encode_internal_key (7 ∷ []) 4, record { sequence = 2; value = none })
    ∷ (encode_internal_key (8 ∷ []) 2, record { sequence = 3; value = some (30 ∷ []) })
    ∷ []

abbrev db : Db
db = record {
  memtable_flush_threshold = 4194304;
  sstable_block_size = 65536;
  manifest = record { next_file_id = 1; next_sequence = 4; active_wal_id = 1; sstables = [] };
  wal = [];
  memtable = record { entries = versions; approximate_bytes = 120 };
  sstables = [];
}

read : all_entries sum_crc sum_hash db ≡ ok versions
unfolding all_entries insert_tables extend insert bytes_cmp encode_internal_key le_bytes
read = refl

at_three : get_at sum_crc sum_hash db (7 ∷ []) 3 ≡ ok (some (10 ∷ []))
unfolding get_at all_entries insert_tables extend insert bytes_cmp encode_internal_key
    decode_internal_key le_bytes from_le_bytes newest better replaces
at_three = refl

-- `gc` at 9 drops the newest version of 8, too, which a read at 9 would have found.
dropped : survivors 9 versions ≡ ([], 3)
unfolding survivors encode_internal_key decode_internal_key le_bytes from_le_bytes
dropped = refl

get_at-IsNewest_example :
    (r : Option MvccVersion) × (get_at sum_crc sum_hash db (7 ∷ []) 3 ≡ ok (value_at r))
    × IsNewest (7 ∷ []) 3 versions r
get_at-IsNewest_example = get_at-IsNewest sum_crc sum_hash db versions (7 ∷ []) 3 read

decode_internal_key-encode_internal_key_example :
    decode_internal_key (encode_internal_key (7 ∷ 8 ∷ []) 300) ≡ ok (7 ∷ 8 ∷ [], 300)
decode_internal_key-encode_internal_key_example =
    decode_internal_key-encode_internal_key (7 ∷ 8 ∷ []) 300 (omega arith) (omega arith)
