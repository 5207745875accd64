-- ===== src/Transaction/Tests.antt =====
-- Transactions that write the same key, from an empty database on.
use helixdb.Prelude.{ℕ, ◌≡◌, refl, none, [], ◌∷◌, ok, err, All}
use helixdb.Prelude.Bytes.{Bytes, le_bytes, from_le_bytes}
use helixdb.Prelude.Order.{bytes_cmp, bytes_ord}
use helixdb.BTreeMap
use helixdb.MemTable
use helixdb.MemTable.{Entries}
use helixdb.Sstable.Tests.{sum_crc, sum_hash}
use helixdb.Db.{Db, all_entries, insert_tables, after_write, write_record}
use helixdb.Db as Storage
use helixdb.Mvcc.{encode_internal_key, decode_internal_key, newest, get_at, put_at}
use helixdb.Transaction.{
  TransactionalMvccDb, MvccTransaction, fetch_add, begin_transaction, put, get, versions_in,
  insert_by_key, sort_by_key, latest_of, versions_for_key, latest_committed_timestamp, check_writes,
  write_version, write_all, commit_locked,
}
use helixdb.Transaction.Commit.{Unchanged, commit_locked-Unchanged}

abbrev empty_db : Db
empty_db = record {
  memtable_flush_threshold = 4194304;
  sstable_block_size = 65536;
  manifest = record { next_file_id = 1; next_sequence = 1; active_wal_id = 1; sstables = [] };
  wal = [];
  memtable = record { entries = []; approximate_bytes = 0 };
  sstables = [];
}

abbrev key : Bytes
key = 7 ∷ []

abbrev opened : TransactionalMvccDb
opened = record { storage = empty_db; clock = 1 }

-- The first one begins and takes the timestamp of its commit, then the second one begins.
abbrev first : MvccTransaction
first = put (begin_transaction opened).1 key (10 ∷ [])

abbrev taken : TransactionalMvccDb × ℕ
taken = fetch_add (begin_transaction opened).0

abbrev second : MvccTransaction
second = put (begin_transaction (taken.0)).1 key (20 ∷ [])

abbrev after_first : Db
after_first = (commit_locked sum_crc sum_hash empty_db first (taken.1)).0

-- The second transaction has read that there is no value, the first one has then committed one, and
-- the second one commits, too.
lost_update :
    (get sum_crc sum_hash (taken.0) (record second { writes = [] }) key ≡ ok none)
    × ((commit_locked sum_crc sum_hash empty_db first (taken.1)).1 ≡ none)
    × ((commit_locked sum_crc sum_hash after_first second 4).1 ≡ none)
unfolding get get_at newest all_entries insert_tables begin_transaction fetch_add put commit_locked
    check_writes latest_committed_timestamp versions_for_key versions_in sort_by_key insert_by_key
    latest_of write_all write_version put_at Storage.put write_record after_write
    encode_internal_key decode_internal_key le_bytes from_le_bytes bytes_cmp BTreeMap.get
    BTreeMap.insert BTreeMap.extend MemTable.insert
lost_update = (refl, refl, refl)

-- A third transaction, which begins when the first one has committed and writes the key again.
abbrev third : MvccTransaction
third = put (begin_transaction (record { storage = after_first; clock = 4 })).1 key (30 ∷ [])

abbrev stored : Entries
stored = elim (all_entries sum_crc sum_hash after_first) [ ok m ↦ m | err e ↦ [] ]

read_stored : all_entries sum_crc sum_hash after_first ≡ ok stored
unfolding all_entries insert_tables begin_transaction fetch_add put commit_locked check_writes
    latest_committed_timestamp versions_for_key versions_in sort_by_key insert_by_key latest_of
    write_all write_version put_at Storage.put write_record after_write encode_internal_key le_bytes
    bytes_cmp BTreeMap.get BTreeMap.insert BTreeMap.extend MemTable.insert
read_stored = refl

abbrev after_third : Db
after_third = (commit_locked sum_crc sum_hash after_first third 5).0

committed : commit_locked sum_crc sum_hash after_first third 5 ≡ (after_third, none)
unfolding get_at newest all_entries insert_tables begin_transaction fetch_add put commit_locked
    check_writes latest_committed_timestamp versions_for_key versions_in sort_by_key insert_by_key
    latest_of write_all write_version put_at Storage.put write_record after_write
    encode_internal_key decode_internal_key le_bytes from_le_bytes bytes_cmp BTreeMap.get
    BTreeMap.insert BTreeMap.extend MemTable.insert
committed = refl

commit_locked-Unchanged_example : All (λ w. Unchanged stored w.0 third.start_ts) third.writes
commit_locked-Unchanged_example =
    commit_locked-Unchanged sum_crc sum_hash after_first stored read_stored third 5 after_third
      committed
