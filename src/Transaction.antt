-- ===== src/Transaction.antt =====
-- crates/helixdb-storage/src/transaction.rs: optimistic transactions over the versions of keys.
-- `commit` takes its timestamp from the clock before it takes the lock of the storage, so these are
-- two steps here; what it does under the lock is one.
pub mod Commit
mod Tests
use helixdb.Prelude.{
  ℕ, ◌+◌, ◌%◌, ◌^◌, max, min, Bool, true, false, Option, none, some, List, [], ◌∷◌, ltb, leb,
  if◌then◌else◌, ok, err, ◌>>=◌,
}
use helixdb.Prelude.Bytes.{Bytes}
use helixdb.Prelude.Order.{bytes_ord, eqb}
use helixdb.BTreeMap
use helixdb.BTreeMap.{BTreeMap}
use helixdb.Errors.{DbError, DbResult, ValueEntry}
use helixdb.MemTable.{Entries, saturating_add}
use helixdb.Db.{Db, all_entries}
use helixdb.Mvcc.{MvccVersion, decode_internal_key, put_at, delete_at, get_at, max_timestamp}

pub record TransactionalMvccDb : Type 0 where
  pub storage : Db
  pub clock : ℕ

pub record MvccTransaction : Type 0 where
  pub start_ts : ℕ
  pub writes : BTreeMap Bytes (Option Bytes)

pub data MvccTransactionError : Type 0 where
  db_error : DbError → MvccTransactionError
  write_conflict : Bytes → ℕ → ℕ → MvccTransactionError

-- `clock.fetch_add(1)`, which wraps around
unfoldable pub fetch_add : TransactionalMvccDb → TransactionalMvccDb × ℕ
fetch_add db = (record db { clock = (db.clock + 1) % 2 ^ 64 }, db.clock)

unfoldable pub begin_transaction : TransactionalMvccDb → TransactionalMvccDb × MvccTransaction
begin_transaction db = ((fetch_add db).0, record { start_ts = (fetch_add db).1; writes = [] })

unfoldable pub put : MvccTransaction → Bytes → Bytes → MvccTransaction
put tx key value = record tx { writes = BTreeMap.insert tx.writes key (some value) }

unfoldable pub delete : MvccTransaction → Bytes → MvccTransaction
delete tx key = record tx { writes = BTreeMap.insert tx.writes key none }

-- The versions of a key among the entries, before they are sorted: `versions_for_key` of mvcc.rs.
unfoldable pub versions_in : Entries → Bytes → List MvccVersion
versions_in [] key = []
versions_in ((internal_key, e) ∷ m) key =
    let rest = versions_in m key in
    elim (decode_internal_key internal_key) [
      | err why ↦ rest
      | ok (user_key, ts) ↦
          if eqb user_key key then record { timestamp = ts; value = e.value } ∷ rest else rest
    ]

-- A stable sort, one insertion after the other from the back.
unfoldable pub insert_by_key : MvccVersion → List MvccVersion → List MvccVersion
insert_by_key v [] = v ∷ []
insert_by_key v (w ∷ ws) =
    let rest = insert_by_key v ws in if leb v.timestamp w.timestamp then v ∷ w ∷ ws else w ∷ rest

unfoldable pub sort_by_key : List MvccVersion → List MvccVersion
sort_by_key [] = []
sort_by_key (v ∷ vs) = insert_by_key v (sort_by_key vs)

unfoldable pub latest_of : List MvccVersion → ℕ → ℕ
latest_of [] latest = latest
latest_of (v ∷ vs) latest = latest_of vs (max latest v.timestamp)

module _ (crc : Bytes → ℕ) (hasher : ℕ → Bytes → ℕ) where
  unfoldable pub open_clock : Db → DbResult TransactionalMvccDb
  open_clock storage = max_timestamp crc hasher storage >>= λ t.
      ok (record { storage = storage; clock = saturating_add t 1 })

  unfoldable pub get : TransactionalMvccDb → MvccTransaction → Bytes → DbResult (Option Bytes)
  get db tx key = elim (BTreeMap.get tx.writes key) [
    | some value ↦ ok value
    | none ↦ get_at crc hasher db.storage key tx.start_ts
  ]

  unfoldable pub versions_for_key : Db → Bytes → DbResult (List MvccVersion)
  versions_for_key db key = all_entries crc hasher db >>= λ m. ok (sort_by_key (versions_in m key))

  unfoldable pub latest_committed_timestamp : Db → Bytes → DbResult ℕ
  latest_committed_timestamp db key = versions_for_key db key >>= λ vs. ok (latest_of vs 0)

  -- The loop over the keys in `commit`: the error that ends it, if any.
  unfoldable pub check_writes : Db → ℕ → BTreeMap Bytes (Option Bytes) → Option MvccTransactionError
  check_writes db start_ts [] = none
  check_writes db start_ts ((key, value) ∷ writes) =
      let rest = check_writes db start_ts writes in
      elim (latest_committed_timestamp db key) [
        | err e ↦ some (db_error e)
        | ok latest ↦
            if ltb start_ts latest then some (write_conflict key latest start_ts) else rest
      ]

  unfoldable pub write_version : Db → Bytes → Option Bytes → ℕ → Db × DbResult (Unit {0})
  write_version db key none commit_ts = delete_at crc hasher db key commit_ts
  write_version db key (some value) commit_ts = put_at crc hasher db key value commit_ts

  -- The loop over the writes: an error ends it, and what was written before stays.
  unfoldable pub write_all :
      Db → BTreeMap Bytes (Option Bytes) → ℕ → Db × Option MvccTransactionError
  write_all db [] commit_ts = (db, none)
  write_all db ((key, value) ∷ writes) commit_ts =
      let p = write_version db key value commit_ts in
      let rest = write_all p.0 writes commit_ts in
      elim p.1 [ err e ↦ (p.0, some (db_error e)) | ok u ↦ rest ]

  -- What `commit` does under the lock; `none` is success, with the timestamp `commit_ts`.
  unfoldable pub commit_locked : Db → MvccTransaction → ℕ → Db × Option MvccTransactionError
  commit_locked db tx commit_ts = elim (check_writes db tx.start_ts tx.writes) [
    | some e ↦ (db, some e)
    | none ↦ write_all db tx.writes commit_ts
  ]

  -- `commit` when no other transaction runs between its two steps.
  unfoldable pub commit :
      TransactionalMvccDb → MvccTransaction → TransactionalMvccDb × Option MvccTransactionError × ℕ
  commit db tx =
      let taken = fetch_add db in
      let out = commit_locked (taken.0.storage) tx (taken.1) in
      (record taken.0 { storage = out.0 }, out.1, taken.1)
