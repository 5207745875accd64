-- ===== src/Mvcc.antt =====
-- crates/helixdb-storage/src/mvcc.rs: versions of keys, as internal keys of a `Db`.
pub mod Key
pub mod Newest
mod Tests
use helixdb.Prelude.{
  ℕ, suc, ◌+◌, ◌^◌, ◌%◌, max, Bool, true, false, not, ◌||◌, Option, none, some, List, [], ◌∷◌, ◌++◌,
  length, take, drop, ltb, leb, ◌==◌, if◌then◌else◌, ok, err, ◌>>=◌,
}
use helixdb.Prelude.Bytes.{Bytes, le_bytes, from_le_bytes}
use helixdb.Prelude.Order.{bytes_ord, eqb}
use helixdb.Errors.{DbResult, ValueEntry, corrupt}
use helixdb.Wal.{as_u32}
use helixdb.MemTable.{Entries}
use helixdb.Db
use helixdb.Db.{Db, all_entries, rewrite_from_entries}

pub record MvccVersion : Type 0 where
  pub timestamp : ℕ
  pub value : Option Bytes

unfoldable pub encode_internal_key : Bytes → ℕ → Bytes
encode_internal_key key timestamp =
    le_bytes 4 (as_u32 (length key)) ++ (key ++ le_bytes 8 timestamp)

-- The length is read from four bytes, so the checked additions do not overflow.
unfoldable pub decode_internal_key : Bytes → DbResult (Bytes × ℕ)
decode_internal_key bytes =
    if ltb (length bytes) 12
    then err (corrupt "internal mvcc key too short")
    else let key_len = from_le_bytes (take 4 bytes) in
      if not (length bytes == 4 + key_len + 8)
      then err (corrupt "internal mvcc key length mismatch")
      else ok (take key_len (drop 4 bytes), from_le_bytes (drop key_len (drop 4 bytes)))

-- `match &best`
unfoldable pub replaces : Option MvccVersion → ℕ → Bool
replaces none version_ts = true
replaces (some current) version_ts = ltb current.timestamp version_ts

-- The body of the loop of `get_at` on an entry, with the best version so far.
unfoldable pub better : Bytes → ℕ → Option MvccVersion → Bytes × ValueEntry → Option MvccVersion
better key timestamp best (internal_key, e) = elim (decode_internal_key internal_key) [
  | err why ↦ best
  | ok (user_key, version_ts) ↦
      if not (eqb user_key key) || ltb timestamp version_ts || not (replaces best version_ts)
      then best
      else some (record { timestamp = version_ts; value = e.value })
]

unfoldable pub newest : Bytes → ℕ → Option MvccVersion → Entries → Option MvccVersion
newest key timestamp best [] = best
newest key timestamp best (p ∷ m) = newest key timestamp (better key timestamp best p) m

abbrev pub value_at : Option MvccVersion → Option Bytes
value_at none = none
value_at (some v) = v.value

-- The entries that `gc` keeps, and how many it removes.
unfoldable pub survivors : ℕ → Entries → List (Bytes × ValueEntry) × ℕ
survivors safe_point [] = ([], 0)
survivors safe_point ((internal_key, e) ∷ m) =
    let rest = survivors safe_point m in
    elim (decode_internal_key internal_key) [
      | err why ↦ rest
      | ok (user_key, version_ts) ↦
          if leb safe_point version_ts
          then ((internal_key, e) ∷ rest.0, rest.1)
          else (rest.0, suc (rest.1))
    ]

unfoldable pub max_of : Entries → ℕ → ℕ
max_of [] t = t
max_of ((internal_key, e) ∷ m) t = elim (decode_internal_key internal_key) [
  | err why ↦ max_of m t
  | ok (user_key, version_ts) ↦ max_of m (max t version_ts)
]

abbrev pub discard : Db × DbResult ℕ → Db × DbResult (Unit {0})
discard (db, r) = (db, r >>= λ seq. ok tt)

module _ (crc : Bytes → ℕ) (hasher : ℕ → Bytes → ℕ) where
  unfoldable pub put_at : Db → Bytes → Bytes → ℕ → Db × DbResult (Unit {0})
  put_at db key value timestamp =
      discard (Db.put crc hasher db (encode_internal_key key timestamp) value)

  unfoldable pub delete_at : Db → Bytes → ℕ → Db × DbResult (Unit {0})
  delete_at db key timestamp = discard (Db.delete crc hasher db (encode_internal_key key timestamp))

  unfoldable pub get_at : Db → Bytes → ℕ → DbResult (Option Bytes)
  get_at db key timestamp =
      all_entries crc hasher db >>= λ m. ok (value_at (newest key timestamp none m))

  unfoldable pub gc : Db → ℕ → DbResult (Db × ℕ)
  gc db safe_point = do
    m ← all_entries crc hasher db
    let kept = survivors safe_point m
    db' ← rewrite_from_entries crc hasher db kept.0
    ok (db', kept.1)

  unfoldable pub max_timestamp : Db → DbResult ℕ
  max_timestamp db = all_entries crc hasher db >>= λ m. ok (max_of m 0)
