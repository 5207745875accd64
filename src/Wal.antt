-- ===== src/Wal.antt =====
-- crates/helixdb-storage/src/wal.rs: the write-ahead log. A file is the bytes that it holds;
-- opening it and syncing it are the file system's. `crc` stands for crc32fast's checksum.
pub mod Codec
pub mod Torn
pub mod Replay
mod Tests
use helixdb.Prelude.{
  ℕ, zero, suc, ◌%◌, ◌^◌, Bool, true, false, Option, none, some, List, [], ◌∷◌, ◌++◌, length, ltb,
  ◌==◌, if◌then◌else◌, ok, err,
}
use helixdb.Prelude.Bytes.{Bytes, le_bytes}
use helixdb.Prelude.Reader.{Reader, pure, ◌>>=◌, read_bytes, read_le}
use helixdb.Errors.{DbError, DbResult, checksum_mismatch}

pub record WalRecord : Type 0 where
  pub sequence : ℕ
  pub key : Bytes
  pub value : Option Bytes

abbrev pub put : ℕ → Bytes → Bytes → WalRecord
put sequence key value = record { sequence = sequence; key = key; value = some value }

abbrev pub delete : ℕ → Bytes → WalRecord
delete sequence key = record { sequence = sequence; key = key; value = none }

-- `x as u32`
abbrev pub as_u32 : ℕ → ℕ
as_u32 x = x % 2 ^ 32

abbrev pub kind_of : Option Bytes → ℕ
kind_of none = 2
kind_of (some v) = 1

-- `value.as_ref().map(|v| v.len()).unwrap_or(0)`
abbrev pub value_len : Option Bytes → ℕ
value_len none = 0
value_len (some v) = length v

abbrev pub value_bytes : Option Bytes → Bytes
value_bytes none = []
value_bytes (some v) = v

unfoldable pub payload : ℕ → ℕ → ℕ → ℕ → Bytes → Bytes → Bytes
payload kind sequence klen vlen key value =
    kind ∷ (le_bytes 8 sequence ++ (le_bytes 4 klen ++ (le_bytes 4 vlen ++ (key ++ value))))

-- What `read_record` has read when it comes to the checksum test.
pub record Fields : Type 0 where
  pub kind : ℕ
  pub sequence : ℕ
  pub key_len : ℕ
  pub value_len : ℕ
  pub key : Bytes
  pub value : Bytes
  pub checksum : ℕ

unfoldable pub read_value : ℕ → Reader Bytes
read_value vlen = if ltb 0 vlen then read_bytes vlen else pure []

unfoldable pub read_fields : Reader Fields
read_fields = do
  kind ← read_le 1
  sequence ← read_le 8
  klen ← read_le 4
  vlen ← read_le 4
  key ← read_bytes klen
  value ← read_value vlen
  checksum ← read_le 4
  pure (record {
    kind = kind;
    sequence = sequence;
    key_len = klen;
    value_len = vlen;
    key = key;
    value = value;
    checksum = checksum;
  })

unfoldable pub fields_payload : Fields → Bytes
fields_payload f =
    payload f.kind f.sequence (as_u32 f.key_len) (as_u32 f.value_len) f.key
      (if ltb 0 f.value_len then f.value else [])

-- How a round of the loop of `replay` ends: the loop is over, or goes on with the bytes left.
pub data Round (S : Type 0) : Type 0 where
  stopped : DbResult S → Round S
  again : S → Bytes → Round S

module _ (crc : Bytes → ℕ) where
  unfoldable pub encode_record : WalRecord → Bytes
  encode_record r =
      let out =
        payload (kind_of r.value) r.sequence (as_u32 (length r.key)) (as_u32 (value_len r.value))
          r.key (value_bytes r.value) in
      out ++ le_bytes 4 (crc out)

  unfoldable pub check_record : Fields → Bytes → DbResult (Option (WalRecord × Bytes))
  check_record f rest =
      if crc (fields_payload f) == f.checksum
      then ok (
          some (
            record {
              sequence = f.sequence;
              key = f.key;
              value = if f.kind == 1 then some f.value else none;
            },
            rest,
          ))
      else err (checksum_mismatch "wal record")

  -- The next record and the bytes behind it; `ok none` where the bytes end, also inside a record.
  unfoldable pub read_record : Bytes → DbResult (Option (WalRecord × Bytes))
  read_record bs = elim (read_fields bs) [ none ↦ ok none | some (f, rest) ↦ check_record f rest ]

  -- `append` writes one encoded record at the end of the file.
  unfoldable pub append : Bytes → WalRecord → Bytes
  append file r = file ++ encode_record r

  module _ {S : Type 0} (apply : S → WalRecord → DbResult S) where
    -- One round of the loop of `replay`: read a record and apply it.
    unfoldable pub replay_round : S → Bytes → Round S
    replay_round s bs = elim (read_record bs) [
      | err e ↦ stopped (err e)
      | ok none ↦ stopped (ok s)
      | ok (some (r, rest)) ↦ elim (apply s r) [ err e ↦ stopped (err e) | ok s' ↦ again s' rest ]
    ]

    -- `none` means that the fuel ran out.
    unfoldable pub replay_loop : ℕ → S → Bytes → Option (DbResult S)
    replay_loop zero s bs = none
    replay_loop (suc fuel) s bs = elim (replay_round s bs) [
      | stopped out ↦ some out
      | again s' rest ↦ replay_loop fuel s' rest
    ]

    -- A record takes at least 21 bytes, so one round for each byte, and one for the end, suffice.
    unfoldable pub replay : S → Bytes → Option (DbResult S)
    replay s file = replay_loop (suc (length file)) s file
