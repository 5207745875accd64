-- ===== src/Sstable/Format.antt =====
-- The layout of a block, of the index and of the footer.
use helixdb.Prelude.{
  ℕ, zero, suc, not, Option, none, some, List, [], ◌∷◌, ◌++◌, length, drop, ltb, ◌==◌,
  if◌then◌else◌, ok, err, String,
}
use helixdb.Prelude.Bytes.{Bytes, le_bytes}
use helixdb.Prelude.Reader.{Reader, pure, ◌>>=◌, read_bytes, read_le}
use helixdb.Prelude.Checksum.{payload_of, stored_of}
use helixdb.Errors.{DbResult, ValueEntry, IoError, io, checksum_mismatch, corrupt}
use helixdb.Wal.{as_u32, value_len, value_bytes, kind_of}

abbrev pub Entry : Type 0
Entry = Bytes × ValueEntry

pub record BlockIndexEntry : Type 0 where
  pub first_key : Bytes
  pub last_key : Bytes
  pub offset : ℕ
  pub length_of : ℕ

abbrev pub table_magic : ℕ
table_magic = 0x54424C45

abbrev pub table_version : ℕ
table_version = 1

abbrev pub footer_size : ℕ
footer_size = 28

-- The body of the loop of `write_block`.
unfoldable pub encode_entry : Entry → Bytes
encode_entry (key, e) =
    le_bytes 4 (as_u32 (length key))
    ++ (le_bytes 4 (as_u32 (value_len e.value))
        ++ (le_bytes 8 e.sequence
            ++ (le_bytes 1 (kind_of e.value) ++ (key ++ value_bytes e.value))))

unfoldable pub encode_index_entry : BlockIndexEntry → Bytes
encode_index_entry b =
    le_bytes 4 (as_u32 (length b.first_key))
    ++ (b.first_key
        ++ (le_bytes 4 (as_u32 (length b.last_key))
            ++ (b.last_key ++ (le_bytes 8 b.offset ++ le_bytes 8 b.length_of))))

-- A count and the items one after the other, as in `write_block` and `write_index`.
module _ {ℓ} {A : Type ℓ} (encode : A → Bytes) where
  abbrev pub encode_items : List A → Bytes
  encode_items [] = []
  encode_items (x ∷ xs) = encode x ++ encode_items xs

  abbrev pub encode_counted : List A → Bytes
  encode_counted xs = le_bytes 4 (as_u32 (length xs)) ++ encode_items xs

module _ (crc : Bytes → ℕ) where
  -- `payload.extend_from_slice(&checksum.to_le_bytes())`
  abbrev pub with_checksum : Bytes → Bytes
  with_checksum payload = payload ++ le_bytes 4 (crc payload)

  unfoldable pub encode_block : List Entry → Bytes
  encode_block entries = with_checksum (encode_counted encode_entry entries)

  unfoldable pub encode_index : List BlockIndexEntry → Bytes
  encode_index blocks = with_checksum (encode_counted encode_index_entry blocks)

  unfoldable pub encode_footer : ℕ → ℕ → Bytes
  encode_footer index_offset bloom_offset = with_checksum (
      le_bytes 4 table_magic
      ++ (le_bytes 4 table_version ++ (le_bytes 8 index_offset ++ le_bytes 8 bloom_offset)))

-- The loops `for _ in 0..count`.
module _ {ℓ} {A : Type ℓ} (item : Reader A) where
  unfoldable pub read_many : ℕ → Reader (List A)
  read_many zero = pure []
  read_many (suc n) = do x ← item; xs ← read_many n; pure (x ∷ xs)

unfoldable pub read_vec : Reader Bytes
read_vec = do len ← read_le 4; read_bytes len

unfoldable pub read_entry : Reader Entry
read_entry = do
  key_len ← read_le 4
  vlen ← read_le 4
  sequence ← read_le 8
  flags ← read_le 1
  key ← read_bytes key_len
  value ← read_bytes vlen
  pure (key, record { sequence = sequence; value = if flags == 1 then some value else none })

unfoldable pub read_index_entry : Reader BlockIndexEntry
read_index_entry = do
  first_key ← read_vec
  last_key ← read_vec
  offset ← read_le 8
  len ← read_le 8
  pure (record { first_key = first_key; last_key = last_key; offset = offset; length_of = len })

-- The cursor's `?`: bytes left behind the last item are not looked at.
abbrev pub run_reader {ℓ} : {A : Type ℓ} → Option (A × Bytes) → DbResult A
run_reader none = err (io IoError.unexpected_eof)
run_reader (some (a, rest)) = ok a

-- `seek(Start(offset))` and `read_exact` into `len` bytes
abbrev pub read_slice : Bytes → ℕ → ℕ → DbResult Bytes
read_slice file offset len = run_reader (read_bytes len (drop offset file))

module _ {ℓ} {A : Type ℓ} (crc : Bytes → ℕ) (item : Reader A) where
  -- The common body of `read_block` and `read_index`.
  unfoldable pub read_counted : String → String → Bytes → DbResult (List A)
  read_counted short_message sum_message payload =
      if ltb (length payload) 4
      then err (corrupt short_message)
      else if not (crc (payload_of payload) == stored_of payload)
      then err (checksum_mismatch sum_message)
      else run_reader ((do count ← read_le 4; read_many item count) (payload_of payload))
