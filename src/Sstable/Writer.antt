-- ===== src/Sstable/Writer.antt =====
-- `Sstable::write_from_memtable`: the bytes of the file and the table's entry for the manifest.
use helixdb.Prelude.{
  ℕ, ◌+◌, Bool, true, false, ◌&&◌, not, List, [], ◌∷◌, ◌++◌, length, ltb, if◌then◌else◌, ok, err,
  map, ◌>>=◌,
}
use helixdb.Prelude.Bytes.{Bytes}
use helixdb.Errors.{DbResult, corrupt}
use helixdb.Wal.{value_len}
use helixdb.MemTable.{Entries}
use helixdb.Bloom.{from_keys, serialize}
use helixdb.Sstable.Format.{Entry, BlockIndexEntry, encode_block, encode_index, encode_footer}

-- `SstableMeta` of manifest.rs; the name of the file is its text as bytes.
pub record SstableMeta : Type 0 where
  pub id : ℕ
  pub file_name : Bytes
  pub smallest_key : Bytes
  pub largest_key : Bytes
  pub entry_count : ℕ

-- The local variables of the loop over the entries, and the file written so far.
pub record Progress : Type 0 where
  pub file : Bytes
  pub blocks : List BlockIndexEntry
  pub block_entries : List Entry
  pub current_bytes : ℕ
  pub offset : ℕ

abbrev pub start : Progress
start = record { file = []; blocks = []; block_entries = []; current_bytes = 0; offset = 0 }

-- `block_entries.first().unwrap().0`, of a list that is not empty
abbrev pub first_key_of : List Entry → Bytes
first_key_of [] = []
first_key_of (e ∷ es) = e.0

abbrev pub last_key_of : List Entry → Bytes
last_key_of [] = []
last_key_of (e ∷ []) = e.0
last_key_of (e ∷ f ∷ es) = last_key_of (f ∷ es)

abbrev pub is_empty {ℓ} : {A : Type ℓ} → List A → Bool
is_empty [] = true
is_empty (x ∷ xs) = false

-- `key.len() + value.len() + 32`
abbrev pub entry_bytes : Entry → ℕ
entry_bytes (key, e) = length key + value_len e.value + 32

unfoldable pub push_entry : Entry → Progress → Progress
push_entry e p = record p {
  current_bytes = p.current_bytes + entry_bytes e;
  block_entries = p.block_entries ++ e ∷ [];
}

unfoldable pub keys_of : Entries → List Bytes
keys_of m = map (λ e. e.0) m

abbrev pub smallest : List BlockIndexEntry → DbResult Bytes
smallest [] = err (corrupt "missing sstable blocks")
smallest (b ∷ bs) = ok b.first_key

abbrev pub largest : List BlockIndexEntry → DbResult Bytes
largest [] = err (corrupt "missing sstable blocks")
largest (b ∷ []) = ok b.last_key
largest (b ∷ c ∷ bs) = largest (c ∷ bs)

module _ (crc : Bytes → ℕ) where
  -- Write the block, push its index entry, advance the offset, and start the next block.
  unfoldable pub close_block : Progress → Progress
  close_block p =
      let block = encode_block crc p.block_entries in
      record {
        file = p.file ++ block;
        blocks =
            p.blocks
            ++ record {
              first_key = first_key_of p.block_entries;
              last_key = last_key_of p.block_entries;
              offset = p.offset;
              length_of = length block;
            }
              ∷ [];
        block_entries = [];
        current_bytes = 0;
        offset = p.offset + length block;
      }

  -- The body of the loop over the entries.
  unfoldable pub add_entry : ℕ → Progress → Entry → Progress
  add_entry block_size p e = push_entry e (
      if not (is_empty p.block_entries) && ltb block_size (p.current_bytes + entry_bytes e)
      then close_block p
      else p)

  unfoldable pub add_all : ℕ → Progress → List Entry → Progress
  add_all block_size p [] = p
  add_all block_size p (e ∷ es) = add_all block_size (add_entry block_size p e) es

  unfoldable pub close_last : Progress → Progress
  close_last p = if not (is_empty p.block_entries) then close_block p else p

  module _ (hasher : ℕ → Bytes → ℕ) where
    unfoldable pub file_of : Progress → Entries → Bytes
    file_of p m =
        let index = encode_index crc p.blocks in
        let index_offset = p.offset in
        let bloom_offset = index_offset + length index in
        p.file
        ++ (index
            ++ (serialize crc (from_keys hasher (keys_of m))
                ++ encode_footer crc index_offset bloom_offset))

    unfoldable pub write_from_memtable : Bytes → Entries → ℕ → ℕ → DbResult (Bytes × SstableMeta)
    write_from_memtable file_name m block_size file_id =
        if is_empty m
        then err (corrupt "cannot write empty sstable")
        else let p = close_last (add_all block_size start m) in
          do
            smallest_key ← smallest p.blocks
            largest_key ← largest p.blocks
            ok (
              file_of p m,
              record {
                id = file_id;
                file_name = file_name;
                smallest_key = smallest_key;
                largest_key = largest_key;
                entry_count = length m;
              },
            )
