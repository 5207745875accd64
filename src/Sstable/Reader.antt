-- ===== src/Sstable/Reader.antt =====
-- `SstableReader`: opening a table, looking a key up, and reading all entries. The reader keeps
-- the index and the filter; each method reads the blocks from the file again, so the file is an
-- argument here.
use Prim.Native.Nat.Ordering.{lt, eq, gt}
use helixdb.Prelude.{
  ℕ, suc, ◌-◌, ◌&&◌, ◌||◌, not, Option, none, some, List, [], ◌∷◌, ◌++◌, length, take, drop, ltb,
  leb, ◌==◌, get_elem?, if◌then◌else◌, ok, err, ◌>>=◌, ok_or,
}
use helixdb.Prelude.Bytes.{Bytes, from_le_bytes}
use helixdb.Prelude.Order.{bytes_ord, less}
use helixdb.Errors.{DbResult, checksum_mismatch, corrupt}
use helixdb.Bloom.{BloomFilter, might_contain, deserialize}
use helixdb.Sstable.Format.{
  Entry, BlockIndexEntry, table_magic, table_version, footer_size, read_slice, read_counted,
  read_entry, read_index_entry,
}

pub record SstableReader : Type 0 where
  pub index : List BlockIndexEntry
  pub bloom : BloomFilter

-- `a.checked_sub(b)`
abbrev pub checked_sub : ℕ → ℕ → Option ℕ
checked_sub a b = if leb b a then some (a - b) else none

-- `index.partition_point(|entry| entry.last_key < key)`: how many entries at the front are below
-- the key (the standard library promises no more for an index that is not in order).
unfoldable pub partition_point : Bytes → List BlockIndexEntry → ℕ
partition_point key [] = 0
partition_point key (b ∷ bs) =
    let rest = partition_point key bs in if less b.last_key key then suc rest else 0

unfoldable pub find_block : List BlockIndexEntry → Bytes → Option ℕ
find_block index key =
    let idx = partition_point key index in
    elim (get_elem? index idx) [
      | none ↦ none
      | some candidate ↦
          if not (less key candidate.first_key) && not (less candidate.last_key key)
          then some idx
          else none
    ]

-- The loop over the entries of the block.
unfoldable pub scan_block : List Entry → Bytes → Option Bytes
scan_block [] key = none
scan_block ((k, e) ∷ es) key =
    let rest = scan_block es key in
    elim (bytes_ord.cmp k key) [ eq ↦ e.value | gt ↦ none | lt ↦ rest ]

module _ (crc : Bytes → ℕ) where
  unfoldable pub read_index : Bytes → DbResult (List BlockIndexEntry)
  read_index payload =
      read_counted crc read_index_entry "sstable index too short" "sstable index" payload

  unfoldable pub read_block : Bytes → BlockIndexEntry → DbResult (List Entry)
  read_block file b = do
    payload ← read_slice file b.offset b.length_of
    read_counted crc read_entry "sstable block too short" "sstable block" payload

  -- Magic number and version come after the checksum of the footer.
  unfoldable pub read_footer : Bytes → DbResult (ℕ × ℕ)
  read_footer footer =
      if not (crc (take 24 footer) == from_le_bytes (drop 24 footer))
      then err (checksum_mismatch "sstable footer")
      else if not (from_le_bytes (take 4 footer) == table_magic)
          || not (from_le_bytes (take 4 (drop 4 footer)) == table_version)
      then err (corrupt "sstable footer mismatch")
      else ok (from_le_bytes (take 8 (drop 8 footer)), from_le_bytes (take 8 (drop 16 footer)))

  unfoldable pub open_table : Bytes → DbResult SstableReader
  open_table file = if ltb (length file) footer_size then err (corrupt "sstable too short") else do
    (index_offset, bloom_offset) ← read_footer (drop (length file - footer_size) file)
    index_len ←
        ok_or (checked_sub bloom_offset index_offset) (corrupt "sstable offsets out of range")
    index_bytes ← read_slice file index_offset index_len
    index ← read_index index_bytes
    bloom_len ←
        ok_or (checked_sub (length file - footer_size) bloom_offset)
          (corrupt "sstable offsets out of range")
    bloom_bytes ← read_slice file bloom_offset bloom_len
    bloom ← deserialize crc bloom_bytes
    ok (record { index = index; bloom = bloom })

  unfoldable pub entries_of : Bytes → List BlockIndexEntry → DbResult (List Entry)
  entries_of file [] = ok []
  entries_of file (b ∷ bs) = do
    block ← read_block file b
    rest ← entries_of file bs
    ok (block ++ rest)

  unfoldable pub entries : Bytes → SstableReader → DbResult (List Entry)
  entries file r = entries_of file r.index

  unfoldable pub get_in_block :
      Bytes → List BlockIndexEntry → Option ℕ → Bytes → DbResult (Option Bytes)
  get_in_block file index none key = ok none
  get_in_block file index (some idx) key = elim (get_elem? index idx) [
    | none ↦ ok none
    | some b ↦ read_block file b >>= λ block. ok (scan_block block key)
  ]

  module _ (hasher : ℕ → Bytes → ℕ) where
    unfoldable pub get : Bytes → SstableReader → Bytes → DbResult (Option Bytes)
    get file r key =
        if not (might_contain hasher r.bloom key)
        then ok none
        else get_in_block file r.index (find_block r.index key) key
