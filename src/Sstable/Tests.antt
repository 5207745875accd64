-- ===== src/Sstable/Tests.antt =====
-- A table of three entries, written in blocks of 70 bytes, under hashes and a checksum that add the
-- bytes up.
use helixdb.Prelude.{ℕ, ◌+◌, ◌*◌, ◌%◌, ◌^◌, ◌≡◌, refl, none, some, List, [], ◌∷◌, ok, length, arith}
use helixdb.Prelude.Bytes.{Bytes, le_bytes}
use helixdb.Prelude.Order.{bytes_cmp, bytes_ord}
use helixdb.BTreeMap
use helixdb.BTreeMap.Sorted.{IsSorted}
use helixdb.MemTable.{Entries}
use helixdb.Bloom.{
  set_bit, bit_index, set_bits, hash_pair, insert, insert_all, from_keys, serialize,
}
use helixdb.Sstable.Format.{
  encode_entry, encode_index_entry, encode_block, encode_index, encode_footer,
}
use helixdb.Sstable.Writer.{
  SstableMeta, start, first_key_of, last_key_of, close_block, push_entry, add_entry, add_all,
  close_last, keys_of, file_of, write_from_memtable,
}
use helixdb.Sstable.Reader.{SstableReader, open_table, entries, get}
use helixdb.Sstable.Groups.{Group}
use helixdb.Sstable.Written.{IsFileOf, write_from_memtable-IsFileOf}
use helixdb.Sstable.Find.{value_of}
use helixdb.Sstable.Lookup.{get-write_from_memtable}

abbrev pub total : Bytes → ℕ
total [] = 0
total (b ∷ bs) = b + total bs

abbrev pub sum_hash : ℕ → Bytes → ℕ
sum_hash seed key = (seed + 31 * total key) % 2 ^ 64

abbrev pub sum_crc : Bytes → ℕ
sum_crc bs = total bs % 2 ^ 32

abbrev pub three : Entries
three =
    (1 ∷ [], record { sequence = 1; value = some (10 ∷ []) })
    ∷ (2 ∷ [], record { sequence = 2; value = none })
    ∷ (3 ∷ 1 ∷ [], record { sequence = 3; value = some [] })
    ∷ []

abbrev name : Bytes
name = 97 ∷ []

abbrev pub end : ℕ
end = (close_last sum_crc (add_all sum_crc 70 start three)).offset

block_count : length (close_last sum_crc (add_all sum_crc 70 start three)).blocks ≡ 2
unfolding close_last close_block push_entry add_all add_entry encode_block
block_count = refl

abbrev pub file : Bytes
file = file_of sum_crc sum_hash (close_last sum_crc (add_all sum_crc 70 start three)) three

abbrev meta : SstableMeta
meta = record {
  id = 5;
  file_name = name;
  smallest_key = 1 ∷ [];
  largest_key = 3 ∷ 1 ∷ [];
  entry_count = 3;
}

wrote : write_from_memtable sum_crc sum_hash name three 70 5 ≡ ok (file, meta)
unfolding write_from_memtable close_last close_block push_entry add_all add_entry encode_block
wrote = refl

pub file-length : length file ≡ 186
unfolding file_of close_last close_block push_entry add_all add_entry encode_block encode_index
    encode_footer encode_entry encode_index_entry le_bytes serialize from_keys insert_all insert
    set_bits set_bit bit_index hash_pair keys_of
file-length = refl

pub three-IsSorted : IsSorted three
unfolding bytes_cmp
three-IsSorted = ((refl, (refl, tt)), ((refl, tt), (tt, tt)))

write_from_memtable-IsFileOf_example :
    (f : Bytes) × (d : SstableMeta) × (groups : List Group) × (write_from_memtable sum_crc sum_hash
        name three 70 5
      ≡ ok (f, d))
    × IsFileOf sum_crc sum_hash three f groups
    × (d.smallest_key ≡ first_key_of three)
    × (d.largest_key ≡ last_key_of three)
    × (d.entry_count ≡ length three)
write_from_memtable-IsFileOf_example =
    write_from_memtable-IsFileOf sum_crc sum_hash name three 70 5 refl

get-write_from_memtable_example :
    (r : SstableReader) × (open_table sum_crc file ≡ ok r)
    × (entries sum_crc file r ≡ ok three)
    × ((key : Bytes) → get sum_crc sum_hash file r key ≡ ok (value_of (BTreeMap.get three key)))
get-write_from_memtable_example =
    get-write_from_memtable sum_crc (λ b. omega arith) sum_hash name three 70 5 file meta
      three-IsSorted (omega arith) (omega arith) (omega (arith, file-length)) wrote
