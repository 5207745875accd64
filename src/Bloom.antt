-- ===== src/Bloom.antt =====
-- crates/helixdb-storage/src/bloom.rs. `hasher` stands for the standard library's `DefaultHasher`,
-- fed a seed and a key, and `crc` for crc32fast's checksum: any functions will do.
pub mod Bits
pub mod Contains
pub mod Codec
mod Tests
use Prim.Native.Nat.{bit_or, bit_and}
use helixdb.Prelude.{
  ℕ, zero, suc, ◌+◌, ◌-◌, ◌*◌, ◌/◌, ◌%◌, ◌^◌, max, Bool, true, false, not, List, [], ◌∷◌, ◌++◌,
  length, take, drop, set, ltb, ◌==◌, if◌then◌else◌, ok, err,
}
use helixdb.Prelude.Bytes.{Bytes, le_bytes, from_le_bytes}
use helixdb.Prelude.Checksum.{payload_of, stored_of}
use helixdb.Errors.{DbResult, checksum_mismatch, corrupt}

pub record BloomFilter : Type 0 where
  pub bits : Bytes
  pub bit_count : ℕ
  pub hash_functions : ℕ

abbrev pub empty : BloomFilter
empty = record { bits = []; bit_count = 0; hash_functions = 7 }

-- `self.bits[i]`; an index past the end, which panics, reads 0 (`index-lt-length` rules it out)
abbrev pub byte_at : Bytes → ℕ → ℕ
byte_at [] i = 0
byte_at (b ∷ bs) zero = b
byte_at (b ∷ bs) (suc i) = byte_at bs i

-- `self.bits[idx / 8] |= 1 << (idx % 8)`
unfoldable pub set_bit : Bytes → ℕ → Bytes
set_bit bits idx = set bits (idx / 8) (bit_or (byte_at bits (idx / 8)) (2 ^ (idx % 8)))

-- `self.bits[idx / 8] & (1 << (idx % 8)) == 0`
unfoldable pub bit_is_clear : Bytes → ℕ → Bool
bit_is_clear bits idx = bit_and (byte_at bits (idx / 8)) (2 ^ (idx % 8)) == 0

-- `(h1.wrapping_add((i as u64).wrapping_mul(h2))) % self.bit_count`
unfoldable pub bit_index : ℕ × ℕ → ℕ → ℕ → ℕ
bit_index (h1, h2) bit_count i = ((h1 + (i * h2) % 2 ^ 64) % 2 ^ 64) % bit_count

-- The loops over `i in 0..hash_functions`, with the rounds left and the next `i`.
unfoldable pub set_bits : ℕ × ℕ → ℕ → ℕ → ℕ → Bytes → Bytes
set_bits h bit_count zero i bits = bits
set_bits h bit_count (suc left) i bits =
    set_bits h bit_count left (i + 1) (set_bit bits (bit_index h bit_count i))

unfoldable pub test_bits : ℕ × ℕ → ℕ → ℕ → ℕ → Bytes → Bool
test_bits h bit_count zero i bits = true
test_bits h bit_count (suc left) i bits =
    let rest = test_bits h bit_count left (i + 1) bits in
    if bit_is_clear bits (bit_index h bit_count i) then false else rest

abbrev zeros : ℕ → Bytes
zeros zero = []
zeros (suc n) = 0 ∷ zeros n

module _ (hasher : ℕ → Bytes → ℕ) where
  unfoldable pub hash_pair : Bytes → ℕ × ℕ
  hash_pair key = (hasher 0x9E3779B97F4A7C15 key, bit_or (hasher 0xC2B2AE3D27D4EB4F key) 1)

  unfoldable pub insert : BloomFilter → Bytes → BloomFilter
  insert f key =
      if f.bit_count == 0
      then f
      else record f { bits = set_bits (hash_pair key) f.bit_count f.hash_functions 0 f.bits }

  unfoldable pub might_contain : BloomFilter → Bytes → Bool
  might_contain f key =
      if f.bit_count == 0
      then false
      else test_bits (hash_pair key) f.bit_count f.hash_functions 0 f.bits

  unfoldable pub insert_all : BloomFilter → List Bytes → BloomFilter
  insert_all f [] = f
  insert_all f (key ∷ keys) = insert_all (insert f key) keys

  unfoldable pub from_keys : List Bytes → BloomFilter
  from_keys [] = empty
  from_keys (key ∷ keys) =
      let bit_count = max (length (key ∷ keys) * 10) 64 in
      insert_all
        (record { bits = zeros ((bit_count + 7) / 8); bit_count = bit_count; hash_functions = 7 })
        (key ∷ keys)

module _ (crc : Bytes → ℕ) where
  unfoldable pub serialize : BloomFilter → Bytes
  serialize f =
      let out = le_bytes 8 f.bit_count ++ (le_bytes 4 f.hash_functions ++ f.bits) in
      out ++ le_bytes 4 (crc out)

  unfoldable pub deserialize : Bytes → DbResult BloomFilter
  deserialize bytes =
      if ltb (length bytes) 16
      then err (corrupt "bloom filter too short")
      else let payload = payload_of bytes in
        if not (crc payload == stored_of bytes)
        then err (checksum_mismatch "bloom filter")
        else let bit_count = from_le_bytes (take 8 payload) in
          let hash_functions = from_le_bytes (take 4 (drop 8 payload)) in
          let bits = drop 12 payload in
          if ltb (length bits * 8) bit_count
          then err (corrupt "bloom filter length mismatch")
          else ok (record { bits = bits; bit_count = bit_count; hash_functions = hash_functions })
