-- ===== src/Bloom/Tests.antt =====
-- Runs of the filter, with hashes and a checksum that add the bytes up.
use helixdb.Prelude.{ℕ, ◌+◌, ◌*◌, ◌%◌, ◌^◌, ◌≡◌, refl, false, true, List, [], ◌∷◌, ok, arith, All}
use helixdb.Prelude.Bytes.{Bytes}
use helixdb.Bloom.{
  BloomFilter, set_bit, bit_is_clear, bit_index, set_bits, test_bits, hash_pair, insert,
  might_contain, insert_all, from_keys, serialize, deserialize,
}
use helixdb.Bloom.Contains.{from_keys_finds, from_keys-IsValid, might_contain-insert}
use helixdb.Bloom.Codec.{deserialize-serialize}

abbrev total : Bytes → ℕ
total [] = 0
total (b ∷ bs) = b + total bs

abbrev sum_hash : ℕ → Bytes → ℕ
sum_hash seed key = (seed + 31 * total key) % 2 ^ 64

abbrev sum_crc : Bytes → ℕ
sum_crc bs = total bs % 2 ^ 32

abbrev keys : List Bytes
keys = (1 ∷ []) ∷ (2 ∷ 3 ∷ []) ∷ []

abbrev filter : BloomFilter
filter = from_keys sum_hash keys

-- A key that was never inserted is ruled out.
absent : might_contain sum_hash filter (77 ∷ []) ≡ false
unfolding from_keys insert_all insert might_contain set_bits test_bits set_bit bit_is_clear
    bit_index hash_pair
absent = refl

filter-numbers : (filter.bit_count ≡ 64) × (filter.hash_functions ≡ 7)
unfolding from_keys insert_all insert
filter-numbers = (refl, refl)

found-first : might_contain sum_hash filter (1 ∷ []) ≡ true
unfolding from_keys insert_all insert might_contain set_bits test_bits set_bit bit_is_clear
    bit_index hash_pair
found-first = refl

from_keys_finds_example :
    All (λ key. might_contain sum_hash (from_keys sum_hash keys) key ≡ true) keys
from_keys_finds_example = from_keys_finds sum_hash keys

might_contain-insert_example :
    might_contain sum_hash (insert sum_hash filter (9 ∷ [])) (1 ∷ []) ≡ true
might_contain-insert_example =
    might_contain-insert sum_hash filter (9 ∷ []) (1 ∷ []) (from_keys-IsValid sum_hash keys)
      found-first

deserialize-serialize_example : deserialize sum_crc (serialize sum_crc filter) ≡ ok filter
deserialize-serialize_example =
    deserialize-serialize sum_crc (λ b. omega arith) filter (from_keys-IsValid sum_hash keys)
      (omega (arith, filter-numbers.0)) (omega (arith, filter-numbers.1))
