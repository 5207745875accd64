-- ===== src/Bloom/Codec.antt =====
-- A filter is read back as it was written.
use helixdb.Prelude.{
  ℕ, ◌*◌, ◌^◌, ◌<◌, ◌≤◌, ◌≡◌, sym, ap, ◌∙◌, ◌++◌, length, take, drop, ==_refl, le→ltb_false,
  drop-drop, length-append, ok, arith,
}
use helixdb.Prelude.Bytes.{
  Bytes, le_bytes, from_le_bytes, length-le_bytes, from_le_bytes-le_bytes, take_le, drop_le,
}
use helixdb.Prelude.Checksum.{payload_of-append, stored_of-append, length_trailer}
use helixdb.Bloom.{BloomFilter, serialize, deserialize}
use helixdb.Bloom.Contains.{IsValid}

module _ (crc : Bytes → ℕ) (crc-lt : (b : Bytes) → crc b < 2 ^ 32) where
  -- `deserialize` gives back the filter that `serialize` wrote, if its bits are bytes and
  -- enough for their number, and its numbers and the checksums fit their fields.
  pub deserialize-serialize :
      (f : BloomFilter)
      → IsValid f
      → f.bit_count < 2 ^ 64
      → f.hash_functions < 2 ^ 32
      → deserialize crc (serialize crc f) ≡ ok f
  unfolding deserialize serialize
  deserialize-serialize f v hb hh =
      let tail = le_bytes 4 f.hash_functions ++ f.bits in
      let out = le_bytes 8 f.bit_count ++ tail in
      let long : 16 ≤ length (out ++ le_bytes 4 (crc out)) = omega (
        arith,
        length_trailer out (crc out),
        length-append (le_bytes 8 f.bit_count) tail,
        length-append (le_bytes 4 f.hash_functions) f.bits,
        length-le_bytes 8 f.bit_count,
        length-le_bytes 4 f.hash_functions,
      ) in
      let rest = drop_le 8 f.bit_count tail in
      let bits = sym (drop-drop 8 4 out) ∙ ap (drop 4) rest ∙ drop_le 4 f.hash_functions f.bits in
      let count =
        ap from_le_bytes (take_le 8 f.bit_count tail) ∙ from_le_bytes-le_bytes 8 f.bit_count hb in
      let functions =
        ap (λ b. from_le_bytes (take 4 b)) rest
        ∙ ap from_le_bytes (take_le 4 f.hash_functions f.bits)
        ∙ from_le_bytes-le_bytes 4 f.hash_functions hh in
      rw (
        le→ltb_false _ 16 long,
        payload_of-append out (crc out),
        stored_of-append out (crc out) (crc-lt out),
        ==_refl (crc out),
        count,
        le→ltb_false (length (drop 12 out) * 8) f.bit_count (omega (arith, ap length bits, v.room)),
        functions,
        bits,
      )
