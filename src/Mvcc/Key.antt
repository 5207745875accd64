-- ===== src/Mvcc/Key.antt =====
-- The internal keys of mvcc.rs.
use helixdb.Prelude.{
  ℕ, ◌+◌, ◌^◌, ◌%◌, ◌<◌, ◌≡◌, refl, ◌++◌, length, ok, arith, take-append_self, drop-append_self,
  length-append, ==_refl, le→ltb_false,
}
use helixdb.Prelude.Bytes.{
  Bytes, le_bytes, length-le_bytes, from_le_bytes-le_bytes, take_le, drop_le,
}
use helixdb.Mvcc.{encode_internal_key, decode_internal_key}

-- An internal key is read back as the key and the timestamp that it was made from, if the length
-- of the key and the timestamp fit their fields.
pub decode_internal_key-encode_internal_key :
    (key : Bytes) (timestamp : ℕ)
    → length key < 2 ^ 32
    → timestamp < 2 ^ 64
    → decode_internal_key (encode_internal_key key timestamp) ≡ ok (key, timestamp)
unfolding decode_internal_key encode_internal_key
decode_internal_key-encode_internal_key key timestamp fits ht =
    let n : length key % 2 ^ 32 ≡ length key = omega arith in
    let tail = key ++ le_bytes 8 timestamp in
    let long : length (le_bytes 4 (length key) ++ tail) ≡ 4 + length key + 8 = omega (
      arith,
      length-append (le_bytes 4 (length key)) tail,
      length-append key (le_bytes 8 timestamp),
      length-le_bytes 4 (length key),
      length-le_bytes 8 timestamp,
    ) in
    rw
      (
        n,
        long,
        le→ltb_false (4 + length key + 8) 12 (omega arith),
        take_le 4 (length key) tail,
        drop_le 4 (length key) tail,
        from_le_bytes-le_bytes 4 (length key) (omega arith),
        ==_refl (4 + length key + 8),
        take-append_self key (le_bytes 8 timestamp),
        drop-append_self key (le_bytes 8 timestamp),
        from_le_bytes-le_bytes 8 timestamp (omega arith),
      )
      refl
