-- ===== src/Sstable/Footer.antt =====
-- The footer is read back as it was written.
use helixdb.Prelude.{
  ℕ, ◌^◌, ◌<◌, ◌≡◌, sym, ap, ◌∙◌, ◌++◌, length, take, drop, drop-drop, length-append,
  take-append_self, drop-append_self, ==_refl, ok, arith,
}
use mathlib.Core.List.{append_assoc}
use helixdb.Prelude.Bytes.{
  Bytes, le_bytes, from_le_bytes, length-le_bytes, from_le_bytes-le_bytes, take_le, drop_le,
}
use helixdb.Prelude.Checksum.{length_trailer}
use helixdb.Sstable.Format.{table_magic, table_version, encode_footer}
use helixdb.Sstable.Reader.{read_footer}

-- A number that stands at the front of what is left.
word :
    (n x : ℕ) (rest bytes : Bytes)
    → bytes ≡ le_bytes n x ++ rest
    → x < 256 ^ n
    → from_le_bytes (take n bytes) ≡ x
word n x rest bytes e h =
    ap (λ s. from_le_bytes (take n s)) e
    ∙ ap from_le_bytes (take_le n x rest)
    ∙ from_le_bytes-le_bytes n x h

module _ (crc : Bytes → ℕ) (a b : ℕ) where
  fields : Bytes
  fields = le_bytes 4 table_magic ++ (le_bytes 4 table_version ++ (le_bytes 8 a ++ le_bytes 8 b))

  length-fields : length fields ≡ 24
  unfolding fields
  length-fields = omega (
    arith,
    length-append (le_bytes 4 table_magic)
        (le_bytes 4 table_version ++ (le_bytes 8 a ++ le_bytes 8 b)),
    length-append (le_bytes 4 table_version) (le_bytes 8 a ++ le_bytes 8 b),
    length-append (le_bytes 8 a) (le_bytes 8 b),
    length-le_bytes 4 table_magic,
    length-le_bytes 4 table_version,
    length-le_bytes 8 a,
    length-le_bytes 8 b,
  )

  pub length-encode_footer : length (encode_footer crc a b) ≡ 28
  unfolding encode_footer fields
  length-encode_footer = omega (arith, length_trailer fields (crc fields), length-fields)

  module _ (crc-lt : (p : Bytes) → crc p < 2 ^ 32) where
    pub read_footer-encode_footer :
        a < 2 ^ 64 → b < 2 ^ 64 → read_footer crc (encode_footer crc a b) ≡ ok (a, b)
    unfolding read_footer encode_footer fields
    read_footer-encode_footer ha hb =
        let c = le_bytes 4 (crc fields) in
        let front = rw length-fields at (take-append_self fields c) in
        let back = rw length-fields at (drop-append_self fields c) in
        let t3 = le_bytes 8 b ++ c in
        let t2 = le_bytes 8 a ++ t3 in
        let t1 = le_bytes 4 table_version ++ t2 in
        let whole : fields ++ c ≡ le_bytes 4 table_magic ++ t1 = simp append_assoc in
        let after4 = ap (drop 4) whole ∙ drop_le 4 table_magic t1 in
        let after8 =
          sym (drop-drop 4 4 (fields ++ c)) ∙ ap (drop 4) after4 ∙ drop_le 4 table_version t2 in
        let after16 = sym (drop-drop 8 8 (fields ++ c)) ∙ ap (drop 8) after8 ∙ drop_le 8 a t3 in
        let magic = word 4 table_magic t1 (fields ++ c) whole (omega arith) in
        let version = word 4 table_version t2 (drop 4 (fields ++ c)) after4 (omega arith) in
        let first = word 8 a t3 (drop 8 (fields ++ c)) after8 ha in
        let second = word 8 b c (drop 16 (fields ++ c)) after16 hb in
        rw
          (front, back, from_le_bytes-le_bytes 4 (crc fields) (crc-lt fields), ==_refl (crc fields))
          (rw (magic, version, first, second))
