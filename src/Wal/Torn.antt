-- ===== src/Wal/Torn.antt =====
-- How much of the log `read_record` takes, and what it makes of a record cut off by a crash.
use helixdb.Prelude.{
  ℕ, ◌+◌, ◌^◌, ◌<◌, ◌≤◌, ◌≡◌, ◌≢◌, refl, sym, ap, ◌∙◌, none, some, [], ◌∷◌, ◌++◌, length, ltb, ok,
  arith, inl, inr, Bool-cases, Option-cases,
}
use Prim.Native.Nat.{zero-le}
use mathlib.Core.List.{append-nil}
use helixdb.Prelude.Bytes.{Bytes, read_exact}
use helixdb.Prelude.Reader.{
  read_bytes, read_le, Extends, Extends-pure, Extends-bind, Extends-read_bytes, Extends-read_le,
  Consumes, Consumes-pure, Consumes-bind, Consumes-weaken, Consumes-read_bytes, Consumes-read_le,
}
use helixdb.Wal.{
  WalRecord, Fields, read_value, read_fields, encode_record, check_record, read_record,
}
use helixdb.Wal.Codec.{IsEncodable, read_fields-encode_record}

Extends-read_value : (n : ℕ) → Extends (read_value n)
unfolding read_value
Extends-read_value n = elim (Bool-cases (ltb 0 n)) [
  | inl h ↦ rw h (Extends-read_bytes n)
  | inr h ↦ rw h (Extends-pure [])
]

Extends-read_fields : Extends read_fields
unfolding read_fields
Extends-read_fields = Extends-bind _ (Extends-read_le 1) λ kind.
    Extends-bind _ (Extends-read_le 8) λ sequence. Extends-bind _ (Extends-read_le 4) λ klen.
      Extends-bind _ (Extends-read_le 4) λ vlen. Extends-bind _ (Extends-read_bytes klen) λ key.
        Extends-bind _ (Extends-read_value vlen)
          λ value. Extends-bind _ (Extends-read_le 4) λ checksum. Extends-pure _

Consumes-read_any : (n : ℕ) → Consumes 0 (read_bytes n)
Consumes-read_any n = Consumes-weaken zero-le (Consumes-read_bytes n)

Consumes-read_value : (n : ℕ) → Consumes 0 (read_value n)
unfolding read_value
Consumes-read_value n = elim (Bool-cases (ltb 0 n)) [
  | inl h ↦ rw h (Consumes-read_any n)
  | inr h ↦ rw h (Consumes-pure [])
]

Consumes-read_fields : Consumes 21 read_fields
unfolding read_fields
Consumes-read_fields = Consumes-bind _ (Consumes-read_le 1) λ kind.
    Consumes-bind _ (Consumes-read_le 8) λ sequence. Consumes-bind _ (Consumes-read_le 4) λ klen.
      Consumes-bind _ (Consumes-read_le 4) λ vlen. Consumes-bind _ (Consumes-read_any klen) λ key.
        Consumes-bind _ (Consumes-read_value vlen)
          λ value. Consumes-bind _ (Consumes-read_le 4) λ checksum. Consumes-pure _

nil_of_append : (xs ys : Bytes) → xs ++ ys ≡ [] → ys ≡ []
nil_of_append [] ys h = h
nil_of_append (x ∷ xs) ys h = cc

module _ (crc : Bytes → ℕ) where
  check_record-rest :
      (f : Fields) (rest : Bytes) (r : WalRecord) (left : Bytes)
      → check_record crc f rest ≡ ok (some (r, left))
      → left ≡ rest
  unfolding check_record
  check_record-rest f rest r left h = ground arith

  pub read_record-nil : read_record crc [] ≡ ok none
  unfolding read_record read_fields read_le read_exact
  read_record-nil = refl

  -- A record takes at least 21 bytes off the log.
  pub length-read_record :
      (bs : Bytes) (r : WalRecord) (rest : Bytes)
      → read_record crc bs ≡ ok (some (r, rest))
      → length rest + 21 ≤ length bs
  unfolding read_record
  length-read_record bs r rest h = elim (Option-cases (read_fields bs)) [
    | inl stop ↦ absurd (cc (rw (stop, read_record) at h))
    | inr (p, go) ↦
        let e = check_record-rest p.0 p.1 r rest (rw (go, read_record) at h) in
        omega (arith, ap length e, Consumes-read_fields.at bs p.0 p.1 go)
  ]

  module _ (crc-lt : (b : Bytes) → crc b < 2 ^ 32) where
    -- A record that a crash cut short, with `missing` never written, reads as the end of the log.
    pub read_record_torn :
        (r : WalRecord) (torn missing : Bytes)
        → IsEncodable r
        → torn ++ missing ≡ encode_record crc r
        → missing ≢ []
        → read_record crc torn ≡ ok none
    unfolding read_record
    read_record_torn r torn missing h e short = elim (Option-cases (read_fields torn)) [
      | inl stop ↦ rw (stop, read_record)
      | inr (p, go) ↦
          let more = Extends-read_fields.at torn missing p.0 p.1 go in
          let (f, whole) = read_fields-encode_record crc crc-lt r [] h in
          let whole' = rw append-nil at whole in
          let same = sym (rw e at more) ∙ whole' in
          absurd (short (nil_of_append p.1 missing (ground (arith, same))))
    ]
