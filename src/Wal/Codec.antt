-- ===== src/Wal/Codec.antt =====
-- A record is read back as it was encoded, and a torn record reads as the end of the log.
use helixdb.Prelude.{
  ℕ, ◌^◌, ◌<◌, ◌≡◌, ap, subst, Option, none, some, [], ◌∷◌, ◌++◌, length, ◌==◌, if◌then◌else◌, ok,
  arith, lt→ltb, ==_refl,
}
use mathlib.Core.List.{append_assoc, append-nil}
use native.Mathlib.Nat.{mod-eq_of_lt}
use helixdb.Prelude.Bytes.{Bytes, le_bytes}
use helixdb.Prelude.Reader.{Reads, Reads-pure, Reads-bind, Reads-read_bytes, Reads-read_le}
use helixdb.Wal.{
  WalRecord, value_len, payload, Fields, read_value, read_fields, fields_payload, encode_record,
  check_record, read_record,
}

-- The record's numbers fit the fields that the log keeps for them.
pub record IsEncodable (r : WalRecord) : Type 0 where
  pub sequence_fits : r.sequence < 2 ^ 64
  pub key_fits : length r.key < 2 ^ 32
  pub value_fits : value_len r.value < 2 ^ 32

Reads-read_value : (v : Bytes) → Reads (read_value (length v)) v v
unfolding read_value
Reads-read_value [] = Reads-pure []
Reads-read_value (b ∷ bs) =
    rw (lt→ltb 0 (length (b ∷ bs)) (omega arith)) (Reads-read_bytes (b ∷ bs))

fields : ℕ → ℕ → Bytes → Bytes → ℕ → Fields
fields kind sequence key value checksum = record {
  kind = kind;
  sequence = sequence;
  key_len = length key;
  value_len = length value;
  key = key;
  value = value;
  checksum = checksum;
}

Reads-read_fields :
    (kind sequence checksum : ℕ) (key value : Bytes)
    → kind < 256
    → sequence < 2 ^ 64
    → length key < 2 ^ 32
    → length value < 2 ^ 32
    → checksum < 2 ^ 32
    → Reads read_fields (fields kind sequence key value checksum) (
        le_bytes 1 kind
        ++ (le_bytes 8 sequence
            ++ (le_bytes 4 (length key)
                ++ (le_bytes 4 (length value) ++ (key ++ (value ++ (le_bytes 4 checksum ++ [])))))))
unfolding read_fields fields
Reads-read_fields kind sequence checksum key value hk hs hl hv hc =
    Reads-bind _ (Reads-read_le 1 kind hk) (
      Reads-bind _ (Reads-read_le 8 sequence hs) (
        Reads-bind _ (Reads-read_le 4 (length key) hl) (
          Reads-bind _ (Reads-read_le 4 (length value) hv) (
            Reads-bind _ (Reads-read_bytes key) (
              Reads-bind _ (Reads-read_value value)
                (Reads-bind _ (Reads-read_le 4 checksum hc) (Reads-pure _)))))))

le_bytes-one : (x : ℕ) → x < 256 → le_bytes 1 x ≡ x ∷ []
unfolding le_bytes
le_bytes-one x h = ap (λ b. b ∷ []) (mod-eq_of_lt h)

read_fields-payload :
    (kind sequence checksum : ℕ) (key value rest : Bytes)
    → kind < 256
    → sequence < 2 ^ 64
    → length key < 2 ^ 32
    → length value < 2 ^ 32
    → checksum < 2 ^ 32
    → read_fields (
        (payload kind sequence (length key) (length value) key value ++ le_bytes 4 checksum)
        ++ rest)
      ≡ some (fields kind sequence key value checksum, rest)
unfolding payload
read_fields-payload kind sequence checksum key value rest hk hs hl hv hc =
    let e = (Reads-read_fields kind sequence checksum key value hk hs hl hv hc).at rest in
    subst (λ b. read_fields b ≡ some (fields kind sequence key value checksum, rest))
      (simp (le_bytes-one kind hk, append_assoc, append-nil)) e

-- The bytes that the checksum is computed from again are the bytes that were read.
fields_payload-fields :
    (kind sequence checksum : ℕ) (key value : Bytes)
    → length key < 2 ^ 32
    → length value < 2 ^ 32
    → fields_payload (fields kind sequence key value checksum)
      ≡ payload kind sequence (length key) (length value) key value
unfolding fields_payload fields
fields_payload-fields kind sequence checksum key [] hl hv = rw (mod-eq_of_lt hl)
fields_payload-fields kind sequence checksum key (b ∷ bs) hl hv =
    rw (mod-eq_of_lt hl, mod-eq_of_lt hv, lt→ltb 0 (length (b ∷ bs)) (omega arith))

module _ (crc : Bytes → ℕ) (crc-lt : (b : Bytes) → crc b < 2 ^ 32) where
  check_record_pass :
      (f : Fields) (rest : Bytes)
      → crc (fields_payload f) ≡ f.checksum
      → check_record crc f rest
        ≡ ok (
            some (
              record {
                sequence = f.sequence;
                key = f.key;
                value = if f.kind == 1 then some f.value else none;
              },
              rest,
            ))
  unfolding check_record
  check_record_pass f rest h = rw (h, ==_refl f.checksum)

  read_record-payload :
      (kind sequence : ℕ) (key value rest : Bytes)
      → kind < 256
      → sequence < 2 ^ 64
      → length key < 2 ^ 32
      → length value < 2 ^ 32
      → let out = payload kind sequence (length key) (length value) key value in
        read_record crc ((out ++ le_bytes 4 (crc out)) ++ rest)
        ≡ ok (
            some (
              record {
                sequence = sequence;
                key = key;
                value = if kind == 1 then some value else none;
              },
              rest,
            ))
  unfolding read_record fields
  read_record-payload kind sequence key value rest hk hs hl hv =
      let out = payload kind sequence (length key) (length value) key value in
      let e = read_fields-payload kind sequence (crc out) key value rest hk hs hl hv (crc-lt out) in
      let same = fields_payload-fields kind sequence (crc out) key value hl hv in
      rw (e, read_record)
        (check_record_pass (fields kind sequence key value (crc out)) rest (ap crc same))

  read_record_of :
      (sequence : ℕ) (key : Bytes) (value : Option Bytes) (rest : Bytes)
      → let r : WalRecord = record { sequence = sequence; key = key; value = value } in
        IsEncodable r → read_record crc (encode_record crc r ++ rest) ≡ ok (some (r, rest))
  unfolding encode_record
  read_record_of sequence key none rest h = rw (mod-eq_of_lt h.key_fits) (
      read_record-payload 2 sequence key [] rest (omega arith) h.sequence_fits h.key_fits
        (omega arith))
  read_record_of sequence key (some v) rest h =
      rw (mod-eq_of_lt h.key_fits, mod-eq_of_lt h.value_fits)
        (read_record-payload 1 sequence key v rest (omega arith) h.sequence_fits h.key_fits
          h.value_fits)

  -- Whatever follows it in the log, an encoded record is read back whole.
  pub read_record-encode_record :
      (r : WalRecord) (rest : Bytes)
      → IsEncodable r
      → read_record crc (encode_record crc r ++ rest) ≡ ok (some (r, rest))
  read_record-encode_record r rest h = read_record_of r.sequence r.key r.value rest h

  read_fields_of :
      (sequence : ℕ) (key : Bytes) (value : Option Bytes) (rest : Bytes)
      → let r : WalRecord = record { sequence = sequence; key = key; value = value } in
        IsEncodable r → (f : Fields) × (read_fields (encode_record crc r ++ rest) ≡ some (f, rest))
  unfolding encode_record
  read_fields_of sequence key none rest h =
      let out = payload 2 sequence (length key) 0 key [] in
      (
        fields 2 sequence key [] (crc out),
        rw (mod-eq_of_lt h.key_fits) (
            read_fields-payload 2 sequence (crc out) key [] rest (omega arith) h.sequence_fits
              h.key_fits (omega arith) (crc-lt out)),
      )
  read_fields_of sequence key (some v) rest h =
      let out = payload 1 sequence (length key) (length v) key v in
      (
        fields 1 sequence key v (crc out),
        rw (mod-eq_of_lt h.key_fits, mod-eq_of_lt h.value_fits)
            (read_fields-payload 1 sequence (crc out) key v rest (omega arith) h.sequence_fits
              h.key_fits h.value_fits (crc-lt out)),
      )

  pub read_fields-encode_record :
      (r : WalRecord) (rest : Bytes)
      → IsEncodable r
      → (f : Fields) × (read_fields (encode_record crc r ++ rest) ≡ some (f, rest))
  read_fields-encode_record r rest h = read_fields_of r.sequence r.key r.value rest h
