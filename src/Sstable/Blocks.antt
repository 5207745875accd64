-- ===== src/Sstable/Blocks.antt =====
-- A block and the index are read back as they were written.
use helixdb.Prelude.{
  ℕ, ◌^◌, ◌<◌, ◌≡◌, sym, ap, subst, Option, none, some, List, [], ◌∷◌, ◌++◌, length, ◌==◌, ==_refl,
  le→ltb_false, ok, if◌then◌else◌, arith, All, String,
}
use mathlib.Core.List.{append_assoc, append-nil}
use native.Mathlib.Nat.{mod-eq_of_lt}
use helixdb.Prelude.Bytes.{Bytes, le_bytes}
use helixdb.Prelude.Reader.{
  Reader, Reads, Reads-pure, Reads-bind, Reads-map, Reads-read_bytes, Reads-read_le,
}
use helixdb.Prelude.Checksum.{payload_of-append, stored_of-append, length_trailer}
use helixdb.Wal.{value_len}
use helixdb.Sstable.Format.{
  Entry, BlockIndexEntry, encode_entry, encode_index_entry, encode_items, encode_counted,
  with_checksum, read_many, read_vec, read_entry, read_index_entry, run_reader, read_counted,
}

-- The numbers of an entry, and of an entry of the index, fit their fields.
pub record FitsEntry (e : Entry) : Type 0 where
  pub key_fits : length e.0 < 2 ^ 32
  pub value_fits : value_len e.1.value < 2 ^ 32
  pub sequence_fits : e.1.sequence < 2 ^ 64

pub record FitsIndex (b : BlockIndexEntry) : Type 0 where
  pub first_fits : length b.first_key < 2 ^ 32
  pub last_fits : length b.last_key < 2 ^ 32
  pub offset_fits : b.offset < 2 ^ 64
  pub length_fits : b.length_of < 2 ^ 64

module _ {ℓ} {A : Type ℓ} (item : Reader A) (encode : A → Bytes) where
  Reads-read_many :
      (xs : List A)
      → All (λ x. Reads item x (encode x)) xs
      → Reads (read_many item (length xs)) xs (encode_items encode xs)
  unfolding read_many
  Reads-read_many [] h = Reads-pure []
  Reads-read_many (x ∷ xs) h =
      subst (λ b. Reads (read_many item (length (x ∷ xs))) (x ∷ xs) (encode x ++ b))
        (append-nil (encode_items encode xs))
        (Reads-bind _ h.0 (Reads-bind _ (Reads-read_many xs h.1) (Reads-pure (x ∷ xs))))

  pub read_counted-encode_counted :
      (crc : Bytes → ℕ) (crc-lt : (b : Bytes) → crc b < 2 ^ 32) (short sum : String) (xs : List A)
      → length xs < 2 ^ 32
      → All (λ x. Reads item x (encode x)) xs
      → read_counted crc item short sum (with_checksum crc (encode_counted encode xs)) ≡ ok xs
  unfolding read_counted
  read_counted-encode_counted crc crc-lt short sum xs few h =
      let p = encode_counted encode xs in
      let count = Reads-read_le 4 (length xs) few in
      let whole = Reads-bind (read_many item) count (Reads-read_many xs h) in
      let e = rw (sym (mod-eq_of_lt few), append-nil) at (whole.at []) in
      rw
        (
          le→ltb_false (length (with_checksum crc p)) 4 (omega (arith, length_trailer p (crc p))),
          payload_of-append p (crc p),
          stored_of-append p (crc p) (crc-lt p),
          ==_refl (crc p),
        )
        (ap run_reader e)

-- The fields of an entry, its value taken as the bytes and the kind that are written for it.
Reads-entry_fields :
    (key value : Bytes) (sequence kind : ℕ)
    → length key < 2 ^ 32
    → length value < 2 ^ 32
    → sequence < 2 ^ 64
    → kind < 256
    → Reads read_entry
        (key, record { sequence = sequence; value = if kind == 1 then some value else none })
        (le_bytes 4 (length key)
          ++ (le_bytes 4 (length value)
              ++ (le_bytes 8 sequence ++ (le_bytes 1 kind ++ (key ++ value)))))
unfolding read_entry
Reads-entry_fields key value sequence kind hl hv hs hk =
    Reads-bind _ (Reads-read_le 4 (length key) hl) (
      Reads-bind _ (Reads-read_le 4 (length value) hv) (
        Reads-bind _ (Reads-read_le 8 sequence hs) (
          Reads-bind _ (Reads-read_le 1 kind hk)
            (Reads-bind _ (Reads-read_bytes key) (Reads-map _ (Reads-read_bytes value))))))

Reads-entry_of :
    (key : Bytes) (sequence : ℕ) (value : Option Bytes)
    → let e : Entry = (key, record { sequence = sequence; value = value }) in
      FitsEntry e → Reads read_entry e (encode_entry e)
unfolding encode_entry
Reads-entry_of key sequence none h =
    rw (mod-eq_of_lt h.key_fits)
      (Reads-entry_fields key [] sequence 2 h.key_fits (omega arith) h.sequence_fits (omega arith))
Reads-entry_of key sequence (some v) h =
    rw (mod-eq_of_lt h.key_fits, mod-eq_of_lt h.value_fits)
      (Reads-entry_fields key v sequence 1 h.key_fits h.value_fits h.sequence_fits (omega arith))

pub Reads-read_entry : (e : Entry) → FitsEntry e → Reads read_entry e (encode_entry e)
Reads-read_entry e h = Reads-entry_of e.0 e.1.sequence e.1.value h

Reads-read_vec : (v : Bytes) → length v < 2 ^ 32 → Reads read_vec v (le_bytes 4 (length v) ++ v)
unfolding read_vec
Reads-read_vec v h = Reads-bind _ (Reads-read_le 4 (length v) h) (Reads-read_bytes v)

pub Reads-read_index_entry :
    (b : BlockIndexEntry) → FitsIndex b → Reads read_index_entry b (encode_index_entry b)
unfolding read_index_entry encode_index_entry
Reads-read_index_entry b h =
    rw (mod-eq_of_lt h.first_fits, mod-eq_of_lt h.last_fits)
      (subst (Reads read_index_entry b) (simp (append_assoc, append-nil)) (
        Reads-bind _ (Reads-read_vec b.first_key h.first_fits) (
          Reads-bind _ (Reads-read_vec b.last_key h.last_fits) (
            Reads-bind _ (Reads-read_le 8 b.offset h.offset_fits)
              (Reads-bind _ (Reads-read_le 8 b.length_of h.length_fits) (Reads-pure b))))))
