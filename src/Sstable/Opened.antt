-- ===== src/Sstable/Opened.antt =====
-- Opening a file that the writer made, and reading its blocks.
use helixdb.Prelude.{
  ℕ, ◌+◌, ◌^◌, ◌<◌, ◌≤◌, ◌≡◌, List, [], ◌∷◌, ◌++◌, length, length-append, drop-append_self, ok,
  arith, All, All-imp, All-left, All-right,
}
use helixdb.Prelude.Bytes.{Bytes, read_exact-append}
use helixdb.Sstable.Format.{
  Entry, encode_entry, encode_index_entry, encode_block, encode_index, read_slice, read_entry,
  read_index_entry,
}
use helixdb.Sstable.Writer.{first_key_of, last_key_of}
use helixdb.Sstable.Reader.{read_index, read_block}
use helixdb.Sstable.Blocks.{
  FitsEntry, FitsIndex, read_counted-encode_counted, Reads-read_entry, Reads-read_index_entry,
}
use helixdb.Sstable.Groups.{Group, concat, IsFull, data_of, index_entry, index_from}

-- A slice of a file at a known place.
pub read_slice_at :
    (front slice back : Bytes)
    → read_slice (front ++ (slice ++ back)) (length front) (length slice) ≡ ok slice
read_slice_at front slice back =
    rw (drop-append_self front (slice ++ back), read_exact-append slice back)

pub All-concat {ℓ} :
    (P : Entry → Type ℓ) (gs : List Group) → All P (concat gs) → All (λ g. All P g) gs
All-concat P [] h = tt
All-concat P (g ∷ gs) h =
    (All-left P g (concat gs) h, All-concat P gs (All-right P g (concat gs) h))

pub length-index_from :
    (crc : Bytes → ℕ) (o : ℕ) (gs : List Group)
    → All IsFull gs
    → length (index_from crc o gs) ≤ length (concat gs)
length-index_from crc o [] h = omega arith
length-index_from crc o ([] ∷ gs) h = cc (h.0)
length-index_from crc o ((e ∷ g) ∷ gs) h = omega (
  arith,
  length-index_from crc (o + length (encode_block crc (e ∷ g))) gs h.1,
  length-append g (concat gs),
)

first_fits : (g : Group) → All FitsEntry g → length (first_key_of g) < 2 ^ 32
first_fits [] h = omega arith
first_fits (e ∷ g) h = h.0.key_fits

last_fits : (g : Group) → All FitsEntry g → length (last_key_of g) < 2 ^ 32
last_fits [] h = omega arith
last_fits (e ∷ []) h = h.0.key_fits
last_fits (e ∷ f ∷ g) h = last_fits (f ∷ g) h.1

module _ (crc : Bytes → ℕ) where
  pub index_from-Fits :
      (o : ℕ) (gs : List Group)
      → All (λ g. All FitsEntry g) gs
      → o + length (data_of crc gs) < 2 ^ 64
      → All FitsIndex (index_from crc o gs)
  index_from-Fits o [] h lt = tt
  index_from-Fits o (g ∷ gs) h lt =
      let split = length-append (encode_block crc g) (data_of crc gs) in
      (
        record {
          first_fits = first_fits g h.0;
          last_fits = last_fits g h.0;
          offset_fits = omega (arith, split);
          length_fits = omega (arith, split);
        },
        index_from-Fits (o + length (encode_block crc g)) gs h.1 (omega (arith, split)),
      )

  module _ (crc-lt : (b : Bytes) → crc b < 2 ^ 32) where
    pub read_index-encode_index :
        (o : ℕ) (gs : List Group)
        → length (index_from crc o gs) < 2 ^ 32
        → All FitsIndex (index_from crc o gs)
        → read_index crc (encode_index crc (index_from crc o gs)) ≡ ok (index_from crc o gs)
    unfolding read_index encode_index
    read_index-encode_index o gs few h =
        read_counted-encode_counted read_index_entry encode_index_entry crc crc-lt _ _
          (index_from crc o gs) few (All-imp Reads-read_index_entry (index_from crc o gs) h)

    -- The block of a group is read from the place that the index names.
    pub read_block_at :
        (front back : Bytes) (g : Group)
        → length g < 2 ^ 32
        → All FitsEntry g
        → read_block crc (front ++ (encode_block crc g ++ back)) (index_entry crc (length front) g)
          ≡ ok g
    unfolding read_block encode_block
    read_block_at front back g few h = rw (read_slice_at front (encode_block crc g) back) (
        read_counted-encode_counted read_entry encode_entry crc crc-lt _ _ g few
          (All-imp Reads-read_entry g h))
