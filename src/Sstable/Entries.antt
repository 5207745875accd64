-- ===== src/Sstable/Entries.antt =====
-- A table that was written opens, and gives back all its entries.
use helixdb.Prelude.{
  ℕ, suc, ◌+◌, ◌-◌, ◌^◌, ◌<◌, ◌≡◌, refl, sym, ap, ◌∙◌, subst, List, [], ◌∷◌, ◌++◌, length, drop,
  length-append, drop-append_self, le→ltb_false, le→leb, ok, arith, All, All-left, All-right, some,
}
use mathlib.Core.List.{append_assoc}
use helixdb.Prelude.Bytes.{Bytes}
use helixdb.MemTable.{Entries}
use helixdb.Bloom.{from_keys, serialize, deserialize}
use helixdb.Bloom.Contains.{from_keys-IsValid, from_keys_numbers}
use helixdb.Bloom.Codec.{deserialize-serialize}
use helixdb.Sstable.Format.{encode_block, encode_index, encode_footer, read_slice}
use helixdb.Sstable.Writer.{keys_of}
use helixdb.Sstable.Reader.{
  SstableReader, checked_sub, read_footer, read_index, open_table, entries_of, entries,
}
use helixdb.Sstable.Blocks.{FitsEntry}
use helixdb.Sstable.Groups.{Group, concat, data_of, index_from}
use helixdb.Sstable.Written.{IsFileOf}
use helixdb.Sstable.Footer.{read_footer-encode_footer, length-encode_footer}
use helixdb.Sstable.Opened.{
  All-concat, length-index_from, index_from-Fits, read_index-encode_index, read_block_at,
  read_slice_at,
}

-- The table's numbers fit the fields of the file.
pub record FitsTable (m : Entries) (file : Bytes) : Type 0 where
  pub few : length m < 2 ^ 32
  pub each : All FitsEntry m
  pub file_fits : length file < 2 ^ 64

checked_sub-add : (a b : ℕ) → checked_sub (a + b) a ≡ some b
checked_sub-add a b = rw (le→leb a (a + b) (omega arith)) (ap some (omega arith))

length-keys_of : (m : Entries) → length (keys_of m) ≡ length m
unfolding keys_of
length-keys_of [] = refl
length-keys_of (e ∷ m) = ap suc (length-keys_of m)

module _ (crc : Bytes → ℕ) (crc-lt : (b : Bytes) → crc b < 2 ^ 32) (hasher : ℕ → Bytes → ℕ) where
  -- The layout: what the footer says is where the parts are.
  open_layout :
      (d i b f : Bytes) (r : SstableReader)
      → length f ≡ 28
      → read_footer crc f ≡ ok (length d, length d + length i)
      → read_index crc i ≡ ok r.index
      → deserialize crc b ≡ ok r.bloom
      → open_table crc (d ++ (i ++ (b ++ f))) ≡ ok r
  unfolding open_table
  open_layout d i b f r f_is footer index bloom =
      let file = d ++ (i ++ (b ++ f)) in
      let size : length file ≡ length d + length i + length b + 28 = omega (
        arith,
        length-append d (i ++ (b ++ f)),
        length-append i (b ++ f),
        length-append b f,
        f_is,
      ) in
      let front : length ((d ++ i) ++ b) ≡ length file - 28 =
        omega (arith, size, length-append (d ++ i) b, length-append d i) in
      let left : length file - 28 ≡ (length d + length i) + length b = omega (arith, size) in
      let regroup : ((d ++ i) ++ b) ++ f ≡ file = simp append_assoc in
      let footer_at : drop (length file - 28) file ≡ f =
        rw (front, regroup) at (drop-append_self ((d ++ i) ++ b) f) in
      let bloom_at : read_slice file (length d + length i) (length b) ≡ ok b =
        rw (append_assoc d i (b ++ f), length-append d i) at (read_slice_at (d ++ i) b f) in
      rw (
        le→ltb_false (length file) 28 (omega (arith, size)),
        footer_at,
        footer,
        checked_sub-add (length d) (length i),
        read_slice_at d i (b ++ f),
        index,
        left,
        checked_sub-add (length d + length i) (length b),
        bloom_at,
        bloom,
      )

  -- Opening the file of a table gives the index of its blocks and the filter of its keys.
  pub open_table-IsFileOf :
      (m : Entries) (file : Bytes) (groups : List Group)
      → IsFileOf crc hasher m file groups
      → FitsTable m file
      → open_table crc file
        ≡ ok (record { index = index_from crc 0 groups; bloom = from_keys hasher (keys_of m) })
  open_table-IsFileOf m file groups is fits =
      let d = data_of crc groups in
      let blocks = index_from crc 0 groups in
      let i = encode_index crc blocks in
      let bloom = from_keys hasher (keys_of m) in
      let b = serialize crc bloom in
      let f = encode_footer crc (length d) (length d + length i) in
      let size : length file ≡ length d + (length i + (length b + length f)) = omega (
        arith,
        ap length is.file_is,
        length-append d (i ++ (b ++ f)),
        length-append i (b ++ f),
        length-append b f,
      ) in
      let each = subst (All FitsEntry) (sym is.parts) fits.each in
      let few : length blocks < 2 ^ 32 =
        omega (arith, length-index_from crc 0 groups is.full, ap length is.parts, fits.few) in
      let index_fits =
        index_from-Fits crc 0 groups (All-concat FitsEntry groups each)
          (omega (arith, size, fits.file_fits)) in
      let numbers = from_keys_numbers hasher (keys_of m) in
      rw is.file_is (
        open_layout d i b f (record { index = blocks; bloom = bloom })
          (length-encode_footer crc (length d) (length d + length i))
          (read_footer-encode_footer crc (length d) (length d + length i) crc-lt
            (omega (arith, size, fits.file_fits)) (omega (arith, size, fits.file_fits)))
          (read_index-encode_index crc crc-lt 0 groups few index_fits)
          (deserialize-serialize crc crc-lt bloom (from_keys-IsValid hasher (keys_of m))
            (omega (arith, numbers.0, length-keys_of m, fits.few)) (omega (arith, numbers.1))))

  -- The blocks from one on, read in turn.
  entries_of-index_from :
      (front back : Bytes) (gs : List Group)
      → length (concat gs) < 2 ^ 32
      → All FitsEntry (concat gs)
      → entries_of crc (front ++ (data_of crc gs ++ back)) (index_from crc (length front) gs)
        ≡ ok (concat gs)
  unfolding entries_of
  entries_of-index_from front back [] few h = refl
  entries_of-index_from front back (g ∷ gs) few h =
      let e = encode_block crc g in
      let sizes = length-append g (concat gs) in
      let here =
        read_block_at crc crc-lt front (data_of crc gs ++ back) g (omega (arith, sizes))
          (All-left FitsEntry g (concat gs) h) in
      let rest =
        entries_of-index_from (front ++ e) back gs (omega (arith, sizes))
          (All-right FitsEntry g (concat gs) h) in
      let regroup : (front ++ e) ++ (data_of crc gs ++ back)
          ≡ front ++ ((e ++ data_of crc gs) ++ back) =
        simp append_assoc in
      let regroup' : front ++ (e ++ (data_of crc gs ++ back))
          ≡ front ++ ((e ++ data_of crc gs) ++ back) =
        simp append_assoc in
      rw (rw regroup' at here, rw (regroup, length-append front e) at rest)

  -- The entries of a written table are the entries that were written, in their order.
  pub entries-IsFileOf :
      (m : Entries) (file : Bytes) (groups : List Group)
      → IsFileOf crc hasher m file groups
      → FitsTable m file
      → entries crc file
          (record { index = index_from crc 0 groups; bloom = from_keys hasher (keys_of m) })
        ≡ ok m
  unfolding entries
  entries-IsFileOf m file groups is fits =
      let few : length (concat groups) < 2 ^ 32 = omega (arith, ap length is.parts, fits.few) in
      let each = subst (All FitsEntry) (sym is.parts) fits.each in
      rw is.file_is (entries_of-index_from [] _ groups few each ∙ ap ok is.parts)
