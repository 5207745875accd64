-- ===== src/Sstable/Written.antt =====
-- What `write_from_memtable` returns for a table that is not empty.
use helixdb.Prelude.{
  ℕ, ◌+◌, ◌≡◌, refl, sym, ap, ◌∙◌, subst, false, List, [], ◌∷◌, ◌++◌, length, ok, All,
}
use mathlib.Core.List.{append-nil}
use helixdb.Prelude.Bytes.{Bytes}
use helixdb.MemTable.{Entries}
use helixdb.Bloom.{from_keys, serialize}
use helixdb.Sstable.Format.{Entry, encode_block, encode_index, encode_footer}
use helixdb.Sstable.Writer.{
  SstableMeta, start, first_key_of, last_key_of, is_empty, add_all, close_last, keys_of, file_of,
  smallest, largest, write_from_memtable,
}
use helixdb.Sstable.Groups.{
  Group, concat, IsFull, data_of, index_from, Wrote-start, add_all-Wrote, close_last-Wrote,
}

-- The blocks partition the entries, and the file holds the blocks, the index, the filter of all
-- keys, and the footer that says where these begin.
pub record IsFileOf (crc : Bytes → ℕ) (hasher : ℕ → Bytes → ℕ) (m : Entries) (file : Bytes)
    (groups : List Group) : Type 0 where
  pub parts : concat groups ≡ m
  pub full : All IsFull groups
  pub file_is :
      file
      ≡ data_of crc groups
        ++ (encode_index crc (index_from crc 0 groups)
            ++ (serialize crc (from_keys hasher (keys_of m))
                ++ encode_footer crc (length (data_of crc groups)) (
                    length (data_of crc groups)
                    + length (encode_index crc (index_from crc 0 groups)))))

-- The first key of the first block and the last key of the last one, of entries in full blocks.
first_key_of-append :
    (g : Group) (l : List Entry) → IsFull g → first_key_of (g ++ l) ≡ first_key_of g
first_key_of-append [] l f = cc
first_key_of-append (e ∷ g) l f = refl

last_key_of-append : (g l : List Entry) → IsFull l → last_key_of (g ++ l) ≡ last_key_of l
last_key_of-append [] l f = refl
last_key_of-append (e ∷ []) [] f = cc
last_key_of-append (e ∷ []) (d ∷ l) f = refl
last_key_of-append (e ∷ c ∷ g) l f = last_key_of-append (c ∷ g) l f

IsFull-append : (g l : List Entry) → IsFull g → IsFull (g ++ l)
IsFull-append [] l f = cc
IsFull-append (e ∷ g) l f = refl

module _ (crc : Bytes → ℕ) where
  smallest-index_from :
      (o : ℕ) (gs : List Group)
      → All IsFull gs
      → IsFull (concat gs)
      → smallest (index_from crc o gs) ≡ ok (first_key_of (concat gs))
  smallest-index_from o [] h f = cc
  smallest-index_from o (g ∷ gs) h f = ap ok (sym (first_key_of-append g (concat gs) h.0))

  largest-index_from :
      (o : ℕ) (gs : List Group)
      → All IsFull gs
      → IsFull (concat gs)
      → largest (index_from crc o gs) ≡ ok (last_key_of (concat gs))
  largest-index_from o [] h f = cc
  largest-index_from o (g ∷ []) h f = ap (λ l. ok (last_key_of l)) (sym (append-nil g))
  largest-index_from o (g ∷ g' ∷ gs) h f =
      let f' = IsFull-append g' (concat gs) h.1.0 in
      largest-index_from (o + length (encode_block crc g)) (g' ∷ gs) h.1 f'
      ∙ ap ok (sym (last_key_of-append g (concat (g' ∷ gs)) f'))

  module _ (hasher : ℕ → Bytes → ℕ) where
    -- A table with entries is written as blocks that partition them, with their index, the filter
    -- of all keys and the footer; the table's record names its first and last key and its size.
    pub write_from_memtable-IsFileOf :
        (name : Bytes) (m : Entries) (block_size id : ℕ)
        → is_empty m ≡ false
        → (file : Bytes) × (meta : SstableMeta) × (groups : List Group) × (write_from_memtable crc
              hasher name m block_size id
            ≡ ok (file, meta))
          × IsFileOf crc hasher m file groups
          × (meta.smallest_key ≡ first_key_of m)
          × (meta.largest_key ≡ last_key_of m)
          × (meta.entry_count ≡ length m)
    unfolding write_from_memtable file_of
    write_from_memtable-IsFileOf name m n id f =
        let (w, none_left) =
          close_last-Wrote crc (add_all crc n start m) m
            (add_all-Wrote crc n start m [] (Wrote-start crc)) in
        let p = close_last crc (add_all crc n start m) in
        let parts : concat w.groups ≡ m =
          sym
            (w.done_is ∙ ap (λ l. concat w.groups ++ l) none_left ∙ append-nil (concat w.groups)) in
        let whole = subst IsFull (sym parts) f in
        let first =
          ap smallest w.blocks_are
          ∙ smallest-index_from 0 w.groups w.full whole
          ∙ ap (λ l. ok (first_key_of l)) parts in
        let last =
          ap largest w.blocks_are
          ∙ largest-index_from 0 w.groups w.full whole
          ∙ ap (λ l. ok (last_key_of l)) parts in
        (
          file_of crc hasher p m,
          record {
            id = id;
            file_name = name;
            smallest_key = first_key_of m;
            largest_key = last_key_of m;
            entry_count = length m;
          },
          w.groups,
          rw (f, first, last),
          record {
            parts = parts;
            full = w.full;
            file_is = cc (w.file_is, w.blocks_are, w.offset_is);
          },
          refl,
          refl,
          refl,
        )
