-- ===== src/Sstable/Lookup.antt =====
-- The table as a component: what is written is what `entries` and `get` give back.
use helixdb.Prelude.{
  ℕ, ◌^◌, ◌<◌, ◌≡◌, sym, ap, ◌∙◌, subst, true, some, List, [], ◌∷◌, length, ok, err, arith, All,
  Bool-cases, Option-cases, inl, inr,
}
use helixdb.Prelude.Bytes.{Bytes}
use helixdb.Prelude.Order.{bytes_ord, eqb, eq_of_eqb}
use helixdb.Errors.{ValueEntry, corrupt}
use helixdb.BTreeMap
use helixdb.BTreeMap.Laws.{get-cons}
use helixdb.BTreeMap.Sorted.{IsSorted}
use helixdb.MemTable.{Entries}
use helixdb.Bloom.{from_keys, might_contain}
use helixdb.Bloom.Contains.{from_keys_finds}
use helixdb.Sstable.Writer.{SstableMeta, is_empty, keys_of, write_from_memtable}
use helixdb.Sstable.Reader.{SstableReader, open_table, entries, get}
use helixdb.Sstable.Blocks.{FitsEntry}
use helixdb.Sstable.Groups.{Group, concat, index_from}
use helixdb.Sstable.Written.{IsFileOf, write_from_memtable-IsFileOf}
use helixdb.Sstable.Entries.{FitsTable, open_table-IsFileOf, entries-IsFileOf}
use helixdb.Sstable.Find.{value_of, get_in_groups}

keys_of-get :
    (P : Bytes → Type 0) (m : Entries) (key : Bytes) (e : ValueEntry)
    → All P (keys_of m)
    → BTreeMap.get m key ≡ some e
    → P key
unfolding keys_of BTreeMap.get
keys_of-get P [] key e h g = cc
keys_of-get P ((j, w) ∷ m) key e h g = elim (Bool-cases (eqb key j)) [
  | inl same ↦ subst P (sym (eq_of_eqb key j same)) h.0
  | inr other ↦ keys_of-get P m key e h.1 (rw (get-cons m j key w, other) at g)
]

module _ (crc : Bytes → ℕ) (crc-lt : (b : Bytes) → crc b < 2 ^ 32) (hasher : ℕ → Bytes → ℕ) where
  get-IsFileOf :
      (m : Entries) (file : Bytes) (groups : List Group) (key : Bytes)
      → IsFileOf crc hasher m file groups
      → FitsTable m file
      → IsSorted m
      → get crc hasher file
          (record { index = index_from crc 0 groups; bloom = from_keys hasher (keys_of m) })
          key
        ≡ ok (value_of (BTreeMap.get m key))
  unfolding get
  get-IsFileOf m file groups key is fits s =
      elim (Bool-cases (might_contain hasher (from_keys hasher (keys_of m)) key)) [
        | inl maybe ↦
            let few : length (concat groups) < 2 ^ 32 =
              omega (arith, ap length is.parts, fits.few) in
            let each = subst (All FitsEntry) (sym is.parts) fits.each in
            let sorted = subst IsSorted (sym is.parts) s in
            let found = get_in_groups crc crc-lt [] _ groups key is.full sorted few each in
            rw (maybe, is.file_is) (found ∙ ap (λ l. ok (value_of (BTreeMap.get l key))) is.parts)
        | inr never ↦ elim (Option-cases (BTreeMap.get m key)) [
          | inl missing ↦ rw (never, missing)
          | inr (e, held) ↦
              let yes_ =
                keys_of-get (λ k. might_contain hasher (from_keys hasher (keys_of m)) k ≡ true) m
                  key e (from_keys_finds hasher (keys_of m)) held in
              absurd (cc (yes_, never))
        ]
      ]

  write_empty :
      (name : Bytes) (m : Entries) (block_size id : ℕ)
      → is_empty m ≡ true
      → write_from_memtable crc hasher name m block_size id
        ≡ err (corrupt "cannot write empty sstable")
  unfolding write_from_memtable
  write_empty name m n id h = rw h

  -- The file that was written for a sorted table, if its numbers and the checksums fit their fields,
  -- opens, gives back all entries in their order, and answers each key with the value that the table
  -- holds for it; a tombstone is answered like a missing key.
  pub get-write_from_memtable :
      (name : Bytes) (m : Entries) (block_size id : ℕ) (file : Bytes) (meta : SstableMeta)
      → IsSorted m
      → All FitsEntry m
      → length m < 2 ^ 32
      → length file < 2 ^ 64
      → write_from_memtable crc hasher name m block_size id ≡ ok (file, meta)
      → (r : SstableReader) × (open_table crc file ≡ ok r)
        × (entries crc file r ≡ ok m)
        × ((key : Bytes) → get crc hasher file r key ≡ ok (value_of (BTreeMap.get m key)))
  get-write_from_memtable name m n id file meta s each few room wrote =
      elim (Bool-cases (is_empty m)) [
        | inl nothing ↦ absurd (cc (write_empty name m n id nothing, wrote))
        | inr f ↦
            let (file', meta', groups, wrote', is', _, _, _) =
              write_from_memtable-IsFileOf crc hasher name m n id f in
            let same : file' ≡ file = ground (arith, wrote, wrote') in
            let is = subst (λ b. IsFileOf crc hasher m b groups) same is' in
            let fits : FitsTable m file = record { few = few; each = each; file_fits = room } in
            (
              record { index = index_from crc 0 groups; bloom = from_keys hasher (keys_of m) },
              open_table-IsFileOf crc crc-lt hasher m file groups is fits,
              entries-IsFileOf crc crc-lt hasher m file groups is fits,
              λ key. get-IsFileOf m file groups key is fits s,
            )
      ]
