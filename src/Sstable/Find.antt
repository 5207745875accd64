-- ===== src/Sstable/Find.antt =====
-- Looking a key up in a written table finds what the memory table held for it.
use Prim.Native.Nat.Ordering.{lt}
use helixdb.Prelude.{
  ℕ, suc, ◌+◌, ◌^◌, ◌<◌, ◌≡◌, refl, ap, ◌∙◌, true, false, Option, none, some, List, [], ◌∷◌, ◌++◌,
  length, length-append, if◌then◌else◌, ok, arith, All, All-left, All-right, Bool-cases, inl, inr,
}
use mathlib.Core.List.{append_assoc}
use helixdb.Prelude.Bytes.{Bytes}
use helixdb.Prelude.Order.{bytes_ord, less}
use helixdb.Errors.{ValueEntry}
use helixdb.BTreeMap
use helixdb.BTreeMap.Sorted.{IsSorted, Above-trans, get-Above}
use helixdb.MemTable.{Entries}
use helixdb.Sstable.Format.{Entry, BlockIndexEntry, encode_block}
use helixdb.Sstable.Writer.{first_key_of, last_key_of}
use helixdb.Sstable.Reader.{partition_point, find_block, scan_block, read_block, get_in_block}
use helixdb.Sstable.Blocks.{FitsEntry}
use helixdb.Sstable.Groups.{Group, concat, IsFull, data_of, index_entry, index_from}
use helixdb.Sstable.Opened.{read_block_at}

-- A table answers with the value; a tombstone and a missing key look alike.
abbrev pub value_of : Option ValueEntry → Option Bytes
value_of none = none
value_of (some e) = e.value

IsSorted-right : (g l : Entries) → IsSorted (g ++ l) → IsSorted l
IsSorted-right [] l s = s
IsSorted-right (e ∷ g) l s = IsSorted-right g l s.1

-- The keys of a block do not pass its last key.
below_last :
    (g l : Entries) (key : Bytes)
    → IsSorted (g ++ l)
    → less (last_key_of g) key ≡ true
    → All (λ e. bytes_ord.cmp e.0 key ≡ lt) g
below_last [] l key s h = tt
below_last (e ∷ []) l key s h = (ground (arith, h), tt)
below_last (e ∷ f ∷ g) l key s h =
    let rest = below_last (f ∷ g) l key s.1 h in (bytes_ord.lt_trans e.0 f.0 key s.0.0 rest.0, rest)

get-append_above :
    (g l : Entries) (key : Bytes)
    → All (λ e. bytes_ord.cmp e.0 key ≡ lt) g
    → BTreeMap.get (g ++ l) key ≡ BTreeMap.get l key
unfolding BTreeMap.get
get-append_above [] l key h = refl
get-append_above (e ∷ g) l key h =
    rw (bytes_ord.gt_of_lt e.0 key h.0, BTreeMap.get) (get-append_above g l key h.1)

-- In the first block whose last key is not below the key, the scan finds what the table holds.
scan_block-eq-get :
    (g l : Entries) (key : Bytes)
    → IsSorted (g ++ l)
    → IsFull g
    → less (last_key_of g) key ≡ false
    → scan_block g key ≡ value_of (BTreeMap.get (g ++ l) key)
unfolding scan_block BTreeMap.get
scan_block-eq-get [] l key s f h = cc
scan_block-eq-get ((k, e) ∷ []) l key s f h = ground (
  arith,
  bytes_ord.lt_of_gt k key,
  bytes_ord.eq_of_cmp k key,
  bytes_ord.cmp_refl key,
  get-Above key l,
  Above-trans key k l,
)
scan_block-eq-get ((k, e) ∷ d ∷ g) l key s f h = ground (
  arith,
  bytes_ord.lt_of_gt k key,
  bytes_ord.gt_of_lt k key,
  bytes_ord.eq_of_cmp k key,
  bytes_ord.cmp_refl key,
  get-Above key (d ∷ (g ++ l)),
  Above-trans key k (d ∷ (g ++ l)),
  scan_block-eq-get (d ∷ g) l key s.1 refl h,
)

get_before :
    (g l : Entries) (key : Bytes)
    → IsFull g
    → IsSorted (g ++ l)
    → less key (first_key_of g) ≡ true
    → BTreeMap.get (g ++ l) key ≡ none
get_before [] l key f s h = cc
get_before (e ∷ g) l key f s h =
    let lo : bytes_ord.cmp key e.0 ≡ lt = ground (arith, h) in
    get-Above key (e ∷ (g ++ l)) (lo, Above-trans key e.0 (g ++ l) lo s.0)

abbrev map_suc : Option ℕ → Option ℕ
map_suc none = none
map_suc (some i) = some (suc i)

find_block_below :
    (b : BlockIndexEntry) (bs : List BlockIndexEntry) (key : Bytes)
    → less b.last_key key ≡ true
    → find_block (b ∷ bs) key ≡ map_suc (find_block bs key)
unfolding find_block partition_point
find_block_below b bs key h = ground (arith, h)

find_block_here :
    (b : BlockIndexEntry) (bs : List BlockIndexEntry) (key : Bytes)
    → less b.last_key key ≡ false
    → find_block (b ∷ bs) key ≡ (if less key b.first_key then none else some 0)
unfolding find_block partition_point
find_block_here b bs key h = ground (arith, h)

module _ (crc : Bytes → ℕ) where
  get_in_block-none :
      (file : Bytes) (index : List BlockIndexEntry) (key : Bytes)
      → get_in_block crc file index none key ≡ ok none
  unfolding get_in_block
  get_in_block-none file index key = refl

  get_in_block_below :
      (file : Bytes) (b : BlockIndexEntry) (bs : List BlockIndexEntry) (o : Option ℕ) (key : Bytes)
      → get_in_block crc file (b ∷ bs) (map_suc o) key ≡ get_in_block crc file bs o key
  unfolding get_in_block
  get_in_block_below file b bs none key = refl
  get_in_block_below file b bs (some i) key = refl

  get_in_block_here :
      (file : Bytes) (b : BlockIndexEntry) (bs : List BlockIndexEntry) (key : Bytes)
      (block : List Entry)
      → read_block crc file b ≡ ok block
      → get_in_block crc file (b ∷ bs) (some 0) key ≡ ok (scan_block block key)
  unfolding get_in_block
  get_in_block_here file b bs key block h = rw h

  module _ (crc-lt : (b : Bytes) → crc b < 2 ^ 32) where
    pub get_in_groups :
        (front back : Bytes) (gs : List Group) (key : Bytes)
        → All IsFull gs
        → IsSorted (concat gs)
        → length (concat gs) < 2 ^ 32
        → All FitsEntry (concat gs)
        → let index = index_from crc (length front) gs in
          get_in_block crc (front ++ (data_of crc gs ++ back)) index (find_block index key) key
          ≡ ok (value_of (BTreeMap.get (concat gs) key))
    get_in_groups front back [] key full s few h =
        unfold find_block partition_point get_in_block BTreeMap.get in refl
    get_in_groups front back (g ∷ gs) key full s few h =
        let e = encode_block crc g in
        let sizes = length-append g (concat gs) in
        let file = front ++ ((e ++ data_of crc gs) ++ back) in
        let b = index_entry crc (length front) g in
        let bs = index_from crc (length front + length e) gs in
        elim (Bool-cases (less (last_key_of g) key)) [
          | inl below ↦
              let skip =
                get-append_above g (concat gs) key (below_last g (concat gs) key s below) in
              let regroup : (front ++ e) ++ (data_of crc gs ++ back) ≡ file = simp append_assoc in
              let rest =
                get_in_groups (front ++ e) back gs key full.1 (IsSorted-right g (concat gs) s)
                  (omega (arith, sizes)) (All-right FitsEntry g (concat gs) h) in
              rw
                (
                  find_block_below b bs key below,
                  get_in_block_below file b bs (find_block bs key) key,
                  skip,
                )
                (rw (regroup, length-append front e) at rest)
          | inr within ↦ elim (Bool-cases (less key (first_key_of g))) [
            | inl outside ↦
                rw
                  (
                    find_block_here b bs key within,
                    outside,
                    get_before g (concat gs) key full.0 s outside,
                  )
                  (get_in_block-none file (b ∷ bs) key)
            | inr inside ↦
                let regroup : front ++ (e ++ (data_of crc gs ++ back)) ≡ file = simp append_assoc in
                let here =
                  read_block_at crc crc-lt front (data_of crc gs ++ back) g (omega (arith, sizes))
                    (All-left FitsEntry g (concat gs) h) in
                rw (find_block_here b bs key within, inside)
                  (get_in_block_here file b bs key g (rw regroup at here)
                    ∙ ap ok (scan_block-eq-get g (concat gs) key s full.0 within))
          ]
        ]
