-- ===== src/MemTable/Size.antt =====
-- What a table answers after an insertion, and how its running total relates to its real size.
use helixdb.Prelude.{
  ℕ, ◌+◌, ◌^◌, ◌≤◌, ◌<◌, ◌≡◌, Option, none, some, [], ◌∷◌, length, if◌then◌else◌, arith,
}
use helixdb.Prelude.Bytes.{Bytes}
use helixdb.Prelude.Order.{bytes_ord, eqb}
use helixdb.BTreeMap
use helixdb.BTreeMap.{BTreeMap}
use helixdb.BTreeMap.Laws.{get-insert}
use helixdb.BTreeMap.Sorted.{IsSorted, Above-trans, get-Above, insert-IsSorted}
use helixdb.Errors.{ValueEntry}
use helixdb.Wal.{value_len}
use helixdb.MemTable.{Entries, MemTable, insert, get, default}

pub get-insert_entry :
    (mt : MemTable) (key j : Bytes) (value : Option Bytes) (sequence : ℕ)
    → get (insert mt key value sequence) j
      ≡ (if eqb j key then some (record { sequence = sequence; value = value }) else get mt j)
unfolding insert get
get-insert_entry mt key j value sequence =
    get-insert mt.entries key j (record { sequence = sequence; value = value })

-- The bytes that an entry counts for.
abbrev pub entry_size : Bytes → ValueEntry → ℕ
entry_size key e = length key + value_len e.value + 24

abbrev pub total_size : Entries → ℕ
total_size [] = 0
total_size ((k, e) ∷ m) = entry_size k e + total_size m

abbrev pub size_at : Bytes → Option ValueEntry → ℕ
size_at key none = 0
size_at key (some e) = entry_size key e

pub total_size-insert :
    (m : Entries) (key : Bytes) (e : ValueEntry)
    → IsSorted m
    → total_size (BTreeMap.insert m key e) + size_at key (BTreeMap.get m key)
      ≡ total_size m + entry_size key e
unfolding BTreeMap.insert BTreeMap.get
total_size-insert [] key e s = omega arith
total_size-insert ((j, w) ∷ m) key e s = ground (
  arith,
  total_size-insert m key e s.1,
  bytes_ord.eq_of_cmp key j,
  get-Above key m,
  Above-trans key j m,
)

size_at-le : (m : Entries) (key : Bytes) → size_at key (BTreeMap.get m key) ≤ total_size m
unfolding BTreeMap.get
size_at-le [] key = omega arith
size_at-le ((j, w) ∷ m) key = ground (arith, size_at-le m key, bytes_ord.eq_of_cmp key j)

-- The table's keys increase, and its running total is no less than its real size.
pub record IsValid (mt : MemTable) : Type 0 where
  pub sorted : IsSorted mt.entries
  pub counted : total_size mt.entries ≤ mt.approximate_bytes

pub default-IsValid : IsValid default
default-IsValid = record { sorted = tt; counted = omega arith }

-- As long as the total does not saturate, an insertion keeps the keys increasing and the total no
-- less than the size of the entries.
pub insert-IsValid :
    (mt : MemTable) (key : Bytes) (value : Option Bytes) (sequence : ℕ)
    → mt.approximate_bytes + length key + value_len value + 24 < 2 ^ 64
    → IsValid mt
    → IsValid (insert mt key value sequence)
unfolding insert
insert-IsValid mt key value sequence fits v =
    let e : ValueEntry = record { sequence = sequence; value = value } in
    record {
      sorted = insert-IsSorted mt.entries key e v.sorted;
      counted = ground (arith, total_size-insert mt.entries key e v.sorted, v.counted);
    }

-- Overwriting a key with a value adds the length of the key to the total each time, though the
-- size of the entries changes by the difference of the values only: the total drifts upwards.
pub overwrite_drift :
    (mt : MemTable) (key : Bytes) (value : Option Bytes) (sequence : ℕ) (existing : ValueEntry)
    → IsValid mt
    → get mt key ≡ some existing
    → mt.approximate_bytes + length key + value_len value + 24 < 2 ^ 64
    → ((insert mt key value sequence).approximate_bytes + value_len existing.value
        ≡ mt.approximate_bytes + length key + value_len value)
      × (total_size (insert mt key value sequence).entries + value_len existing.value
          ≡ total_size mt.entries + value_len value)
unfolding insert get
overwrite_drift mt key value sequence existing v h fits =
    let e : ValueEntry = record { sequence = sequence; value = value } in
    let sizes = rw h at (total_size-insert mt.entries key e v.sorted) in
    let room = rw h at (size_at-le mt.entries key) in
    (rw h (omega (arith, room, v.counted)), omega (arith, sizes))
